-- ===== src/Homeservers/Collect.antt =====
-- multi_hs.rs: the events that were seen, and the calls that ask every homeserver.
use mxdx.Prelude.{
  ℕ, suc, String, Bool, true, false, List, [], ◌∷◌, Option, some, none, if◌then◌else◌, ltb, length,
  take, drop, push_back,
}
use mxdx.Prelude.Dict.{Dict, insert, remove, contains_key}
use mxdx.Homeservers.Pool.{
  ServerEntry, MultiHsClient, is_down, status_of, is_single_server, record_failure, record_success,
  Answer, success, failure,
}

abbrev pub max_seen_events : ℕ
max_seen_events = 10000

abbrev pub evict_batch : ℕ
evict_batch = 2000

unfoldable pub remove_all {ℓ} : {V : Type ℓ} → List String → Dict V → Dict V
remove_all [] m = m
remove_all (k ∷ ks) m = remove_all ks (remove k m)

-- `drain(..EVICT_BATCH)`, which panics in the source on a shorter list
unfoldable pub evict : MultiHsClient → MultiHsClient
evict c =
    if ltb max_seen_events (length c.seen_events)
    then record c {
      seen_order = drop evict_batch c.seen_order;
      seen_events = remove_all (take evict_batch c.seen_order) c.seen_events;
    }
    else c

unfoldable pub note_seen : ℕ → String → MultiHsClient → MultiHsClient
note_seen now event_id c = evict (record c {
  seen_events = insert event_id now c.seen_events;
  seen_order = push_back c.seen_order event_id;
})

unfoldable pub is_duplicate : ℕ → String → MultiHsClient → MultiHsClient × Bool
is_duplicate now event_id c =
    if is_single_server c
    then (c, false)
    else if contains_key event_id c.seen_events
    then (c, true)
    else (note_seen now event_id c, false)

-- `event.get("event_id").and_then(as_str)` is the parameter `event_id`.
module _ {Value : Type 0} (event_id : Value → Option String) where
  -- The event, whose identifier is read, is delivered if that is new.
  unfoldable pub deliver_one :
      ℕ → Value → Option String → MultiHsClient → List Value → MultiHsClient × List Value
  deliver_one now event none c out = (c, push_back out event)
  deliver_one now event (some id) c out =
      let (c', duplicate) = is_duplicate now id c in
      if duplicate then (c', out) else (c', push_back out event)

  unfoldable pub deliver : ℕ → List Value → MultiHsClient → List Value → MultiHsClient × List Value
  deliver now [] c out = (c, out)
  deliver now (e ∷ es) c out =
      let (c', out') = deliver_one now e (event_id e) c out in deliver now es c' out'

  -- What one server answers, and when.
  unfoldable pub take_answer :
      ℕ → ℕ → Answer (List Value) → MultiHsClient → List Value → MultiHsClient × List Value
  take_answer now i (success events) c out = deliver now events (record_success i c) out
  take_answer now i (failure e) c out = (record_failure now i c, out)

  unfoldable pub collect :
      (ℕ → ℕ × Answer (List Value))
      → ℕ
      → List ServerEntry
      → MultiHsClient
      → List Value
      → MultiHsClient × List Value
  collect answers i [] c out = (c, out)
  collect answers i (e ∷ es) c out =
      let (now, answer) = answers i in
      let (c', out') =
        if is_down (status_of e.server c) then (c, out) else take_answer now i answer c out in
      collect answers (suc i) es c' out'

  unfoldable pub sync_and_collect_events :
      (ℕ → ℕ × Answer (List Value)) → MultiHsClient → MultiHsClient × Answer (List Value)
  sync_and_collect_events answers c =
      if is_single_server c
      then (c, (answers 0).1)
      else let (c', out) = collect answers 0 c.entries c [] in (c', success out)

module _ {LauncherTopology : Type 0} where
  unfoldable pub search_servers :
      (ℕ → ℕ × Answer (Option LauncherTopology))
      → ℕ
      → List ServerEntry
      → MultiHsClient
      → MultiHsClient × Option LauncherTopology
  search_servers answers i [] c = (c, none)
  search_servers answers i (e ∷ es) c = elim (is_down (status_of e.server c)) [
    | true ↦ search_servers answers (suc i) es c
    | false ↦ elim (answers i).1 [
      | success (some topology) ↦ (record_success i c, some topology)
      | success none ↦ search_servers answers (suc i) es (record_success i c)
      | failure e' ↦ search_servers answers (suc i) es (record_failure (answers i).0 i c)
    ]
  ]

  unfoldable pub find_launcher_space :
      (ℕ → ℕ × Answer (Option LauncherTopology))
      → MultiHsClient
      → MultiHsClient × Answer (Option LauncherTopology)
  find_launcher_space answers c =
      if is_single_server c
      then (c, (answers 0).1)
      else let (c', found) = search_servers answers 0 c.entries c in (c', success found)

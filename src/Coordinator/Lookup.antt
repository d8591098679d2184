-- ===== src/Coordinator/Lookup.antt =====
-- index.rs and router.rs: the index and the router, told of the same workers, give the same answer.
use mxdx.Prelude.Texts.{contains, contains-retain}
use mxdx.Prelude.{
  String, str_eq, str_eq_iff, ◌≡◌, refl, ◌∙◌, Bool, true, false, ◌&&◌, List, [], ◌∷◌, Option, some,
  none, if◌then◌else◌, arith, all, retain, Memᴰ, All,
}
use mxdx.Prelude.Dict.{Dict, get, contains_key, contains_key-get, get-insert}
use mxdx.Prelude.Maps.{keys}
use mxdx.Events.{WorkerInfo, SessionTask}
use mxdx.Coordinator.Router as Router
use mxdx.Coordinator.Router.{
  WorkerEntry, Router, offers, update_worker, remove_worker, is_known, route, route_to,
}
use mxdx.Coordinator.Entries.{
  entry_of, entry_of-update_worker, entry_of-remove_worker, OneEntry, update_worker-OneEntry,
  remove_worker-OneEntry,
}
use mxdx.Coordinator.Routing.{route-offers, route_complete}
use mxdx.Coordinator.Index as Index
use mxdx.Coordinator.Index.{
  CapabilityIndex, narrow, workers_with_capability, workers_with_all, update, drop_worker,
}
use mxdx.Coordinator.Indexed.{
  Indexed, known_offers, new-Indexed, update-Indexed, drop_worker-Indexed, get-drop_worker,
}

-- Whether a worker that may be unknown offers all of the capabilities.
abbrev pub known_offers_all : List String → Option WorkerInfo → Bool
known_offers_all caps none = false
known_offers_all caps (some info) = all (offers info) caps

contains-keys : (m : Dict WorkerInfo) (id : String) → contains (keys m) id ≡ contains_key id m
unfolding contains contains_key
contains-keys [] id = refl
contains-keys ((k, v) ∷ m) id = ground (arith, contains-keys m id)

contains-narrow :
    (caps prev : List String) (ix : CapabilityIndex) (id : String)
    → Indexed ix
    → contains (narrow caps prev ix) id
      ≡ (contains prev id && all (known_offers (get id ix.workers)) caps)
unfolding narrow
contains-narrow [] prev ix id v = ground arith
contains-narrow (cap ∷ caps) prev ix id v = ground (
  arith,
  contains-narrow caps (retain (λ i. contains (workers_with_capability cap ix) i) prev) ix id v,
  contains-retain (λ i. contains (workers_with_capability cap ix) i) prev id,
  v.agree cap id,
)

all_known :
    (o : Option WorkerInfo) (cap : String) (caps : List String)
    → (known_offers o cap && all (known_offers o) caps) ≡ known_offers_all (cap ∷ caps) o
all_known none cap caps = refl
all_known (some info) cap caps = refl

-- A lookup in an index whose maps agree finds exactly the known workers that offer all of the
-- capabilities.
pub workers_with_all_lem :
    (caps : List String) (ix : CapabilityIndex) (id : String)
    → Indexed ix
    → contains (workers_with_all caps ix) id ≡ known_offers_all caps (get id ix.workers)
unfolding workers_with_all
workers_with_all_lem [] ix id v =
    rw (contains-keys ix.workers id, contains_key-get id ix.workers)
      (known_at_all (get id ix.workers))
  where
    known_at_all :
        (o : Option WorkerInfo)
        → (elim o as (λ _. Bool) [ none ↦ false | some _ ↦ true ]) ≡ known_offers_all [] o
    known_at_all none = refl
    known_at_all (some info) = refl
workers_with_all_lem (cap ∷ caps) ix id v =
    contains-narrow caps (workers_with_capability cap ix) ix id v
    ∙ (rw (v.agree cap id) (all_known (get id ix.workers) cap caps))

-- What the coordinator hears of its workers.
pub data Change : Type 0 where
  appeared : String → WorkerInfo → Change
  gone : String → Change

abbrev pub track : List Change → Router × CapabilityIndex → Router × CapabilityIndex
track [] (r, ix) = (r, ix)
track (appeared room_id info ∷ cs) (r, ix) = track cs (update_worker room_id info r, update info ix)
track (gone worker_id ∷ cs) (r, ix) = track cs (remove_worker worker_id r, drop_worker worker_id ix)

abbrev info_of : Option WorkerEntry → Option WorkerInfo
info_of none = none
info_of (some w) = some w.info

-- The router and the index know the same workers.
pub record Agreed (r : Router) (ix : CapabilityIndex) : Type 0 where
  pub one_entry : OneEntry r
  pub indexed : Indexed ix
  pub same_info : (id : String) → get id ix.workers ≡ info_of (entry_of id r)

get-update :
    (info : WorkerInfo) (ix : CapabilityIndex) (id : String)
    → get id (update info ix).workers
      ≡ (if str_eq info.worker_id id then some info else get id ix.workers)
unfolding update
get-update info ix id = ground (
  arith,
  get-insert info.worker_id id info (drop_worker info.worker_id ix).workers,
  get-drop_worker info.worker_id id ix,
)

appeared-Agreed :
    (room_id : String) (info : WorkerInfo) (r : Router) (ix : CapabilityIndex)
    → Agreed r ix
    → Agreed (update_worker room_id info r) (update info ix)
appeared-Agreed room_id info r ix v = record {
  one_entry = update_worker-OneEntry room_id info r v.one_entry;
  indexed = update-Indexed info ix v.indexed;
  same_info = λ id.
      ground
        (arith, get-update info ix id, entry_of-update_worker room_id info id r, v.same_info id);
}

gone-Agreed :
    (worker_id : String) (r : Router) (ix : CapabilityIndex)
    → Agreed r ix
    → Agreed (remove_worker worker_id r) (drop_worker worker_id ix)
gone-Agreed worker_id r ix v = record {
  one_entry = remove_worker-OneEntry worker_id r v.one_entry;
  indexed = drop_worker-Indexed worker_id ix v.indexed;
  same_info = λ id. ground (
    arith,
    get-drop_worker worker_id id ix,
    entry_of-remove_worker worker_id id r,
    v.same_info id,
  );
}

track-Agreed :
    (cs : List Change) (r : Router) (ix : CapabilityIndex)
    → Agreed r ix
    → Agreed (track cs (r, ix)).0 (track cs (r, ix)).1
track-Agreed [] r ix v = v
track-Agreed (appeared room_id info ∷ cs) r ix v =
    track-Agreed cs _ _ (appeared-Agreed room_id info r ix v)
track-Agreed (gone worker_id ∷ cs) r ix v = track-Agreed cs _ _ (gone-Agreed worker_id r ix v)

new-Agreed : Agreed Router.new Index.new
unfolding get
new-Agreed = record { one_entry = tt; indexed = new-Indexed; same_info = λ id. refl }

is_known-Mem : (w : WorkerEntry) (ws : Router) → Memᴰ w ws → is_known w.info.worker_id ws ≡ true
unfolding is_known
is_known-Mem w [] m = elim m [ ]
is_known-Mem w (v ∷ ws) (Memᴰ.head e) = ground (arith, str_eq_iff v.info.worker_id w.info.worker_id)
is_known-Mem w (v ∷ ws) (Memᴰ.tail m) = ground (arith, is_known-Mem w ws m)

entry_of-Mem :
    (w : WorkerEntry) (ws : Router)
    → OneEntry ws
    → Memᴰ w ws
    → entry_of w.info.worker_id ws ≡ some w
entry_of-Mem w [] u m = elim m [ ]
entry_of-Mem w (v ∷ ws) u (Memᴰ.head e) =
    rw e (ground (arith, str_eq_iff v.info.worker_id v.info.worker_id))
entry_of-Mem w (v ∷ ws) u (Memᴰ.tail m) = ground (
  arith,
  str_eq_iff v.info.worker_id w.info.worker_id,
  is_known-Mem w ws m,
  entry_of-Mem w ws u.1 m,
)

-- An entry of which all entries of the router have a property has it.
absent_offer :
    (caps : List String) (id : String) (ws : Router)
    → All (λ w. all (offers w.info) caps ≡ false) ws
    → known_offers_all caps (info_of (entry_of id ws)) ≡ false
absent_offer caps id [] h = refl
absent_offer caps id (w ∷ ws) h = ground (arith, absent_offer caps id ws)

-- After any reports of workers that appear, change and go: a task goes to a worker that the index
-- finds for its capabilities, and it is left without a worker only if the index finds none.
pub route_is_listed :
    (cs : List Change) (task : SessionTask)
    → let (r, ix) = track cs (Router.new, Index.new) in
      ((w : WorkerEntry)
        → route task r ≡ some w
        → contains (workers_with_all task.required_capabilities ix) w.info.worker_id ≡ true)
      × (route task r ≡ none
          → (id : String) → contains (workers_with_all task.required_capabilities ix) id ≡ false)
route_is_listed cs task =
    let r = (track cs (Router.new, Index.new)).0 in
    let ix = (track cs (Router.new, Index.new)).1 in
    let v = track-Agreed cs Router.new Index.new new-Agreed in
    (
      (λ w h.
          let (m, o) = route-offers task r w h in
          workers_with_all_lem task.required_capabilities ix w.info.worker_id v.indexed
          ∙ (rw (v.same_info w.info.worker_id, entry_of-Mem w r v.one_entry m) o)),
      (λ h id.
          workers_with_all_lem task.required_capabilities ix id v.indexed
          ∙ (rw (v.same_info id)
              (absent_offer task.required_capabilities id r (route_complete task r h)))),
    )

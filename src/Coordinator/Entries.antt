-- ===== src/Coordinator/Entries.antt =====
-- router.rs: every worker has one entry, its latest.
use mxdx.Prelude.{
  String, str_eq, str_eq_iff, ◌≡◌, refl, true, false, ◌||◌, [], ◌∷◌, Option, some, none,
  if◌then◌else◌, arith, push_back, inl, inr, Bool-cases,
}
use mxdx.Events.{WorkerInfo}
use mxdx.Coordinator.Router.{WorkerEntry, Router, overwrite, is_known, update_worker, remove_worker}

-- The first entry of a worker.
abbrev pub entry_of : String → Router → Option WorkerEntry
entry_of worker_id [] = none
entry_of worker_id (w ∷ ws) =
    if str_eq w.info.worker_id worker_id then some w else entry_of worker_id ws

entry_of-overwrite :
    (e : WorkerEntry) (j : String) (ws : Router)
    → is_known e.info.worker_id ws ≡ true
    → entry_of j (overwrite e ws) ≡ (if str_eq e.info.worker_id j then some e else entry_of j ws)
unfolding overwrite is_known
entry_of-overwrite e j [] h = cc
entry_of-overwrite e j (w ∷ ws) h = ground (
  arith,
  str_eq_iff w.info.worker_id e.info.worker_id,
  str_eq_iff e.info.worker_id j,
  str_eq_iff w.info.worker_id j,
  entry_of-overwrite e j ws,
)

entry_of-push :
    (e : WorkerEntry) (j : String) (ws : Router)
    → is_known e.info.worker_id ws ≡ false
    → entry_of j (push_back ws e) ≡ (if str_eq e.info.worker_id j then some e else entry_of j ws)
unfolding is_known
entry_of-push e j [] h = refl
entry_of-push e j (w ∷ ws) h = ground (
  arith,
  str_eq_iff w.info.worker_id e.info.worker_id,
  str_eq_iff e.info.worker_id j,
  str_eq_iff w.info.worker_id j,
  entry_of-push e j ws,
)

-- The entry of the updated worker is the new one, and every other worker keeps its entry.
pub entry_of-update_worker :
    (room_id : String) (info : WorkerInfo) (j : String) (ws : Router)
    → entry_of j (update_worker room_id info ws) ≡ (
        if str_eq info.worker_id j
        then some (record { room_id = room_id; info = info })
        else entry_of j ws)
unfolding update_worker
entry_of-update_worker room_id info j ws = elim (Bool-cases (is_known info.worker_id ws)) [
  | inl h ↦ rw h (entry_of-overwrite _ j ws h)
  | inr h ↦ rw h (entry_of-push _ j ws h)
]

-- A removed worker has no entry, and every other worker keeps its entry.
pub entry_of-remove_worker :
    (k j : String) (ws : Router)
    → entry_of j (remove_worker k ws) ≡ (if str_eq k j then none else entry_of j ws)
unfolding remove_worker
entry_of-remove_worker k j [] = ground arith
entry_of-remove_worker k j (w ∷ ws) = ground (
  arith,
  str_eq_iff w.info.worker_id k,
  str_eq_iff k j,
  str_eq_iff w.info.worker_id j,
  entry_of-remove_worker k j ws,
)

-- No worker has two entries.
abbrev pub OneEntry : Router → Type 0
OneEntry [] = Unit
OneEntry (w ∷ ws) = (is_known w.info.worker_id ws ≡ false) × OneEntry ws

is_known-overwrite :
    (e : WorkerEntry) (j : String) (ws : Router) → is_known j (overwrite e ws) ≡ is_known j ws
unfolding overwrite is_known
is_known-overwrite e j [] = refl
is_known-overwrite e j (w ∷ ws) =
    ground (arith, str_eq_iff w.info.worker_id e.info.worker_id, is_known-overwrite e j ws)

overwrite-OneEntry : (e : WorkerEntry) (ws : Router) → OneEntry ws → OneEntry (overwrite e ws)
unfolding overwrite
overwrite-OneEntry e [] u = tt
overwrite-OneEntry e (w ∷ ws) u = ground (
  arith,
  str_eq_iff w.info.worker_id e.info.worker_id,
  is_known-overwrite e w.info.worker_id ws,
  overwrite-OneEntry e ws,
)

is_known-push :
    (e : WorkerEntry) (j : String) (ws : Router)
    → is_known j (push_back ws e) ≡ (is_known j ws || str_eq e.info.worker_id j)
unfolding is_known
is_known-push e j [] = ground arith
is_known-push e j (w ∷ ws) = ground (arith, is_known-push e j ws)

push-OneEntry :
    (e : WorkerEntry) (ws : Router)
    → OneEntry ws
    → is_known e.info.worker_id ws ≡ false
    → OneEntry (push_back ws e)
unfolding is_known
push-OneEntry e [] u h = (refl, tt)
push-OneEntry e (w ∷ ws) u h = ground (
  arith,
  is_known-push e w.info.worker_id ws,
  push-OneEntry e ws,
  str_eq_iff w.info.worker_id e.info.worker_id,
  str_eq_iff e.info.worker_id w.info.worker_id,
)

is_known-remove_worker :
    (k j : String) (ws : Router) → is_known j ws ≡ false → is_known j (remove_worker k ws) ≡ false
unfolding remove_worker is_known
is_known-remove_worker k j [] h = refl
is_known-remove_worker k j (w ∷ ws) h = ground (arith, is_known-remove_worker k j ws)

pub update_worker-OneEntry :
    (room_id : String) (info : WorkerInfo) (ws : Router)
    → OneEntry ws
    → OneEntry (update_worker room_id info ws)
unfolding update_worker
update_worker-OneEntry room_id info ws u = elim (Bool-cases (is_known info.worker_id ws)) [
  | inl h ↦ rw h (overwrite-OneEntry _ ws u)
  | inr h ↦ rw h (push-OneEntry _ ws u h)
]

pub remove_worker-OneEntry :
    (k : String) (ws : Router) → OneEntry ws → OneEntry (remove_worker k ws)
unfolding remove_worker
remove_worker-OneEntry k [] u = tt
remove_worker-OneEntry k (w ∷ ws) u =
    ground (arith, is_known-remove_worker k w.info.worker_id ws, remove_worker-OneEntry k ws)

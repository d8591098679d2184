-- ===== src/Coordinator/Router.antt =====
-- router.rs: the registered workers, and the choice of one for a task.
use mxdx.Prelude.Texts.{contains}
use mxdx.Prelude.{
  String, str_eq, Bool, not, ◌&&◌, ◌||◌, List, [], ◌∷◌, Option, some, none, if◌then◌else◌, any, all,
  retain, push_back,
}
use mxdx.Events.{SessionTask, WorkerInfo}

pub record WorkerEntry : Type 0 where
  pub room_id : String
  pub info : WorkerInfo

-- `Router` is the list of its workers.
abbrev pub Router : Type 0
Router = List WorkerEntry

-- `Router::new`
abbrev pub new : Router
new = []

-- The first entry of the worker is overwritten.
unfoldable pub overwrite : WorkerEntry → Router → Router
overwrite new_entry [] = []
overwrite new_entry (entry ∷ rest) =
    let more = overwrite new_entry rest in
    if str_eq entry.info.worker_id new_entry.info.worker_id then new_entry ∷ rest else entry ∷ more

unfoldable pub is_known : String → Router → Bool
is_known worker_id workers = any (λ w. str_eq w.info.worker_id worker_id) workers

unfoldable pub update_worker : String → WorkerInfo → Router → Router
update_worker room_id info workers =
    let entry : WorkerEntry = record { room_id = room_id; info = info } in
    if is_known info.worker_id workers then overwrite entry workers else push_back workers entry

unfoldable pub remove_worker : String → Router → Router
remove_worker worker_id workers = retain (λ w. not (str_eq w.info.worker_id worker_id)) workers

-- A capability that the worker has, or a healthy tool of that name.
unfoldable pub offers : WorkerInfo → String → Bool
offers info req =
    contains info.capabilities req || any (λ t. str_eq t.name req && t.healthy) info.tools

unfoldable pub offers_all : List String → WorkerInfo → Bool
offers_all reqs info = all (offers info) reqs

-- `first()`
abbrev pub first {ℓ} : {A : Type ℓ} → List A → Option A
first [] = none
first (x ∷ xs) = some x

unfoldable pub route_to : List String → Router → Option WorkerEntry
route_to [] workers = first workers
route_to (req ∷ reqs) workers = first (retain (λ w. offers_all (req ∷ reqs) w.info) workers)

abbrev pub route : SessionTask → Router → Option WorkerEntry
route task workers = route_to task.required_capabilities workers

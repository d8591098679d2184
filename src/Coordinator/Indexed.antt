-- ===== src/Coordinator/Indexed.antt =====
-- index.rs: the two maps agree, so that a lookup finds exactly the workers that offer a capability.
use mxdx.Prelude.Texts.{contains, contains-push_back, contains-retain}
use mxdx.Prelude.{
  String, str_eq, str_eq_iff, ◌≡◌, refl, Bool, false, not, ◌&&◌, ◌||◌, List, [], ◌∷◌, Option, some,
  none, if◌then◌else◌, arith, any, retain, push_back,
}
use mxdx.Prelude.Dict.{Dict, get, get-insert, get-remove}
use mxdx.Prelude.Maps.{
  Unique, map_values, get-map_values, get-retain_values, map_values-Unique, retain_values-Unique,
  insert-Unique, remove-Unique,
}
use mxdx.Events.{WorkerInfo, WorkerTool}
use mxdx.Coordinator.Router.{offers}
use mxdx.Coordinator.Index.{
  CapabilityIndex, new, or_default, push_id, add_capabilities, add_tools, is_nonempty, drop_worker,
  update, workers_with_capability,
}

-- The workers of a name, in the map of names.
abbrev listed : String → Dict (List String) → String → Bool
listed name m id = contains (or_default (get name m)) id

listed-push_id :
    (w name : String) (m : Dict (List String)) (n id : String)
    → listed n (push_id w name m) id ≡ ((str_eq name n && str_eq w id) || listed n m id)
unfolding push_id
listed-push_id w name m n id =
    rw (get-insert name n (push_back (or_default (get name m)) w) m)
      (ground (arith, str_eq_iff name n, contains-push_back (or_default (get name m)) w id))

listed-add_capabilities :
    (w : String) (caps : List String) (m : Dict (List String)) (n id : String)
    → listed n (add_capabilities w caps m) id ≡ ((contains caps n && str_eq w id) || listed n m id)
unfolding add_capabilities contains
listed-add_capabilities w [] m n id = ground arith
listed-add_capabilities w (cap ∷ caps) m n id =
    ground
      (arith, listed-add_capabilities w caps (push_id w cap m) n id, listed-push_id w cap m n id)

listed-add_tools :
    (w : String) (tools : List WorkerTool) (m : Dict (List String)) (n id : String)
    → listed n (add_tools w tools m) id
      ≡ ((any (λ t. str_eq t.name n && t.healthy) tools && str_eq w id) || listed n m id)
unfolding add_tools
listed-add_tools w [] m n id = ground arith
listed-add_tools w (tool ∷ tools) m n id = ground (
  arith,
  listed-add_tools w tools (push_id w tool.name m) n id,
  listed-add_tools w tools m n id,
  listed-push_id w tool.name m n id,
)

-- A list of a name that is left empty is dropped.
kept :
    (p : String → Bool) (o : Option (List String)) (x : String)
    → contains
        (or_default
          (elim (elim o as (λ _. Option (List String)) [ none ↦ none | some v ↦ some (retain p v) ])
            as (λ _. Option (List String)) [
              | none ↦ none
              | some v ↦ if is_nonempty v then some v else none
            ]))
        x
      ≡ (p x && contains (or_default o) x)
unfolding contains
kept p none x = ground arith
kept p (some ids) x = kept_list (retain p ids) (contains-retain p ids x)
  where
    kept_list :
        (ys : List String)
        → contains ys x ≡ (p x && contains ids x)
        → contains (or_default (if is_nonempty ys then some ys else none)) x
          ≡ (p x && contains ids x)
    kept_list [] h = h
    kept_list (y ∷ ys) h = h

listed-drop_worker :
    (w : String) (ix : CapabilityIndex) (n id : String)
    → Unique ix.by_capability
    → listed n (drop_worker w ix).by_capability id
      ≡ (not (str_eq id w) && listed n ix.by_capability id)
unfolding drop_worker
listed-drop_worker w ix n id u =
    let p : String → Bool = λ i. not (str_eq i w) in
    rw
      (
        get-retain_values is_nonempty n (map_values (retain p) ix.by_capability)
            (map_values-Unique (retain p) ix.by_capability u),
        get-map_values (retain p) n ix.by_capability,
      )
      (kept p (get n ix.by_capability) id)

add_capabilities-Unique :
    (w : String) (caps : List String) (m : Dict (List String))
    → Unique m
    → Unique (add_capabilities w caps m)
unfolding add_capabilities push_id
add_capabilities-Unique w [] m u = u
add_capabilities-Unique w (cap ∷ caps) m u =
    add_capabilities-Unique w caps (push_id w cap m) (insert-Unique cap _ m u)

add_tools-Unique :
    (w : String) (tools : List WorkerTool) (m : Dict (List String))
    → Unique m
    → Unique (add_tools w tools m)
unfolding add_tools push_id
add_tools-Unique w [] m u = u
add_tools-Unique w (tool ∷ tools) m u = ground (
  arith,
  add_tools-Unique w tools (push_id w tool.name m),
  add_tools-Unique w tools m,
  insert-Unique tool.name (push_back (or_default (get tool.name m)) w) m,
)

-- What a worker that may be unknown offers.
abbrev pub known_offers : Option WorkerInfo → String → Bool
known_offers none name = false
known_offers (some info) name = offers info name

-- A worker stands in the list of a name exactly if it is known and offers it.
pub record Indexed (ix : CapabilityIndex) : Type 0 where
  pub one_list : Unique ix.by_capability
  pub one_info : Unique ix.workers
  pub agree :
      (name id : String)
      → contains (workers_with_capability name ix) id ≡ known_offers (get id ix.workers) name

pub new-Indexed : Indexed new
unfolding workers_with_capability contains get
new-Indexed = record { one_list = tt; one_info = tt; agree = λ name id. refl }

drop_worker-Unique :
    (w : String) (ix : CapabilityIndex)
    → Indexed ix
    → Unique (drop_worker w ix).by_capability × Unique (drop_worker w ix).workers
unfolding drop_worker
drop_worker-Unique w ix v = (
  retain_values-Unique is_nonempty _ (map_values-Unique _ ix.by_capability v.one_list),
  remove-Unique w ix.workers v.one_info,
)

pub get-drop_worker :
    (w id : String) (ix : CapabilityIndex)
    → get id (drop_worker w ix).workers ≡ (if str_eq w id then none else get id ix.workers)
unfolding drop_worker
get-drop_worker w id ix = get-remove w id ix.workers

-- Removing a worker keeps the maps in agreement.
pub drop_worker-Indexed :
    (w : String) (ix : CapabilityIndex) → Indexed ix → Indexed (drop_worker w ix)
unfolding workers_with_capability
drop_worker-Indexed w ix v = record {
  one_list = (drop_worker-Unique w ix v).0;
  one_info = (drop_worker-Unique w ix v).1;
  agree = λ name id. ground (
    arith,
    str_eq_iff id w,
    str_eq_iff w id,
    listed-drop_worker w ix name id v.one_list,
    get-drop_worker w id ix,
    v.agree name id,
  );
}

-- Registering a worker, again or for the first time, keeps the maps in agreement.
pub update-Indexed :
    (info : WorkerInfo) (ix : CapabilityIndex) → Indexed ix → Indexed (update info ix)
unfolding update workers_with_capability offers
update-Indexed info ix v = record {
  one_list =
      add_tools-Unique _ info.tools _
        (add_capabilities-Unique _ info.capabilities _ (drop_worker-Unique info.worker_id ix v).0);
  one_info = insert-Unique _ info _ (drop_worker-Unique info.worker_id ix v).1;
  agree = λ name id. ground (
    arith,
    str_eq_iff id info.worker_id,
    str_eq_iff info.worker_id id,
    listed-add_tools info.worker_id info.tools
        (add_capabilities info.worker_id info.capabilities
          (drop_worker info.worker_id ix).by_capability)
        name id,
    listed-add_capabilities info.worker_id info.capabilities
        (drop_worker info.worker_id ix).by_capability name id,
    listed-drop_worker info.worker_id ix name id v.one_list,
    get-insert info.worker_id id info (drop_worker info.worker_id ix).workers,
    get-drop_worker info.worker_id id ix,
    v.agree name id,
  );
}

-- ===== src/Coordinator/Index.antt =====
-- index.rs: the workers by capability.
use mxdx.Prelude.Texts.{contains}
use mxdx.Prelude.{
  String, str_eq, Bool, true, false, not, List, [], ◌∷◌, Option, some, none, if◌then◌else◌, retain,
  push_back,
}
use mxdx.Prelude.Dict.{Dict, get, insert, remove}
use mxdx.Prelude.Maps.{keys, map_values, retain_values}
use mxdx.Events.{WorkerInfo, WorkerTool}

pub record CapabilityIndex : Type 0 where
  pub by_capability : Dict (List String)
  pub workers : Dict WorkerInfo

-- `CapabilityIndex::new`
abbrev pub new : CapabilityIndex
new = record { by_capability = []; workers = [] }

-- `unwrap_or_default`
abbrev pub or_default : Option (List String) → List String
or_default none = []
or_default (some ids) = ids

-- `entry(name).or_default().push(id)`
unfoldable pub push_id : String → String → Dict (List String) → Dict (List String)
push_id worker_id name m = insert name (push_back (or_default (get name m)) worker_id) m

-- The loop over `info.capabilities`.
unfoldable pub add_capabilities : String → List String → Dict (List String) → Dict (List String)
add_capabilities worker_id [] m = m
add_capabilities worker_id (cap ∷ caps) m =
    add_capabilities worker_id caps (push_id worker_id cap m)

-- The loop over `info.tools`.
unfoldable pub add_tools : String → List WorkerTool → Dict (List String) → Dict (List String)
add_tools worker_id [] m = m
add_tools worker_id (tool ∷ tools) m =
    add_tools worker_id tools (if tool.healthy then push_id worker_id tool.name m else m)

abbrev pub is_nonempty : List String → Bool
is_nonempty [] = false
is_nonempty (x ∷ xs) = true

-- `CapabilityIndex::remove`
unfoldable pub drop_worker : String → CapabilityIndex → CapabilityIndex
drop_worker worker_id ix = record {
  workers = remove worker_id ix.workers;
  by_capability =
      retain_values is_nonempty
        (map_values (retain (λ id. not (str_eq id worker_id))) ix.by_capability);
}

-- `CapabilityIndex::update`
unfoldable pub update : WorkerInfo → CapabilityIndex → CapabilityIndex
update info ix =
    let dropped = drop_worker info.worker_id ix in
    record {
      by_capability =
          add_tools info.worker_id info.tools
            (add_capabilities info.worker_id info.capabilities dropped.by_capability);
      workers = insert info.worker_id info dropped.workers;
    }

unfoldable pub workers_with_capability : String → CapabilityIndex → List String
workers_with_capability capability ix = or_default (get capability ix.by_capability)

-- The rest of the loop, with what it has found so far.
unfoldable pub narrow : List String → List String → CapabilityIndex → List String
narrow [] prev ix = prev
narrow (cap ∷ caps) prev ix =
    narrow caps (retain (λ id. contains (workers_with_capability cap ix) id) prev) ix

unfoldable pub workers_with_all : List String → CapabilityIndex → List String
workers_with_all [] ix = keys ix.workers
workers_with_all (cap ∷ caps) ix = narrow caps (workers_with_capability cap ix) ix

abbrev pub get_worker : String → CapabilityIndex → Option WorkerInfo
get_worker worker_id ix = get worker_id ix.workers

-- ===== src/Events.antt =====
-- crates/mxdx-types/src/events: the data that the coordinator and the worker exchange.
use mxdx.Prelude.{ℕ, String, Bool, List, Option}
use mxdx.Prelude.Dict.{Dict}
use mxdx.Prelude.Results.{ℤ}

-- A `u8`, `u32` or `u64` is a number below 2 ^ 8, 2 ^ 32 or 2 ^ 64.
pub data FailurePolicy : Type 0 where
  escalate : FailurePolicy
  respawn : ℕ → FailurePolicy
  respawn_with_context abandon : FailurePolicy

pub data RoutingMode : Type 0 where
  direct brokered auto : RoutingMode

pub record SessionTask : Type 0 where
  pub uuid : String
  pub sender_id : String
  pub bin : String
  pub args : List String
  pub env : Option (Dict String)
  pub cwd : Option String
  pub interactive : Bool
  pub no_room_output : Bool
  pub timeout_seconds : Option ℕ
  pub heartbeat_interval_seconds : ℕ
  pub plan : Option String
  pub required_capabilities : List String
  pub routing_mode : Option RoutingMode
  pub on_timeout : Option FailurePolicy
  pub on_heartbeat_miss : Option FailurePolicy

-- The input schema of a tool, which nothing here reads, is left out.
pub record WorkerTool : Type 0 where
  pub name : String
  pub version : Option String
  pub description : String
  pub healthy : Bool

pub record WorkerInfo : Type 0 where
  pub worker_id : String
  pub host : String
  pub os : String
  pub arch : String
  pub cpu_count : ℕ
  pub memory_total_mb : ℕ
  pub disk_available_mb : ℕ
  pub tools : List WorkerTool
  pub capabilities : List String
  pub updated_at : ℕ

pub data SessionStatus : Type 0 where
  success failed timeout cancelled : SessionStatus

pub record ActiveSessionState : Type 0 where
  pub bin : String
  pub args : List String
  pub pid : Option ℕ
  pub start_time : ℕ
  pub client_id : String
  pub interactive : Bool
  pub worker_id : String

pub record CompletedSessionState : Type 0 where
  pub exit_code : Option ℤ
  pub duration_seconds : ℕ
  pub completion_time : ℕ

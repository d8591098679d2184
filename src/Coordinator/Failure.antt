-- ===== src/Coordinator/Failure.antt =====
-- failure.rs: what is done when a session fails.
use mxdx.Prelude.{
  ℕ, zero, suc, ◌+◌, ◌-◌, ◌≤◌, ◌<◌, ◌^◌, ◌%◌, String, str_append, ◌≡◌, Option, some, none,
  if◌then◌else◌, leb, arith,
}
use mxdx.Prelude.Decimal.{decimal}
use mxdx.Events.{FailurePolicy, SessionTask}

-- `respawn` carries the task, the attempt and the bound.
pub data FailureAction : Type 0 where
  escalate : String → String → FailureAction
  respawn : SessionTask → ℕ → ℕ → FailureAction
  respawn_with_context : SessionTask → Option String → FailureAction
  abandon : FailureAction

unfoldable pub retries_exceeded : ℕ → String → String
retries_exceeded max_retries reason =
    str_append (str_append (str_append "max retries (" (decimal max_retries)) ") exceeded: ") reason

-- An attempt is a `u8`.
unfoldable pub apply_policy : FailurePolicy → SessionTask → String → ℕ → FailureAction
apply_policy FailurePolicy.escalate task failure_reason attempt =
    FailureAction.escalate task.uuid failure_reason
apply_policy (FailurePolicy.respawn max_retries) task failure_reason attempt =
    if leb max_retries attempt
    then FailureAction.escalate task.uuid (retries_exceeded max_retries failure_reason)
    else FailureAction.respawn task ((attempt + 1) % 2 ^ 8) max_retries
apply_policy FailurePolicy.respawn_with_context task failure_reason attempt =
    FailureAction.respawn_with_context task task.plan
apply_policy FailurePolicy.abandon task failure_reason attempt = FailureAction.abandon

-- A task that fails again after every respawn, with the attempt that the respawn counted: the respawns,
-- and the action after them, if it is reached within the fuel.
abbrev pub failing_task : ℕ → FailurePolicy → SessionTask → String → ℕ → ℕ × Option FailureAction
failing_task zero policy task reason attempt = (0, none)
failing_task (suc fuel) policy task reason attempt =
    elim (apply_policy policy task reason attempt) [
      | FailureAction.respawn t next max ↦
          let (n, end) = failing_task fuel policy t reason next in (n + 1, end)
      | action ↦ (0, some action)
    ]

-- A task with at most 255 retries that fails every time is respawned exactly as often as retries
-- are left, and then escalated with its identifier and the bound.
pub respawns_then_escalates :
    (fuel max_retries attempt : ℕ) (task : SessionTask) (reason : String)
    → max_retries < 2 ^ 8
    → attempt ≤ max_retries
    → max_retries - attempt < fuel
    → failing_task fuel (FailurePolicy.respawn max_retries) task reason attempt ≡ (
      max_retries - attempt,
      some (FailureAction.escalate task.uuid (retries_exceeded max_retries reason)),
    )
unfolding apply_policy
respawns_then_escalates zero max_retries attempt task reason b a f = absurd (omega (arith, f))
respawns_then_escalates (suc fuel) max_retries attempt task reason b a f =
    ground (arith, respawns_then_escalates fuel max_retries (attempt + 1) task reason)

-- ===== src/Storage/Interrupted.antt =====
-- storage/operations.rs: the operations that a restart of the daemon interrupted.
use text.Mathlib.Text.{◌==◌}
use machineemu.Prelude.{
  Bool, false, ◌||◌, String, Option, none, some, List, [], ◌∷◌, map, if◌then◌else◌,
}
use machineemu.Domain.{InstanceState, as_str}
use machineemu.Storage.Table.{select}
use machineemu.Storage.Schema.{Run, Operation}
use machineemu.Storage.Action.{Action, give, reads, ◌>>=◌}
use machineemu.Storage.Instances.{instance_row, active_run}
use machineemu.Storage.Operations.{operation_key, operation_row, complete_operation, fail_operation}

abbrev pub is_running : Option Run → Bool
is_running none = false
is_running (some run) = run.status == "running"

-- `matches!(state, "running" | "paused")`.
abbrev pub has_started : InstanceState → Bool
has_started s = (as_str s == "running") || (as_str s == "paused")

-- What the database does not say: the result of a snapshot operation whose snapshot is registered,
-- by its idempotency key; the JSON object of a state and of a reason; the order of the rows.
pub record Outcomes : Type 0 where
  pub saved : String → Option String
  pub state_json : String → String
  pub reason_json : String → String
  pub sorted : List Operation → List Operation

-- Whether an interrupted operation took effect, with its result.
unfoldable pub outcome_of : Outcomes → Operation → Action (Option String)
outcome_of o operation =
    if operation.kind == "start"
    then (instance_row operation.owner >>= λ current.
        (active_run operation.owner >>= λ active. give (
          if has_started current.state
          then (if is_running active then some (o.state_json (as_str current.state)) else none)
          else none)))
    else if operation.kind == "snapshot"
    then give (o.saved operation.idempotency_key)
    else give none

unfoldable pub resolve : Outcomes → String → Option String → Action Operation
resolve o id (some result) = complete_operation id result
resolve o id none = fail_operation id (o.reason_json "interrupted_by_recovery")

unfoldable pub reconcile_listed : Outcomes → List String → Action (List Operation)
unfolding outcome_of resolve
reconcile_listed o [] = give []
reconcile_listed o (id ∷ ids) = do
  operation ← operation_row id
  completed ← outcome_of o operation
  changed ← resolve o operation.operation_id completed
  rest ← reconcile_listed o ids
  give (changed ∷ rest)

-- `Workspace::reconcile_operations`.
unfoldable pub reconcile_operations : Outcomes → Action (List Operation)
unfolding reconcile_listed
reconcile_operations o = do
  ids ←
      reads
        (λ db. map operation_key (o.sorted (select (λ r. r.status == "accepted") db.operations)))
  reconcile_listed o ids

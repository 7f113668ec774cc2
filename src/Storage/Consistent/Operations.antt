-- ===== src/Storage/Consistent/Operations.antt =====
-- storage/operations.rs: the calls on operations under the invariant of Consistent.
use text.Mathlib.Text.{◌==◌}
use machineemu.Prelude.{
  ◌||◌, not, String, Option, none, some, List, [], ◌∷◌, map, if◌then◌else◌, Bool-cases,
  Option-cases, inl, inr,
}
use machineemu.Domain.{as_str, not_found, process}
use machineemu.Storage.Table.{find, select}
use machineemu.Storage.Schema.{Operation, Db}
use machineemu.Storage.Keeps.{Keeps-give, Keeps-fail_if, Keeps-bind_at, Keeps-bind, Keeps-if}
use machineemu.Storage.Instances.{instance_row, is_some}
use machineemu.Storage.Operations.{
  operation_key, new_operation, repeated, insert_operation, begin_with, begin_operation,
  complete_operation, is_accepted, fail_operation,
}
use machineemu.Storage.Interrupted.{
  has_started, is_running, Outcomes, outcome_of, resolve, reconcile_listed, reconcile_operations,
}
use machineemu.Storage.Consistent.{Has, IsConsistent, IsConsistent-insert_operation}
use machineemu.Storage.Consistent.Calls.{
  K, K-instance_row, K-operation_row, K-set_result, K-reads, K-active_run, instance_found,
}

repeated_keeps :
    (kind key hash : String) (existing : Operation) → K (repeated kind key hash existing)
repeated_keeps kind key hash existing = record {
  at = λ db h.
      elim (Bool-cases (not (existing.kind == kind) || not (existing.input_sha256 == hash))) [
        | inl e ↦ rw e h
        | inr e ↦ rw e h
      ];
}

begin_with_keeps :
    (new : Operation) (existing : Option Operation) (db : Db)
    → Has db.instances new.owner
    → IsConsistent db
    → IsConsistent (begin_with new existing db).1
unfolding begin_with insert_operation
begin_with_keeps new (some existing) db owned h =
    (repeated_keeps new.kind new.idempotency_key new.input_sha256 existing).at db h
begin_with_keeps new none db owned h =
    elim (Option-cases (find operation_key new.operation_id db.operations)) [
      | inl e ↦ rw e (IsConsistent-insert_operation new db e owned h)
      | inr (a, e) ↦ rw e h
    ]

pub K-begin_operation :
    (digest : String → String) (id owner kind key input : String)
    → K (begin_operation digest id owner kind key input)
unfolding begin_operation
K-begin_operation digest id owner kind key input = record {
  at = λ db h.
      Keeps-bind_at IsConsistent (instance_row owner) _ db ((K-instance_row owner).at db h)
        λ r found.
          begin_with_keeps (new_operation id owner kind key (digest input)) _ _
            (instance_found owner db r found) ((K-instance_row owner).at db h);
}

pub K-complete_operation : (id result : String) → K (complete_operation id result)
unfolding complete_operation
K-complete_operation id result =
    Keeps-bind IsConsistent _ _ (K-reads (λ db. find operation_key id db.operations)) λ existing.
      Keeps-bind IsConsistent _ _ (K-set_result id "completed" result) λ _.
        Keeps-bind IsConsistent _ _
          (Keeps-fail_if IsConsistent (not (is_some existing)) (not_found "operation" id))
          λ _. K-operation_row id

pub K-fail_operation : (id reason : String) → K (fail_operation id reason)
unfolding fail_operation
K-fail_operation id reason =
    Keeps-bind IsConsistent _ _ (K-reads (λ db. find operation_key id db.operations)) λ existing.
      Keeps-bind IsConsistent _ _
        (Keeps-if IsConsistent (is_accepted existing) _ _ (K-set_result id "failed" reason)
          (Keeps-give IsConsistent tt))
        (λ _.
          Keeps-bind IsConsistent _ _
            (Keeps-fail_if IsConsistent (not (is_accepted existing))
              (process "operation is not accepted"))
            λ _. K-operation_row id)

K-outcome_of : (o : Outcomes) (operation : Operation) → K (outcome_of o operation)
unfolding outcome_of
K-outcome_of o operation =
    Keeps-if IsConsistent (operation.kind == "start") _ _
      (Keeps-bind IsConsistent _ _ (K-instance_row operation.owner) λ current.
        Keeps-bind IsConsistent _ _ (K-active_run operation.owner) λ active.
          Keeps-give IsConsistent (
            if has_started current.state
            then (if is_running active then some (o.state_json (as_str current.state)) else none)
            else none))
      (Keeps-if IsConsistent (operation.kind == "snapshot") _ _
        (Keeps-give IsConsistent (o.saved operation.idempotency_key))
        (Keeps-give IsConsistent none))

K-resolve : (o : Outcomes) (id : String) (completed : Option String) → K (resolve o id completed)
unfolding resolve
K-resolve o id (some result) = K-complete_operation id result
K-resolve o id none = K-fail_operation id (o.reason_json "interrupted_by_recovery")

K-reconcile_listed : (o : Outcomes) (ids : List String) → K (reconcile_listed o ids)
unfolding reconcile_listed
K-reconcile_listed o [] = Keeps-give IsConsistent []
K-reconcile_listed o (id ∷ ids) = Keeps-bind IsConsistent _ _ (K-operation_row id) λ operation.
    Keeps-bind IsConsistent _ _ (K-outcome_of o operation) λ completed.
      Keeps-bind IsConsistent _ _ (K-resolve o operation.operation_id completed) λ changed.
        Keeps-bind IsConsistent _ _ (K-reconcile_listed o ids)
          λ rest. Keeps-give IsConsistent (changed ∷ rest)

pub K-reconcile_operations : (o : Outcomes) → K (reconcile_operations o)
unfolding reconcile_operations
K-reconcile_operations o =
    Keeps-bind IsConsistent _ _
      (K-reads
        (λ db. map operation_key (o.sorted (select (λ r. r.status == "accepted") db.operations))))
      λ ids. K-reconcile_listed o ids

-- ===== src/Storage/Consistent/Calls.antt =====
-- storage/instances.rs, storage/runs.rs and storage/operations.rs: each call under the invariant of Consistent.
use machineemu.Prelude.{
  ℕ, ◌≡◌, Bool, String, Option, none, some, List, [], ◌∷◌, not, ◌||◌, Option-cases, inl, inr,
}
use machineemu.Prelude.Result.{Result, ok}
use machineemu.Domain.{InstanceState, from_str, from_qmp, Error, process}
use machineemu.Storage.Table.{find, update}
use machineemu.Storage.Schema.{Instance, Run, Db}
use machineemu.Storage.Action.{Action, reads, lift, found_or, writes}
use machineemu.Storage.Keeps.{Keeps, Keeps-give, Keeps-fail_if, Keeps-bind_at, Keeps-bind, Keeps-if}
use machineemu.Storage.Instances.{
  instance_key, run_key, instance_row, run_row, set_lifecycle, transition_instance, new_run,
  insert_run, record_run, set_status, finish_run, active_run, mark_error, is_same_run, observe,
  reconcile_run, observe_run_status, reconcile_all, mark_errors, reconcile_active_runs,
}
use machineemu.Storage.Operations.{operation_key, operation_row, set_result}
use machineemu.Storage.Consistent.{
  Has, IsConsistent, IsConsistent-set_lifecycle, IsConsistent-observe, IsConsistent-set_status,
  IsConsistent-insert_run, IsConsistent-set_result,
}

abbrev pub K : {A : Type 0} → Action A → Type 0
K m = Keeps IsConsistent m

K-found_or : {A : Type 0} (a : Option A) (e : Error) → K (found_or a e)
K-found_or none e = record { at = λ db h. h }
K-found_or (some a) e = record { at = λ db h. h }

pub K-instance_row : (id : String) → K (instance_row id)
unfolding instance_row
K-instance_row id = record {
  at = λ db h. (K-found_or (find instance_key id db.instances) _).at db h;
}

pub K-run_row : (id : String) → K (run_row id)
unfolding run_row
K-run_row id = record { at = λ db h. (K-found_or (find run_key id db.runs) _).at db h }

pub K-operation_row : (id : String) → K (operation_row id)
unfolding operation_row
K-operation_row id = record {
  at = λ db h. (K-found_or (find operation_key id db.operations) _).at db h;
}

pub K-set_lifecycle : (id : String) (next : InstanceState) → K (writes (set_lifecycle id next))
K-set_lifecycle id next = record { at = IsConsistent-set_lifecycle id next }

K-set_status : (id status : String) → K (writes (set_status id status))
K-set_status id status = record { at = IsConsistent-set_status id status }

pub K-set_result : (id status result : String) → K (writes (set_result id status result))
K-set_result id status result = record { at = IsConsistent-set_result id status result }

K-observe :
    (id : String) (target : InstanceState)
    → K (
        writes λ db. record db { instances = update instance_key id (observe target) db.instances })
K-observe id target = record { at = IsConsistent-observe id target }

pub K-lift : {A : Type 0} (r : Result Error A) → K (lift r)
K-lift r = record { at = λ db h. h }

pub K-reads : {A : Type 0} (f : Db → A) → K (reads f)
K-reads f = record { at = λ db h. h }

pub K-transition_instance : (id next : String) → K (transition_instance id next)
unfolding transition_instance
K-transition_instance id next_text = Keeps-bind IsConsistent _ _ (K-instance_row id) λ current.
    Keeps-bind IsConsistent _ _ (K-lift (from_str next_text)) λ next.
      Keeps-bind IsConsistent _ _ (Keeps-fail_if IsConsistent _ _)
        λ _. Keeps-bind IsConsistent _ _ (K-set_lifecycle id next) λ _. K-instance_row id

pub K-finish_run : (id status : String) → K (finish_run id status)
unfolding finish_run
K-finish_run id status =
    Keeps-bind IsConsistent _ _ (Keeps-fail_if IsConsistent _ _)
      λ _. Keeps-bind IsConsistent _ _ (K-set_status id status) λ _. K-run_row id

pub K-active_run : (id : String) → K (active_run id)
unfolding active_run
K-active_run id = record { at = λ db h. h }

pub K-mark_error : (id : String) → K (mark_error id)
unfolding mark_error
K-mark_error id = Keeps-bind IsConsistent _ _ (K-instance_row id) λ current.
    Keeps-if IsConsistent _ _ _
      (Keeps-bind IsConsistent _ _ (K-transition_instance id "error")
        (λ _. Keeps-give IsConsistent tt))
      (Keeps-give IsConsistent tt)

module _ (alive : ℕ → ℕ → Bool) where
  pub K-reconcile_run : (id : String) → K (reconcile_run alive id)
  unfolding reconcile_run
  K-reconcile_run id =
      Keeps-bind IsConsistent _ _ (K-run_row id)
        λ run. Keeps-bind IsConsistent _ _ (K-set_status id _) λ _. K-run_row id

  pub K-observe_run_status : (run : Run) (status : String) → K (observe_run_status alive run status)
  unfolding observe_run_status
  K-observe_run_status run status = Keeps-bind IsConsistent _ _ (K-lift (from_qmp status)) λ target.
      Keeps-bind IsConsistent _ _ (K-active_run run.owner) λ active.
        Keeps-bind IsConsistent _ _
          (Keeps-fail_if IsConsistent
            (not (alive run.pid run.process_start) || not (is_same_run run active))
            (process "QMP observation belongs to a stale or dead run"))
          (λ _.
            Keeps-bind IsConsistent _ _ (K-observe run.owner target) λ _. K-instance_row run.owner)

  K-reconcile_all : (ids : List String) → K (reconcile_all alive ids)
  unfolding reconcile_all
  K-reconcile_all [] = Keeps-give IsConsistent []
  K-reconcile_all (id ∷ ids) = Keeps-bind IsConsistent _ _ (K-reconcile_run id) λ run.
      Keeps-bind IsConsistent _ _ (K-reconcile_all ids) λ runs. Keeps-give IsConsistent (run ∷ runs)

  K-mark_errors : (runs : List Run) → K (mark_errors alive runs)
  unfolding mark_errors
  K-mark_errors [] = Keeps-give IsConsistent tt
  K-mark_errors (run ∷ runs) =
      Keeps-bind IsConsistent _ _
        (Keeps-if IsConsistent _ _ _ (K-mark_error run.owner) (Keeps-give IsConsistent tt))
        (λ _. K-mark_errors runs)

  pub K-reconcile_active_runs : K (reconcile_active_runs alive)
  unfolding reconcile_active_runs
  K-reconcile_active_runs = Keeps-bind IsConsistent _ _ (K-reads _) λ ids.
      Keeps-bind IsConsistent _ _ (K-reconcile_all ids)
        λ runs. Keeps-bind IsConsistent _ _ (K-mark_errors runs) λ _. Keeps-give IsConsistent runs

-- A call that found the instance leaves the database, and the instance has a row.
pub instance_found :
    (id : String) (db : Db) (r : Instance)
    → (instance_row id db).0 ≡ ok r
    → Has (instance_row id db).1.instances id
unfolding instance_row
instance_found id db r h = elim (Option-cases (find instance_key id db.instances)) [
  | inl e ↦ absurd (let refused = rw e at h in cc refused)
  | inr (a, e) ↦ rw e (λ none_found. cc none_found)
]

insert_run_keeps :
    (new : Run) (db : Db)
    → Has db.instances new.owner
    → IsConsistent db
    → IsConsistent (insert_run new db).1
unfolding insert_run
insert_run_keeps new db owned h = elim (Option-cases (find run_key new.run_id db.runs)) [
  | inl e ↦ rw e (IsConsistent-insert_run new db e owned h)
  | inr (a, e) ↦ rw e h
]

pub K-record_run :
    (now : ℕ) (id owner : String) (pid start : ℕ) (socket : String)
    → K (record_run now id owner pid start socket)
unfolding record_run
K-record_run now id owner pid start socket = record {
  at = λ db h.
      Keeps-bind_at IsConsistent (instance_row owner) _ db ((K-instance_row owner).at db h)
        λ r found.
          Keeps-bind_at IsConsistent (insert_run (new_run now id owner pid start socket)) _ _
            (insert_run_keeps (new_run now id owner pid start socket) _
              (instance_found owner db r found) ((K-instance_row owner).at db h))
            (λ _ _. (K-run_row id).at _ (
              insert_run_keeps (new_run now id owner pid start socket) _
                (instance_found owner db r found) ((K-instance_row owner).at db h)));
}

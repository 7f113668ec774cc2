-- ===== src/Runtime/Consistent/Sessions.antt =====
-- crates/machineemu-core/src/runtime/lifecycle_async.rs: histories of lifecycle calls and storage
-- calls.
use text.Mathlib.Text.{◌==◌}
use machineemu.Prelude.{
  ℕ, Bool, not, String, Option, none, some, List, [], ◌∷◌, if◌then◌else◌, ◌||◌,
}
use machineemu.Prelude.Result.{Result}
use machineemu.Domain.{
  InstanceState, as_str, Error, invalid_transition, process, active_run as still_active,
}
use machineemu.Storage.Schema.{Run, Db}
use machineemu.Storage.Action.{lift, fail_if}
use machineemu.Storage.Keeps.{Keeps-bind, Keeps-if}
use machineemu.Storage.Instances.{transition_instance, finish_run, mark_error}
use machineemu.Storage.Commands.{World, empty_db}
use machineemu.Storage.Consistent.{IsConsistent}
use machineemu.Storage.Consistent.Calls.{
  K, K-instance_row, K-lift, K-mark_error, K-transition_instance, K-finish_run, K-active_run,
  K-reconcile_run, K-observe_run_status,
}
use machineemu.Storage.Consistent.Operations.{K-begin_operation}
use machineemu.Storage.Consistent.Commands.{execute-IsConsistent}
use machineemu.Runtime.{
  StartRequest, Launch, reclaim, start_instance, pause_instance, resume_instance, reset_instance,
  Process, owned, recovered, unowned, exit_status, await_exit, is_stoppable, enter_stopping,
  stop_instance, recover_run, recover_active, recover_instance_run,
}
use machineemu.Runtime.Session.{
  Event, stored, start, pause, resume, reset, stop, recover, watch, report_status, report_event,
  Texts, perform, perform_all,
}
use machineemu.Watcher.Consistent.{K-watch_round, K-apply_status, K-apply_qmp}
use machineemu.Runtime.Consistent.{K-done, K-check, K-attempt}

K-reclaim : (alive : ℕ → ℕ → Bool) (id : String) (active : Option Run) → K (reclaim alive id active)
unfolding reclaim
K-reclaim alive id none = K-done tt
K-reclaim alive id (some active) =
    Keeps-bind IsConsistent _ _ (K-reconcile_run alive active.run_id) λ reconciled.
      Keeps-bind IsConsistent _ _ (K-check (reconciled.status == "running") (still_active id))
        λ _. Keeps-bind IsConsistent _ _ (K-finish_run active.run_id "failed") λ _. K-mark_error id

K-start_instance :
    (alive : ℕ → ℕ → Bool) (digest : String → String) (reason : Error → String)
    (state_json : String → String) (q : StartRequest) (l : Launch)
    → K (start_instance alive digest reason state_json q l)
unfolding start_instance
K-start_instance alive digest reason state_json q l =
    Keeps-bind IsConsistent _ _ (K-active_run q.instance_id) λ active.
      Keeps-bind IsConsistent _ _ (K-reclaim alive q.instance_id active) λ _.
        Keeps-bind IsConsistent _ _
          (K-begin_operation digest q.operation_id q.instance_id "start" q.idempotency_key
            q.input_json)
          λ operation.
            Keeps-bind IsConsistent _ _
              (K-check (not (operation.status == "accepted"))
                (process "start operation is not accepted"))
              λ _. K-attempt reason state_json operation.operation_id q l

K-pause_instance : (id : String) (answer : Result Error (Unit {0})) → K (pause_instance id answer)
unfolding pause_instance
K-pause_instance id answer = Keeps-bind IsConsistent _ _ (K-instance_row id) λ current.
    Keeps-bind IsConsistent _ _
      (K-check (not (as_str current.state == "running"))
        (invalid_transition (as_str current.state) "paused"))
      λ _. Keeps-bind IsConsistent _ _ (K-lift answer) λ _. K-transition_instance id "paused"

K-resume_instance : (id : String) (answer : Result Error (Unit {0})) → K (resume_instance id answer)
unfolding resume_instance
K-resume_instance id answer = Keeps-bind IsConsistent _ _ (K-instance_row id) λ current.
    Keeps-bind IsConsistent _ _
      (K-check (not (as_str current.state == "paused"))
        (invalid_transition (as_str current.state) "running"))
      λ _. Keeps-bind IsConsistent _ _ (K-lift answer) λ _. K-transition_instance id "running"

K-reset_instance : (id : String) (answer : Result Error (Unit {0})) → K (reset_instance id answer)
unfolding reset_instance
K-reset_instance id answer = Keeps-bind IsConsistent _ _ (K-instance_row id) λ current.
    Keeps-bind IsConsistent _ _
      (K-check (not ((as_str current.state == "running") || (as_str current.state == "paused")))
        (invalid_transition (as_str current.state) "running"))
      λ _. K-lift answer

K-await_exit : (quit : Result Error (Unit {0})) (owner : Process) → K (await_exit quit owner)
unfolding await_exit
K-await_exit quit (owned waited) =
    Keeps-bind IsConsistent _ _ (K-lift waited) λ success. K-done (exit_status success)
K-await_exit quit (recovered gone) = Keeps-bind IsConsistent _ _ (K-lift quit) λ _.
    Keeps-bind IsConsistent _ _
      (K-check (not gone) (process "recovered process did not exit after QMP quit"))
      λ _. K-done "exited"
K-await_exit quit unowned = record { at = λ db h. h }

K-enter_stopping : (id : String) (state : InstanceState) → K (enter_stopping id state)
unfolding enter_stopping
K-enter_stopping id state = Keeps-if IsConsistent (as_str state == "stopping") _ _ (K-done tt) (
    Keeps-bind IsConsistent (transition_instance id "stopping") _
      (K-transition_instance id "stopping") λ _. K-done tt)

K-stop_instance :
    (id run : String) (quit : Result Error (Unit {0})) (owner : Process)
    → K (stop_instance id run quit owner)
unfolding stop_instance
K-stop_instance id run quit owner = Keeps-bind IsConsistent _ _ (K-instance_row id) λ current.
    Keeps-bind IsConsistent _ _
      (K-check (not (is_stoppable current.state))
        (invalid_transition (as_str current.state) "stopped"))
      λ _. Keeps-bind IsConsistent _ _ (K-enter_stopping id current.state) λ _.
        Keeps-bind IsConsistent _ _ (K-await_exit quit owner) λ status.
          Keeps-bind IsConsistent _ _ (K-finish_run run status)
            λ _. K-transition_instance id (if status == "failed" then "error" else "stopped")

module _ (alive : ℕ → ℕ → Bool) where
  K-recover_run :
      (id : String) (observed : Result Error String) (run : Run)
      → K (recover_run alive id observed run)
  unfolding recover_run
  K-recover_run id observed run =
      Keeps-if IsConsistent (not (run.status == "running")) _ _
        (Keeps-bind IsConsistent (finish_run run.run_id "failed") _
          (K-finish_run run.run_id "failed")
          λ _. Keeps-bind IsConsistent (mark_error id) _ (K-mark_error id) λ _. K-done none)
        (Keeps-bind IsConsistent
          (fail_if (not (alive run.pid run.process_start))
            (process "recorded process is no longer alive"))
          _
          (K-check (not (alive run.pid run.process_start))
            (process "recorded process is no longer alive"))
          λ _. Keeps-bind IsConsistent (lift observed) _ (K-lift observed) λ status.
            Keeps-bind IsConsistent _ _ (K-observe_run_status alive run status)
              λ _. K-done (some run))

  K-recover_active :
      (id : String) (observed : Result Error String) (active : Option Run)
      → K (recover_active alive id observed active)
  unfolding recover_active
  K-recover_active id observed none = K-done none
  K-recover_active id observed (some active) =
      Keeps-bind IsConsistent _ _ (K-reconcile_run alive active.run_id)
        λ run. K-recover_run id observed run

  K-recover_instance_run :
      (id : String) (observed : Result Error String) → K (recover_instance_run alive id observed)
  unfolding recover_instance_run
  K-recover_instance_run id observed =
      Keeps-bind IsConsistent _ _ (K-active_run id) λ active. K-recover_active id observed active

perform-IsConsistent :
    (t : Texts) (w : World) (e : Event) (db : Db)
    → IsConsistent db
    → IsConsistent (perform t w e db)
unfolding perform
perform-IsConsistent t w (stored c) db = execute-IsConsistent w c db
perform-IsConsistent t w (start q l) db =
    (K-start_instance w.alive w.digest t.reason t.state_json q l).at db
perform-IsConsistent t w (pause id answer) db = (K-pause_instance id answer).at db
perform-IsConsistent t w (resume id answer) db = (K-resume_instance id answer).at db
perform-IsConsistent t w (reset id answer) db = (K-reset_instance id answer).at db
perform-IsConsistent t w (stop id run quit owner) db = (K-stop_instance id run quit owner).at db
perform-IsConsistent t w (recover id observed) db =
    (K-recover_instance_run w.alive id observed).at db
perform-IsConsistent t w (watch disposal run connection torn_down) db =
    (K-watch_round w.alive w.cleanup disposal run connection torn_down).at db
perform-IsConsistent t w (report_status run connection status) db =
    (K-apply_status w.alive run connection status).at db
perform-IsConsistent t w (report_event run connection name) db =
    (K-apply_qmp w.alive run connection name).at db

perform_all_from :
    (t : Texts) (events : List (World × Event)) (db : Db)
    → IsConsistent db
    → IsConsistent (perform_all t events db)
unfolding perform_all
perform_all_from t [] db h = h
perform_all_from t ((w, e) ∷ rest) db h =
    perform_all_from t rest (perform t w e db) (perform-IsConsistent t w e db h)

-- Whatever sequence of the storage calls of `Command`, lifecycle calls, rounds of watchers and
-- reports of QMP is made, whether they succeed or fail, and whatever they are told of processes,
-- QMP, files and digests: in the database that they make of the empty one no key occurs twice in
-- any of the five tables, every run, operation and snapshot belongs to an instance that exists, no
-- instance with a deletion still pending exists, and every revision is at least 1.
pub perform_all-IsConsistent :
    (t : Texts) (events : List (World × Event)) → IsConsistent (perform_all t events empty_db)
perform_all-IsConsistent t events = perform_all_from t events empty_db record {
  instances_unique = tt;
  runs_unique = tt;
  operations_unique = tt;
  runs_owned = tt;
  operations_owned = tt;
  revisions = tt;
  snapshots_unique = tt;
  snapshots_owned = tt;
  pending_unique = tt;
  pending_gone = tt;
}

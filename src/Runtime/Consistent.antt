-- ===== src/Runtime/Consistent.antt =====
-- crates/machineemu-core/src/runtime/lifecycle_async.rs: the lifecycle calls under the invariant
-- of Storage.Consistent.
pub mod Sessions
use text.Mathlib.Text.{◌==◌}
use machineemu.Prelude.{
  ℕ, ◌≡◌, refl, Bool, true, false, not, String, Option, none, some, List, [], ◌∷◌, if◌then◌else◌,
  ◌||◌,
}
use machineemu.Prelude.Result.{Result, ok, err}
use machineemu.Domain.{
  InstanceState, as_str, from_qmp, Error, invalid_transition, process, active_run as still_active,
}
use machineemu.Storage.Schema.{Run, Db}
use machineemu.Storage.Action.{Action, give, fail, lift, fail_if, ◌>>=◌, ◌>>◌}
use machineemu.Storage.Keeps.{Keeps, Keeps-give, Keeps-fail_if, Keeps-bind, Keeps-if}
use machineemu.Storage.Instances.{transition_instance, finish_run}
use machineemu.Storage.Operations.{fail_operation, complete_operation}
use machineemu.Storage.Commands.{Command, World, execute, empty_db}
use machineemu.Storage.Consistent.{IsConsistent}
use machineemu.Storage.Consistent.Calls.{
  K, K-instance_row, K-lift, K-mark_error, K-transition_instance, K-finish_run, K-active_run,
  K-reconcile_run, K-observe_run_status, K-record_run,
}
use machineemu.Storage.Consistent.Operations.{
  K-begin_operation, K-complete_operation, K-fail_operation,
}
use machineemu.Runtime.{
  StartRequest, Launch, ignoring, is_begun, complete_if, launch_process, negotiate, settle,
  clean_up, or_clean_up, negotiate_after, attempt, reclaim, start_instance, pause_instance,
  resume_instance, reset_instance, Process, owned, recovered, unowned, exit_status, await_exit,
  is_stoppable, enter_stopping, stop_instance, recover_run, recover_active, recover_instance_run,
}

K-ignoring : {A : Type 0} (m : Action A) → K m → K (ignoring m)
K-ignoring m k = record { at = k.at }

pub K-done : {A : Type 0} (a : A) → K (give a)
K-done a = Keeps-give IsConsistent a

pub K-check : (test : Bool) (e : Error) → K (fail_if test e)
K-check test e = Keeps-fail_if IsConsistent test e

K-complete_if : (test : Bool) (id result : String) → K (complete_if test id result)
unfolding complete_if
K-complete_if false id result = K-done tt
K-complete_if true id result =
    Keeps-bind IsConsistent (complete_operation id result) _ (K-complete_operation id result)
      λ _. K-done tt

K-launch_process : (q : StartRequest) (l : Launch) → K (launch_process q l)
unfolding launch_process
K-launch_process q l =
    Keeps-bind IsConsistent _ _ (K-transition_instance q.instance_id "starting") λ _.
      Keeps-bind IsConsistent _ _ (K-lift l.spawned)
        λ started. K-record_run l.now q.run_id q.instance_id started.0 started.1 q.qmp_socket

K-negotiate :
    (state_json : String → String) (id : String) (q : StartRequest) (l : Launch)
    → K (negotiate state_json id q l)
unfolding negotiate
K-negotiate state_json id q l = Keeps-bind IsConsistent _ _ (K-lift l.connected) λ _.
    Keeps-bind IsConsistent _ _ (K-lift l.observed) λ status.
      Keeps-bind IsConsistent _ _ (K-lift (from_qmp status)) λ target.
        Keeps-bind IsConsistent _ _ (K-lift l.exited) λ exited.
          Keeps-bind IsConsistent _ _
            (K-check exited (process "QEMU exited during QMP negotiation"))
            λ _.
              Keeps-bind IsConsistent _ _ (K-transition_instance q.instance_id (as_str target))
                λ _. K-complete_if q.complete id (state_json (as_str target))

K-settle : (id : String) → K (settle id)
unfolding settle
K-settle id = Keeps-bind IsConsistent _ _ (K-instance_row id) λ current.
    Keeps-if IsConsistent (is_begun current.state) _ _
      (K-ignoring (transition_instance id "error") (K-transition_instance id "error")) (K-done tt)

K-clean_up :
    (op reason : String) (recorded : Bool) (run id : String)
    → K (clean_up op reason recorded run id)
unfolding clean_up
K-clean_up op reason recorded run id =
    Keeps-bind IsConsistent (ignoring (fail_operation op reason)) _
      (K-ignoring (fail_operation op reason) (K-fail_operation op reason))
      λ _.
        Keeps-bind IsConsistent (if recorded then ignoring (finish_run run "failed") else give tt) _
          (Keeps-if IsConsistent recorded _ _
            (K-ignoring (finish_run run "failed") (K-finish_run run "failed")) (K-done tt))
          λ _. K-ignoring (settle id) (K-settle id)

or_clean_up-IsConsistent :
    {A : Type 0} (clean : Error → Action (Unit {0})) (out : Result Error A × Db)
    → ((e : Error) → K (clean e))
    → IsConsistent out.1
    → IsConsistent (or_clean_up clean out).1
unfolding or_clean_up
or_clean_up-IsConsistent clean (ok a, db) k h = h
or_clean_up-IsConsistent clean (err e, db) k h = (k e).at db h

negotiate_after-IsConsistent :
    (reason : Error → String) (state_json : String → String) (op : String) (q : StartRequest)
    (l : Launch) (out : Result Error Run × Db)
    → IsConsistent out.1
    → IsConsistent (negotiate_after reason state_json op q l out).1
unfolding negotiate_after
negotiate_after-IsConsistent reason state_json op q l (err e, db) h =
    (K-clean_up op (reason e) false q.run_id q.instance_id).at db h
negotiate_after-IsConsistent reason state_json op q l (ok run, db) h =
    or_clean_up-IsConsistent _ (negotiate state_json op q l db)
      (λ e. K-clean_up op (reason e) true q.run_id q.instance_id)
      ((K-negotiate state_json op q l).at db h)

pub K-attempt :
    (reason : Error → String) (state_json : String → String) (op : String) (q : StartRequest)
    (l : Launch)
    → K (attempt reason state_json op q l)
unfolding attempt
K-attempt reason state_json op q l = record {
  at = λ db h.
      negotiate_after-IsConsistent reason state_json op q l (launch_process q l db)
        ((K-launch_process q l).at db h);
}

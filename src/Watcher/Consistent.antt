-- ===== src/Watcher/Consistent.antt =====
-- crates/machineemu/src/api/run_events.rs: the watcher of a run and the reports of QMP under the
-- invariant of Storage.Consistent.
use machineemu.Prelude.{ℕ, Bool, true, false, ◌&&◌, not, String, Option, none, some}
use machineemu.Prelude.Result.{Result}
use machineemu.Domain.{Error}
use machineemu.Storage.Schema.{Instance, Run}
use machineemu.Storage.Action.{Action, give, lift, ◌>>◌}
use machineemu.Storage.Keeps.{Keeps-give, Keeps-bind, Keeps-if}
use machineemu.Storage.Instances.{is_active, is_live_state, transition_instance, observe_run_status}
use machineemu.Storage.Removal.{remove_instance}
use machineemu.Storage.Consistent.{IsConsistent}
use machineemu.Storage.Consistent.Calls.{
  K, K-instance_row, K-run_row, K-lift, K-transition_instance, K-finish_run, K-active_run,
  K-reconcile_run, K-observe_run_status,
}
use machineemu.Storage.Consistent.Commands.{K-remove_instance}
use machineemu.Watcher.{
  Connection, no_owner, other_run, this_run, Observation, replaced, still_running, ended,
  observation, observe_exit, final_status, is_up, leave, helpers_left, Disposal,
  remove_if_disposable, process_ended, after_observation, watch_round, is_none, run_is_alive,
  is_current, if_current, status_target, observe_target, apply_status, is_published, event_target,
  enter_target, apply_qmp,
}

K-give : {A : Type 0} (a : A) → K (give a)
K-give a = Keeps-give IsConsistent a

-- A call whose value is not used.
K-then_give : {A B : Type 0} (m : Action A) (b : B) → K m → K (m >> give b)
K-then_give m b k = Keeps-bind IsConsistent m _ k λ _. K-give b

K-leave : (success : Bool) (id : String) (current : Instance) → K (leave success id current)
unfolding leave
K-leave success id current =
    Keeps-if IsConsistent (is_up current.state && success) _ _
      (Keeps-bind IsConsistent (transition_instance id "stopping") _
        (K-transition_instance id "stopping") λ _. K-transition_instance id "stopped")
      (Keeps-if IsConsistent (is_live_state current.state) _ _ (K-transition_instance id "error")
        (K-give current))

K-helpers_left : (run : Run) → K (helpers_left run)
unfolding helpers_left
K-helpers_left run = Keeps-bind IsConsistent _ _ (K-finish_run run.run_id "uncertain") λ _.
    Keeps-bind IsConsistent _ _ (K-instance_row run.owner) λ current.
      Keeps-if IsConsistent (is_live_state current.state) _ _
        (K-then_give _ true (K-transition_instance run.owner "error")) (K-give true)

module _ (alive : ℕ → ℕ → Bool) where
  K-observe_exit : (id : String) (held : Connection) → K (observe_exit alive id held)
  unfolding observe_exit
  K-observe_exit id no_owner =
      Keeps-bind IsConsistent _ _ (K-reconcile_run alive id) λ run. K-give _
  K-observe_exit id other_run = K-give replaced
  K-observe_exit id (this_run polled) =
      Keeps-bind IsConsistent _ _ (K-lift polled) λ exit. K-give (observation exit)

  K-run_is_alive : (run : Run) (held : Connection) → K (run_is_alive alive run held)
  unfolding run_is_alive
  K-run_is_alive run no_owner =
      Keeps-bind IsConsistent _ _ (K-reconcile_run alive run.run_id) λ r. K-give _
  K-run_is_alive run other_run = K-give false
  K-run_is_alive run (this_run polled) =
      Keeps-bind IsConsistent _ _ (K-lift polled) λ exit. K-give (is_none exit)

  K-if_current :
      (run : Run) (connection : Result Error Connection) (rest : Action (Unit {0}))
      → K rest
      → K (if_current alive run connection rest)
  unfolding if_current
  K-if_current run connection rest k =
      Keeps-bind IsConsistent _ _ (K-active_run run.owner) λ active.
        Keeps-if IsConsistent (not (is_current run active)) _ _ (K-give tt) (
          Keeps-bind IsConsistent (lift connection) _ (K-lift connection) λ held.
            Keeps-bind IsConsistent _ _ (K-run_is_alive run held)
              λ live. Keeps-if IsConsistent live _ _ k (K-give tt))

  K-observe_target :
      (run : Run) (connection : Result Error Connection) (target : Option String)
      → K (observe_target alive run connection target)
  K-observe_target run connection none = K-give tt
  K-observe_target run connection (some target) = K-if_current run connection _ (
      Keeps-bind IsConsistent _ _ (K-instance_row run.owner) λ _.
        K-then_give (observe_run_status alive run target) tt
          (K-observe_run_status alive run target))

  pub K-apply_status :
      (run : Run) (connection : Result Error Connection) (status : String)
      → K (apply_status alive run connection status)
  unfolding apply_status
  K-apply_status run connection status = K-observe_target run connection (status_target status)

  K-enter_target :
      (id : String) (target : Option String) (current : Instance)
      → K (enter_target id target current)
  K-enter_target id none current = K-give tt
  K-enter_target id (some target) current =
      Keeps-if IsConsistent _ _ _ (K-then_give _ tt (K-transition_instance id target)) (K-give tt)

  pub K-apply_qmp :
      (run : Run) (connection : Result Error Connection) (name : String)
      → K (apply_qmp alive run connection name)
  unfolding apply_qmp
  K-apply_qmp run connection name =
      Keeps-if IsConsistent (not (is_published name)) _ _ (K-give tt) (
        K-if_current run connection _ (
          Keeps-bind IsConsistent _ _ (K-instance_row run.owner)
            λ current. K-enter_target run.owner (event_target name) current))

  module _ (cleanup : String → Bool) (disposal : Disposal) where
    K-remove_if_disposable : (id : String) → K (remove_if_disposable cleanup alive disposal id)
    unfolding remove_if_disposable
    K-remove_if_disposable id = Keeps-bind IsConsistent _ _ (K-lift disposal.auto_remove) λ auto.
        Keeps-if IsConsistent auto _ _
          (Keeps-bind IsConsistent (remove_instance cleanup alive id) _
            (K-remove_instance cleanup alive id)
            λ _. K-then_give (lift disposal.tombstone) true (K-lift disposal.tombstone))
          (K-give false)

    K-process_ended :
        (run : Run) (torn_down success : Bool)
        → K (process_ended cleanup alive disposal run torn_down success)
    unfolding process_ended
    K-process_ended run false success = K-helpers_left run
    K-process_ended run true success =
        Keeps-bind IsConsistent _ _ (K-finish_run run.run_id (final_status success)) λ _.
          Keeps-bind IsConsistent _ _ (K-instance_row run.owner) λ current.
            Keeps-bind IsConsistent _ _ (K-leave success run.owner current)
              λ _. K-then_give _ true (K-remove_if_disposable run.owner)

    K-after_observation :
        (run : Run) (torn_down : Bool) (seen : Observation)
        → K (after_observation cleanup alive disposal run torn_down seen)
    unfolding after_observation
    K-after_observation run torn_down replaced = K-give true
    K-after_observation run torn_down still_running = K-give false
    K-after_observation run torn_down (ended success) = K-process_ended run torn_down success

    pub K-watch_round :
        (run : Run) (connection : Result Error Connection) (torn_down : Bool)
        → K (watch_round cleanup alive disposal run connection torn_down)
    unfolding watch_round
    K-watch_round run connection torn_down =
        Keeps-bind IsConsistent _ _ (K-run_row run.run_id) λ recorded.
          Keeps-if IsConsistent (not (is_active recorded)) _ _ (K-give true) (
            Keeps-bind IsConsistent (lift connection) _ (K-lift connection) λ held.
              Keeps-bind IsConsistent _ _ (K-observe_exit run.run_id held)
                λ seen. K-after_observation run torn_down seen)

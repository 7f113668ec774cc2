-- ===== src/Watcher.antt =====
-- crates/machineemu/src/api/run_events.rs: what the daemon does when the process of a run ends and
-- when QMP reports a status or an event, over the calls of Storage. Which connection the daemon
-- has, what the process answers and whether the helpers could be stopped are arguments. The notices
-- to the event hub, the stream tickets and the table of tombstones are left out.
pub mod Consistent
pub mod Stale
pub mod Exit
mod Examples
use text.Mathlib.Text.{◌==◌}
use machineemu.Prelude.{
  ℕ, Bool, true, false, ◌&&◌, ◌||◌, not, String, Option, none, some, if◌then◌else◌,
}
use machineemu.Prelude.Result.{Result, ok, err}
use machineemu.Domain.{InstanceState, as_str, Error}
use machineemu.Storage.Schema.{Instance, Run, Db}
use machineemu.Storage.Action.{Action, give, lift, ◌>>=◌, ◌>>◌}
use machineemu.Storage.Instances.{
  instance_row, run_row, transition_instance, finish_run, active_run, is_active, is_live_state,
  reconcile_run, observe_run_status,
}
use machineemu.Storage.Removal.{remove_instance}

-- The connection that the daemon holds for an instance: none, one of another run, or one of this run,
-- with the answer of `poll_exit`, which is whether the exit was a success, once there is one.
pub data Connection : Type 0 where
  no_owner : Connection
  other_run : Connection
  this_run : Result Error (Option Bool) → Connection

pub data Observation : Type 0 where
  replaced : Observation
  still_running : Observation
  ended : Bool → Observation

abbrev pub observation : Option Bool → Observation
observation none = still_running
observation (some success) = ended success

-- Whether the process has ended.
unfoldable pub observe_exit : (ℕ → ℕ → Bool) → String → Connection → Action Observation
observe_exit alive run_id no_owner = reconcile_run alive run_id >>= λ run.
    give (if run.status == "uncertain" then ended false else still_running)
observe_exit alive run_id other_run = give replaced
observe_exit alive run_id (this_run polled) = lift polled >>= λ exit. give (observation exit)

abbrev pub final_status : Bool → String
final_status success = if success then "exited" else "failed"

-- `matches!(state, "running" | "paused")`.
abbrev pub is_up : InstanceState → Bool
is_up s = (as_str s == "running") || (as_str s == "paused")

-- The instance after the end of its process.
unfoldable pub leave : Bool → String → Instance → Action Instance
leave success id current =
    if is_up current.state && success
    then (transition_instance id "stopping" >> transition_instance id "stopped")
    else if is_live_state current.state
    then transition_instance id "error"
    else give current

-- The helpers could not be stopped.
unfoldable pub helpers_left : Run → Action Bool
helpers_left run = do
  finish_run run.run_id "uncertain"
  current ← instance_row run.owner
  if is_live_state current.state
      then (transition_instance run.owner "error" >> give true)
      else give true

-- What is told of an instance that removes itself: whether it does, and how the tombstone was
-- written.
pub record Disposal : Type 0 where
  pub auto_remove : Result Error Bool
  pub tombstone : Result Error (Unit {0})

-- `remove_if_disposable` of crates/machineemu/src/api/instances.rs.
unfoldable pub remove_if_disposable :
    (String → Bool) → (ℕ → ℕ → Bool) → Disposal → String → Action Bool
remove_if_disposable cleanup alive disposal id = do
  auto ← lift disposal.auto_remove
  if auto
      then (remove_instance cleanup alive id >> (lift disposal.tombstone >> give true))
      else give false

-- The process has ended; `torn_down` says whether the helpers could be stopped.
unfoldable pub process_ended :
    (String → Bool) → (ℕ → ℕ → Bool) → Disposal → Run → Bool → Bool → Action Bool
unfolding leave helpers_left remove_if_disposable
process_ended cleanup alive disposal run false success = helpers_left run
process_ended cleanup alive disposal run true success = do
  finish_run run.run_id (final_status success)
  current ← instance_row run.owner
  leave success run.owner current
  remove_if_disposable cleanup alive disposal run.owner
  give true

unfoldable pub after_observation :
    (String → Bool) → (ℕ → ℕ → Bool) → Disposal → Run → Bool → Observation → Action Bool
unfolding process_ended
after_observation cleanup alive disposal run torn_down replaced = give true
after_observation cleanup alive disposal run torn_down still_running = give false
after_observation cleanup alive disposal run torn_down (ended success) =
    process_ended cleanup alive disposal run torn_down success

-- A round of `process_watcher`, which returns whether the watch is over.
unfoldable pub watch_round :
    (String → Bool) → (ℕ → ℕ → Bool) → Disposal → Run → Result Error Connection → Bool → Action Bool
unfolding observe_exit after_observation
watch_round cleanup alive disposal run connection torn_down = do
  recorded ← run_row run.run_id
  if not (is_active recorded)
      then give true
      else (lift connection >>= λ held.
          observe_exit alive run.run_id held
          >>= after_observation cleanup alive disposal run torn_down)

abbrev pub is_none : Option Bool → Bool
is_none none = true
is_none (some success) = false

unfoldable pub run_is_alive : (ℕ → ℕ → Bool) → Run → Connection → Action Bool
run_is_alive alive run no_owner =
    reconcile_run alive run.run_id >>= λ r. give (r.status == "running")
run_is_alive alive run other_run = give false
run_is_alive alive run (this_run polled) = lift polled >>= λ exit. give (is_none exit)

-- `active_run(...)?.is_some_and(|active| active.run_id == run.run_id)`.
abbrev pub is_current : Run → Option Run → Bool
is_current run none = false
is_current run (some active) = active.run_id == run.run_id

-- The rest of a report goes on if the run is the active one and its process is alive.
unfoldable pub if_current :
    (ℕ → ℕ → Bool) → Run → Result Error Connection → Action (Unit {0}) → Action (Unit {0})
unfolding run_is_alive
if_current alive run connection rest = do
  active ← active_run run.owner
  if not (is_current run active)
      then give tt
      else (lift connection >>= λ held.
          run_is_alive alive run held >>= λ live. if live then rest else give tt)

abbrev pub status_target : String → Option String
status_target status =
    if status == "running"
    then some "running"
    else if (status == "paused") || (status == "prelaunch")
    then some "paused"
    else none

abbrev pub observe_target :
    (ℕ → ℕ → Bool) → Run → Result Error Connection → Option String → Action (Unit {0})
observe_target alive run connection none = give tt
observe_target alive run connection (some target) =
    if_current alive run connection
      (instance_row run.owner >> (observe_run_status alive run target >> give tt))

-- `apply_status_locked`.
unfoldable pub apply_status :
    (ℕ → ℕ → Bool) → Run → Result Error Connection → String → Action (Unit {0})
unfolding if_current
apply_status alive run connection status =
    observe_target alive run connection (status_target status)

-- The events for which `filtered_fields` has fields.
abbrev pub is_published : String → Bool
is_published name =
    (name == "SHUTDOWN")
    || (name == "RESET")
    || (name == "STOP")
    || (name == "RESUME")
    || (name == "POWERDOWN")
    || (name == "DEVICE_DELETED")
    || (name == "BLOCK_IO_ERROR")

abbrev pub event_target : String → Option String
event_target name =
    if name == "STOP" then some "paused" else if name == "RESUME" then some "running" else none

abbrev pub flips : InstanceState → String → Bool
flips s target =
    ((as_str s == "running") && (target == "paused"))
    || ((as_str s == "paused") && (target == "running"))

abbrev pub enter_target : String → Option String → Instance → Action (Unit {0})
enter_target id none current = give tt
enter_target id (some target) current =
    if not (as_str current.state == target) && flips current.state target
    then (transition_instance id target >> give tt)
    else give tt

-- `apply_qmp_locked`, for a message with the event of this name.
unfoldable pub apply_qmp :
    (ℕ → ℕ → Bool) → Run → Result Error Connection → String → Action (Unit {0})
unfolding if_current
apply_qmp alive run connection name =
    if not (is_published name)
    then give tt
    else if_current alive run connection
        (instance_row run.owner >>= enter_target run.owner (event_target name))

-- ===== src/Runtime.antt =====
-- crates/machineemu-core/src/runtime/lifecycle_async.rs: start, pause, resume, reset, stop and
-- recovery of an instance, over the calls of Storage. What QMP and the process answer are
-- arguments; the callbacks, which are only told of rows, are left out.
pub mod Consistent
pub mod Failure
pub mod Stop
pub mod Session
mod Examples
use text.Mathlib.Text.{◌==◌}
use machineemu.Prelude.{ℕ, Bool, true, false, ◌||◌, not, String, Option, none, some, if◌then◌else◌}
use machineemu.Prelude.Result.{Result, ok, err}
use machineemu.Domain.{
  InstanceState, as_str, from_qmp, Error, invalid_transition, process, active_run as still_active,
}
use machineemu.Storage.Schema.{Instance, Run, Operation, Db}
use machineemu.Storage.Action.{Action, give, fail, lift, fail_if, ◌>>=◌, ◌>>◌}
use machineemu.Storage.Instances.{
  instance_row, transition_instance, record_run, finish_run, active_run, reconcile_run, mark_error,
  observe_run_status,
}
use machineemu.Storage.Operations.{begin_operation, complete_operation, fail_operation}

-- The part of a start request that reaches the tables.
pub record StartRequest : Type 0 where
  pub operation_id : String
  pub run_id : String
  pub instance_id : String
  pub idempotency_key : String
  pub input_json : String
  pub qmp_socket : String
  pub complete : Bool

-- How the launch goes: the process id and its start time, the connection to QMP within the timeout,
-- the answer to `query-status`, and whether the process has ended meanwhile.
pub record Launch : Type 0 where
  pub now : ℕ
  pub spawned : Result Error (ℕ × ℕ)
  pub connected : Result Error (Unit {0})
  pub observed : Result Error String
  pub exited : Result Error Bool

-- The call ends with an error, and the database is the one before it or what it wrote.
abbrev pub ignoring : {A : Type 0} → Action A → Action (Unit {0})
ignoring m db = (ok tt, (m db).1)

-- `matches!(state, "starting" | "running" | "paused")`.
abbrev pub is_begun : InstanceState → Bool
is_begun s = (as_str s == "starting") || (as_str s == "running") || (as_str s == "paused")

-- `if complete_operation { ... }`.
unfoldable pub complete_if : Bool → String → String → Action (Unit {0})
complete_if false id result = give tt
complete_if true id result = complete_operation id result >> give tt

-- The start up to the recorded run.
unfoldable pub launch_process : StartRequest → Launch → Action Run
launch_process q l = do
  transition_instance q.instance_id "starting"
  started ← lift l.spawned
  record_run l.now q.run_id q.instance_id started.0 started.1 q.qmp_socket

-- The rest of the start; `state_json` is the JSON object that holds the state.
unfoldable pub negotiate : (String → String) → String → StartRequest → Launch → Action (Unit {0})
unfolding complete_if
negotiate state_json operation_id q l = do
  lift l.connected
  status ← lift l.observed
  target ← lift (from_qmp status)
  exited ← lift l.exited
  fail_if exited (process "QEMU exited during QMP negotiation")
  transition_instance q.instance_id (as_str target)
  complete_if q.complete operation_id (state_json (as_str target))

-- The instance after a failed start.
unfoldable pub settle : String → Action (Unit {0})
settle id = do
  current ← instance_row id
  if is_begun current.state then ignoring (transition_instance id "error") else give tt

-- The clean-up of a failed start; `reason` is the JSON object that holds the text of the error.
unfoldable pub clean_up : String → String → Bool → String → String → Action (Unit {0})
unfolding settle
clean_up operation_id reason recorded run_id instance_id = do
  ignoring (fail_operation operation_id reason)
  (if recorded then ignoring (finish_run run_id "failed") else give tt)
  ignoring (settle instance_id)

-- The clean-up follows an error, which is then returned.
unfoldable pub or_clean_up :
    {A : Type 0} → (Error → Action (Unit {0})) → Result Error A × Db → Result Error A × Db
or_clean_up clean (ok a, db) = (ok a, db)
or_clean_up clean (err e, db) = (err e, (clean e db).1)

-- After the launch the run is recorded.
unfoldable pub negotiate_after :
    (Error → String)
    → (String → String)
    → String
    → StartRequest
    → Launch
    → Result Error Run × Db
    → Result Error (Unit {0}) × Db
unfolding or_clean_up negotiate clean_up
negotiate_after reason state_json operation_id q l (err e, db) =
    (err e, (clean_up operation_id (reason e) false q.run_id q.instance_id db).1)
negotiate_after reason state_json operation_id q l (ok run, db) =
    or_clean_up (λ e. clean_up operation_id (reason e) true q.run_id q.instance_id)
      (negotiate state_json operation_id q l db)

-- `let started = async move { ... }` and the clean-up behind it.
unfoldable pub attempt :
    (Error → String) → (String → String) → String → StartRequest → Launch → Action (Unit {0})
unfolding negotiate_after launch_process
attempt reason state_json operation_id q l db =
    negotiate_after reason state_json operation_id q l (launch_process q l db)

-- A run that is still recorded as active is closed, unless its process is alive.
unfoldable pub reclaim : (ℕ → ℕ → Bool) → String → Option Run → Action (Unit {0})
reclaim alive id none = give tt
reclaim alive id (some active) = do
  reconciled ← reconcile_run alive active.run_id
  fail_if (reconciled.status == "running") (still_active id)
  finish_run active.run_id "failed"
  mark_error id

-- `Workspace::start_instance_async`.
unfoldable pub start_instance :
    (ℕ → ℕ → Bool)
    → (String → String)
    → (Error → String)
    → (String → String)
    → StartRequest
    → Launch
    → Action (Unit {0})
unfolding reclaim attempt
start_instance alive digest reason state_json q l = do
  active ← active_run q.instance_id
  reclaim alive q.instance_id active
  operation ←
      begin_operation digest q.operation_id q.instance_id "start" q.idempotency_key q.input_json
  fail_if (not (operation.status == "accepted")) (process "start operation is not accepted")
  attempt reason state_json operation.operation_id q l

-- `Workspace::pause_instance_async` and `Workspace::resume_instance_async`; `answer` is QMP's.
unfoldable pub pause_instance : String → Result Error (Unit {0}) → Action Instance
pause_instance id answer = do
  current ← instance_row id
  fail_if (not (as_str current.state == "running"))
      (invalid_transition (as_str current.state) "paused")
  lift answer
  transition_instance id "paused"

unfoldable pub resume_instance : String → Result Error (Unit {0}) → Action Instance
resume_instance id answer = do
  current ← instance_row id
  fail_if (not (as_str current.state == "paused"))
      (invalid_transition (as_str current.state) "running")
  lift answer
  transition_instance id "running"

-- `Workspace::reset_instance_async`.
unfoldable pub reset_instance : String → Result Error (Unit {0}) → Action (Unit {0})
reset_instance id answer = do
  current ← instance_row id
  fail_if (not ((as_str current.state == "running") || (as_str current.state == "paused")))
      (invalid_transition (as_str current.state) "running")
  lift answer

-- How a process ends after `quit`: an owned one is waited for, and has a success status; a
-- recovered one is gone before the deadline or not.
pub data Process : Type 0 where
  owned : Result Error Bool → Process
  recovered : Bool → Process
  unowned : Process

abbrev pub exit_status : Bool → String
exit_status success = if success then "exited" else "failed"

unfoldable pub await_exit : Result Error (Unit {0}) → Process → Action String
await_exit quit (owned waited) = lift waited >>= λ success. give (exit_status success)
await_exit quit (recovered gone) = do
  lift quit
  fail_if (not gone) (process "recovered process did not exit after QMP quit")
  give "exited"
await_exit quit unowned = fail (process "run has no process owner")

-- `matches!(state, "running" | "paused" | "stopping")`.
abbrev pub is_stoppable : InstanceState → Bool
is_stoppable s = (as_str s == "running") || (as_str s == "paused") || (as_str s == "stopping")

-- `if current.state != "stopping" { ... }`.
unfoldable pub enter_stopping : String → InstanceState → Action (Unit {0})
enter_stopping id state =
    if as_str state == "stopping" then give tt else (transition_instance id "stopping" >> give tt)

-- `Workspace::stop_instance_async`.
unfoldable pub stop_instance : String → String → Result Error (Unit {0}) → Process → Action Instance
unfolding enter_stopping await_exit
stop_instance id run_id quit owner = do
  current ← instance_row id
  fail_if (not (is_stoppable current.state)) (invalid_transition (as_str current.state) "stopped")
  enter_stopping id current.state
  status ← await_exit quit owner
  finish_run run_id status
  transition_instance id (if status == "failed" then "error" else "stopped")

-- The rest of a recovery, once the run has been reconciled.
unfoldable pub recover_run :
    (ℕ → ℕ → Bool) → String → Result Error String → Run → Action (Option Run)
recover_run alive id observed run =
    if not (run.status == "running")
    then (finish_run run.run_id "failed" >> (mark_error id >> give none))
    else (fail_if (not (alive run.pid run.process_start))
          (process "recorded process is no longer alive")
        >> (lift observed >>= λ status. (observe_run_status alive run status >> give (some run))))

unfoldable pub recover_active :
    (ℕ → ℕ → Bool) → String → Result Error String → Option Run → Action (Option Run)
unfolding recover_run
recover_active alive id observed none = give none
recover_active alive id observed (some active) =
    reconcile_run alive active.run_id >>= recover_run alive id observed

-- `Workspace::recover_instance_run_async`; `observed` is the answer to `query-status` on the
-- connection to the socket of the run.
unfoldable pub recover_instance_run :
    (ℕ → ℕ → Bool) → String → Result Error String → Action (Option Run)
unfolding recover_active
recover_instance_run alive id observed = active_run id >>= recover_active alive id observed

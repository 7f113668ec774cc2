-- ===== src/Storage/Instances.antt =====
-- storage/instances.rs and storage/runs.rs: the rows of instances and runs.
pub mod Requests
pub mod Transition
use text.Mathlib.Text.{◌==◌}
use machineemu.Prelude.{
  ℕ, ◌+◌, Bool, true, false, ◌&&◌, ◌||◌, not, String, Option, none, some, List, [], ◌∷◌, map, ltb,
  ◌==◌ as nat_eq, if◌then◌else◌,
}
use machineemu.Domain.{
  InstanceState, created, stopped, error, allows, as_str, from_str, from_qmp, Error, not_found,
  invalid_transition, run_conflict, active_run as still_active, process, io,
}
use machineemu.Storage.Table.{find, update, insert, delete, select}
use machineemu.Storage.Schema.{Instance, Run, Operation, SnapshotRow, Db}
use machineemu.Storage.Action.{
  Action, give, fail, reads, lift, found_or, writes, fail_if, ◌>>=◌, ◌>>◌,
}

abbrev pub instance_key : Instance → String
instance_key r = r.instance_id

abbrev pub run_key : Run → String
run_key r = r.run_id

-- `Workspace::instance`.
unfoldable pub instance_row : String → Action Instance
instance_row id db = found_or (find instance_key id db.instances) (not_found "instance" id) db

-- `UPDATE instances SET lifecycle = ?, revision = revision + 1`.
abbrev pub enter : InstanceState → Instance → Instance
enter next r = record r { state = next; revision = r.revision + 1 }

unfoldable pub set_lifecycle : String → InstanceState → Db → Db
set_lifecycle id next db = record db {
  instances = update instance_key id (enter next) db.instances;
}

-- `Workspace::transition_instance`.
unfoldable pub transition_instance : String → String → Action Instance
unfolding instance_row set_lifecycle
transition_instance id next_text = do
  current ← instance_row id
  next ← lift (from_str next_text)
  fail_if (not (allows current.state next))
      (invalid_transition (as_str current.state) (as_str next))
  writes (set_lifecycle id next)
  instance_row id

abbrev pub is_some : {A : Type 0} → Option A → Bool
is_some none = false
is_some (some a) = true

-- `Workspace::run`.
unfoldable pub run_row : String → Action Run
run_row id db = found_or (find run_key id db.runs) (not_found "run" id) db

abbrev pub with_status : String → Run → Run
with_status status r = record r { status = status }

unfoldable pub set_status : String → String → Db → Db
set_status id status db = record db { runs = update run_key id (with_status status) db.runs }

abbrev pub new_run : ℕ → String → String → ℕ → ℕ → String → Run
new_run now run_id instance_id pid process_start qmp_socket = record {
  run_id = run_id;
  owner = instance_id;
  pid = pid;
  process_start = process_start;
  qmp_socket = qmp_socket;
  status = "running";
  created_at = now;
}

-- SQLite refuses a second row with the same key.
unfoldable pub insert_run : Run → Action (Unit {0})
insert_run r = do
  taken ← reads (λ db. find run_key r.run_id db.runs)
  fail_if (is_some taken) (run_conflict r.run_id)
  writes λ db. record db { runs = insert run_key r db.runs }

-- `Workspace::record_run`, at the time `now`.
unfoldable pub record_run : ℕ → String → String → ℕ → ℕ → String → Action Run
unfolding instance_row run_row insert_run
record_run now run_id instance_id pid process_start qmp_socket = do
  instance_row instance_id
  insert_run (new_run now run_id instance_id pid process_start qmp_socket)
  run_row run_id

-- `Workspace::finish_run`.
unfoldable pub finish_run : String → String → Action Run
unfolding set_status run_row
finish_run id status = do
  fail_if (not ((status == "exited") || (status == "failed") || (status == "uncertain")))
      (process "invalid terminal run status")
  writes (set_status id status)
  run_row id

-- `status IN ('running', 'starting', 'uncertain')`.
abbrev pub is_active : Run → Bool
is_active r = (r.status == "running") || (r.status == "starting") || (r.status == "uncertain")

-- The newest of the rows; among rows of one time, the first that was inserted.
unfoldable pub newest : List Run → Option Run
newest [] = none
newest (r ∷ rows) = elim (newest rows) [
  | none ↦ some r
  | some later ↦ if ltb r.created_at later.created_at then some later else some r
]

-- `Workspace::active_run`.
unfoldable pub active_run : String → Action (Option Run)
unfolding newest
active_run id db = give (newest (select (λ r. (r.owner == id) && is_active r) db.runs)) db

-- `matches!(state, "starting" | "running" | "paused" | "stopping")`.
abbrev pub is_live_state : InstanceState → Bool
is_live_state s =
    (as_str s == "starting")
    || (as_str s == "running")
    || (as_str s == "paused")
    || (as_str s == "stopping")

-- What a lost run does to its instance.
unfoldable pub mark_error : String → Action (Unit {0})
unfolding transition_instance
mark_error id = do
  current ← instance_row id
  if is_live_state current.state then (transition_instance id "error" >> give tt) else give tt

-- The three columns that `observe_run_status` compares.
abbrev pub is_same_run : Run → Option Run → Bool
is_same_run run none = false
is_same_run run (some active) =
    (active.run_id == run.run_id)
    && (nat_eq active.pid run.pid && nat_eq active.process_start run.process_start)

-- `UPDATE instances SET lifecycle = ?1, ... WHERE ... AND lifecycle != ?1`.
abbrev pub observe : InstanceState → Instance → Instance
observe target r = if as_str r.state == as_str target then r else enter target r

-- Whether the process of a recorded run is alive is an argument: it is read from /proc.
module _ (alive : ℕ → ℕ → Bool) where
  -- `Workspace::reconcile_run`.
  unfoldable pub reconcile_run : String → Action Run
  unfolding run_row set_status
  reconcile_run id = do
    run ← run_row id
    let status = if alive run.pid run.process_start then "running" else "uncertain"
    writes (set_status id status)
    run_row id

  -- `Workspace::live_run`.
  unfoldable pub live_run : String → Action (Option Run)
  live_run id = do
    active ← active_run id
    elim active [
      | none ↦ give none
      | some run ↦ do
        run ← reconcile_run run.run_id
        give (if run.status == "running" then some run else none)
    ]

  -- `Workspace::observe_run_status`.
  unfoldable pub observe_run_status : Run → String → Action Instance
  unfolding instance_row
  observe_run_status run status = do
    target ← lift (from_qmp status)
    active ← active_run run.owner
    fail_if (not (alive run.pid run.process_start) || not (is_same_run run active))
        (process "QMP observation belongs to a stale or dead run")
    writes
        λ db. record db { instances = update instance_key run.owner (observe target) db.instances }
    instance_row run.owner

  unfoldable pub reconcile_all : List String → Action (List Run)
  reconcile_all [] = give []
  reconcile_all (id ∷ ids) = do run ← reconcile_run id; runs ← reconcile_all ids; give (run ∷ runs)

  unfoldable pub mark_errors : List Run → Action (Unit {0})
  mark_errors [] = give tt
  mark_errors (run ∷ runs) = do
    (if run.status == "uncertain" then mark_error run.owner else give tt)
    mark_errors runs

  -- `Workspace::reconcile_active_runs`.
  unfoldable pub reconcile_active_runs : Action (List Run)
  unfolding reconcile_all mark_errors
  reconcile_active_runs = do
    ids ← reads (λ db. map run_key (select is_active db.runs))
    runs ← reconcile_all ids
    mark_errors runs
    give runs

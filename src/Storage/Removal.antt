-- ===== src/Storage/Removal.antt =====
-- storage/instances.rs: the removal of an instance, and the deletions that wait for their directory.
pub mod Gone
pub mod Refused
use text.Mathlib.Text.{◌==◌}
use machineemu.Prelude.{
  ℕ, Bool, true, false, ◌||◌, not, String, Option, none, some, List, [], ◌∷◌, if◌then◌else◌,
}
use machineemu.Domain.{
  InstanceState, stopped, as_str, Error, process, io, sqlite, active_run as still_active,
}
use machineemu.Storage.Table.{find, delete, select}
use machineemu.Storage.Schema.{Instance, Run, Operation, SnapshotRow, Db}
use machineemu.Storage.Action.{Action, give, fail, reads, writes, fail_if, ◌>>=◌, ◌>>◌}
use machineemu.Storage.Instances.{
  instance_row, set_lifecycle, active_run, reconcile_run, finish_run,
}

abbrev pub contains_text : String → List String → Bool
contains_text id [] = false
contains_text id (j ∷ ids) = (j == id) || contains_text id ids

abbrev pub has_rows : {Row : Type 0} → List Row → Bool
has_rows [] = false
has_rows (r ∷ rows) = true

abbrev pub drop_pending : String → Db → Db
drop_pending id db = record db {
  pending_instance_deletions = delete (λ j. j == id) db.pending_instance_deletions;
}

-- The statements of the transaction of `remove_instance`.
unfoldable pub delete_rows : String → Db → Db
delete_rows id db = record db {
  pending_instance_deletions = id ∷ db.pending_instance_deletions;
  operations = delete (λ r. r.owner == id) db.operations;
  runs = delete (λ r. r.owner == id) db.runs;
  instances = delete (λ r. r.instance_id == id) db.instances;
}

-- The transaction; SQLite refuses a second pending deletion of one instance, and then nothing is
-- written.
unfoldable pub delete_transaction : String → Action (Unit {0})
unfolding delete_rows
delete_transaction id = do
  taken ← reads (λ db. contains_text id db.pending_instance_deletions)
  fail_if taken sqlite
  writes (delete_rows id)

abbrev pub is_removable : InstanceState → Bool
is_removable s = (as_str s == "created") || (as_str s == "stopped") || (as_str s == "error")

-- `cleanup` says whether the directory of an instance is gone and the deletion is on disk;
-- `alive`, whether the process of a run is alive.
module _ (cleanup : String → Bool) where
  -- `Workspace::finish_instance_deletion`.
  unfoldable pub finish_instance_deletion : String → Action Bool
  finish_instance_deletion id = do
    pending ← reads (λ db. contains_text id db.pending_instance_deletions)
    if pending
        then (fail_if (not (cleanup id)) io >> writes (drop_pending id) >> give true)
        else give false

  unfoldable pub reconcile_deletions : List String → Action (Unit {0})
  reconcile_deletions [] = give tt
  reconcile_deletions (id ∷ ids) = finish_instance_deletion id >> reconcile_deletions ids

  -- `Workspace::reconcile_instance_deletions`; the stored ids were valid when they were written.
  unfoldable pub reconcile_instance_deletions : Action (Unit {0})
  unfolding reconcile_deletions
  reconcile_instance_deletions = do
    ids ← reads (λ db. db.pending_instance_deletions)
    reconcile_deletions ids

  module _ (alive : ℕ → ℕ → Bool) where
    -- A run that is still recorded as active is closed, unless its process is alive.
    unfoldable pub close_run : String → Option Run → Action (Unit {0})
    close_run id none = give tt
    close_run id (some active) = do
      reconciled ← reconcile_run alive active.run_id
      fail_if (reconciled.status == "running") (still_active id)
      finish_run active.run_id "failed"
      writes (set_lifecycle id stopped)

    -- The part of `remove_instance` for an instance without a pending deletion.
    unfoldable pub remove_present : String → Action (Unit {0})
    unfolding close_run delete_transaction
    remove_present id = do
      instance_row id
      active ← active_run id
      close_run id active
      current ← instance_row id
      fail_if (not (is_removable current.state)) (process "instance must be stopped before removal")
      snapshots ← reads (λ db. select (λ s. s.owner == id) db.snapshots)
      fail_if (has_rows snapshots) (process "instance still has snapshots")
      delete_transaction id
      finish_instance_deletion id
      give tt

    -- `Workspace::remove_instance`.
    unfoldable pub remove_instance : String → Action (Unit {0})
    unfolding remove_present
    remove_instance id = do
      finished ← finish_instance_deletion id
      if finished then give tt else remove_present id

-- ===== src/Storage/Snapshots.antt =====
-- crates/machineemu-core/src/storage/snapshots.rs: the row of a new snapshot. Its files, which are staged
-- and moved before the row is written, and whether its manifest has a new digest are arguments.
use text.Mathlib.Text.{◌==◌}
use machineemu.Prelude.{Bool, ◌||◌, not, String}
use machineemu.Prelude.Result.{Result}
use machineemu.Domain.{as_str, Error, snapshot_requires_stopped, snapshot_conflict}
use machineemu.Storage.Table.{find, insert}
use machineemu.Storage.Schema.{SnapshotRow}
use machineemu.Storage.Action.{Action, give, reads, lift, writes, fail_if, ◌>>=◌, ◌>>◌}
use machineemu.Storage.Instances.{instance_row, is_some}

abbrev pub snapshot_key : SnapshotRow → String
snapshot_key s = s.snapshot_id

-- The statement; the key and the digest of the manifest are unique.
unfoldable pub insert_snapshot : Bool → SnapshotRow → Action SnapshotRow
insert_snapshot new_digest row = do
  taken ← reads (λ db. find snapshot_key row.snapshot_id db.snapshots)
  fail_if (is_some taken || not new_digest) (snapshot_conflict row.snapshot_id)
  writes λ db. record db { snapshots = insert snapshot_key row db.snapshots }
  give row

-- `Workspace::create_snapshot`.
unfoldable pub create_snapshot :
    Result Error (Unit {0}) → Bool → String → String → Action SnapshotRow
unfolding insert_snapshot
create_snapshot staged new_digest snapshot_id id = do
  instance ← instance_row id
  fail_if (not ((as_str instance.state == "created") || (as_str instance.state == "stopped")))
      snapshot_requires_stopped
  lift staged
  insert_snapshot new_digest
      (record { snapshot_id = snapshot_id; owner = id; generation = instance.revision })

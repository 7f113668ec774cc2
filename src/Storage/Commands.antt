-- ===== src/Storage/Commands.antt =====
-- The calls of crates/machineemu-core/src/storage that change these tables, as one type. A call
-- that failed leaves what it wrote before the error.
use machineemu.Prelude.{ℕ, Bool, String, []}
use machineemu.Storage.Schema.{Run, Db}
use machineemu.Storage.Instances.{
  transition_instance, record_run, finish_run, reconcile_run, observe_run_status,
  reconcile_active_runs,
}
use machineemu.Storage.Operations.{begin_operation, complete_operation, fail_operation}
use machineemu.Storage.Removal.{remove_instance, reconcile_instance_deletions}
use machineemu.Storage.Interrupted.{Outcomes, reconcile_operations}
use machineemu.Storage.Snapshots.{create_snapshot}
use machineemu.Storage.Upgrade.{upgrade_instance_engine}
use machineemu.Prelude.Result.{Result}
use machineemu.Domain.{Error}
use machineemu.Storage.Publish.{publish_prepared_instance}

pub data Command : Type 0 where
  publish : String → String → String → Command
  transition : String → String → Command
  record_new_run : ℕ → String → String → ℕ → ℕ → String → Command
  finish_old_run : String → String → Command
  reconcile : String → Command
  observe_status : Run → String → Command
  reconcile_active : Command
  begin : String → String → String → String → String → Command
  complete : String → String → Command
  abandon : String → String → Command
  remove : String → Command
  reconcile_deleted : Command
  reconcile_interrupted : Command
  upgrade : String → Result Error (Unit {0}) → Result Error ℕ → Command
  save_snapshot : Result Error (Unit {0}) → Bool → String → String → Command

-- What the database does not hold: processes, files and digests.
pub record World : Type 0 where
  pub alive : ℕ → ℕ → Bool
  pub cleanup : String → Bool
  pub staged : String → String → Bool
  pub digest : String → String
  pub outcomes : Outcomes

unfoldable pub execute : World → Command → Db → Db
execute w (publish id image profile) db =
    (publish_prepared_instance w.cleanup w.staged id image profile db).1
execute w (transition id next) db = (transition_instance id next db).1
execute w (record_new_run now id owner pid start socket) db =
    (record_run now id owner pid start socket db).1
execute w (finish_old_run id status) db = (finish_run id status db).1
execute w (reconcile id) db = (reconcile_run w.alive id db).1
execute w (observe_status run status) db = (observe_run_status w.alive run status db).1
execute w reconcile_active db = (reconcile_active_runs w.alive db).1
execute w (begin id owner kind key input) db =
    (begin_operation w.digest id owner kind key input db).1
execute w (complete id result) db = (complete_operation id result db).1
execute w (abandon id reason) db = (fail_operation id reason db).1
execute w (remove id) db = (remove_instance w.cleanup w.alive id db).1
execute w reconcile_deleted db = (reconcile_instance_deletions w.cleanup db).1
execute w reconcile_interrupted db = (reconcile_operations w.outcomes db).1
execute w (save_snapshot staged new_digest snapshot_id id) db =
    (create_snapshot staged new_digest snapshot_id id db).1
execute w (upgrade id written revision) db = (upgrade_instance_engine id written revision db).1

abbrev pub empty_db : Db
empty_db = record {
  instances = [];
  runs = [];
  operations = [];
  snapshots = [];
  pending_instance_deletions = [];
}

-- ===== src/Storage/Upgrade.antt =====
-- crates/machineemu-core/src/storage/configuration.rs: what `upgrade_instance_engine` does to the row of the
-- instance. Arguments are the document on disk, whether the checks of the candidate against it pass
-- and it is written, and its content revision afterwards.
use text.Mathlib.Text.{◌==◌}
use machineemu.Prelude.{ℕ, ◌+◌, Bool, ◌||◌, not, String}
use machineemu.Prelude.Result.{Result}
use machineemu.Domain.{InstanceState, as_str, Error, process}
use machineemu.Storage.Table.{update}
use machineemu.Storage.Schema.{Instance}
use machineemu.Storage.Action.{Action, lift, writes, fail_if, ◌>>=◌, ◌>>◌}
use machineemu.Storage.Instances.{instance_key, instance_row, active_run, is_some}

abbrev pub is_upgradable : InstanceState → Bool
is_upgradable s = (as_str s == "created") || (as_str s == "stopped") || (as_str s == "error")

abbrev pub revise : Instance → Instance
revise r = record r { revision = r.revision + 1 }

-- The document is written before the row.
unfoldable pub upgrade_instance_engine :
    String → Result Error (Unit {0}) → Result Error ℕ → Action ℕ
upgrade_instance_engine id written revision = do
  instance ← instance_row id
  active ← active_run id
  fail_if (not (is_upgradable instance.state) || is_some active)
      (process "stop the instance before upgrading its engine")
  lift written
  writes λ db. record db { instances = update instance_key id revise db.instances }
  lift revision

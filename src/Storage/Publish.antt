-- ===== src/Storage/Publish.antt =====
-- storage/instances.rs: the row of a new instance. The files of the instance are staged by the
-- caller; the checks on them, on the image and on the directory are an argument.
use machineemu.Prelude.{Bool, String, not}
use machineemu.Domain.{created, io, sqlite}
use machineemu.Storage.Table.{find, insert}
use machineemu.Storage.Schema.{Instance}
use machineemu.Storage.Action.{Action, reads, writes, fail_if, ◌>>=◌, ◌>>◌}
use machineemu.Storage.Instances.{instance_key, instance_row, is_some}
use machineemu.Storage.Removal.{finish_instance_deletion}

-- The revision is the default of the schema.
abbrev pub new_instance : String → String → String → Instance
new_instance id image_id profile_id = record {
  instance_id = id;
  image_id = image_id;
  profile_id = profile_id;
  state = created;
  revision = 1;
}

-- The transaction; SQLite refuses a second row with the same key.
unfoldable pub insert_instance : Instance → Action (Unit {0})
insert_instance r = do
  taken ← reads (λ db. find instance_key r.instance_id db.instances)
  fail_if (is_some taken) sqlite
  writes λ db. record db { instances = insert instance_key r db.instances }

-- `Workspace::publish_prepared_instance`; `staged` says whether the image is known, the directory
-- of the instance is free and the staged files could be moved there.
unfoldable pub publish_prepared_instance :
    (String → Bool) → (String → String → Bool) → String → String → String → Action Instance
unfolding insert_instance
publish_prepared_instance cleanup staged id image_id profile_id = do
  finish_instance_deletion cleanup id
  fail_if (not (staged id image_id)) io
  insert_instance (new_instance id image_id profile_id)
  instance_row id

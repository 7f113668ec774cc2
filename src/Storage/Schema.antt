-- ===== src/Storage/Schema.antt =====
-- The tables of `Workspace::migrate` that the modelled statements read or write, with the columns
-- that they name.
use machineemu.Prelude.{ℕ, String, Option, List}
use machineemu.Domain.{InstanceState}

-- `domain::Instance`, a row of `instances`.
pub record Instance : Type 0 where
  pub instance_id : String
  pub image_id : String
  pub profile_id : String
  pub state : InstanceState
  pub revision : ℕ

-- `domain::Run`, a row of `runs`, with the time of its insertion.
pub record Run : Type 0 where
  pub run_id : String
  pub owner : String
  pub pid : ℕ
  pub process_start : ℕ
  pub qmp_socket : String
  pub status : String
  pub created_at : ℕ

-- `domain::Operation`, a row of `operations`.
pub record Operation : Type 0 where
  pub operation_id : String
  pub owner : String
  pub kind : String
  pub idempotency_key : String
  pub input_sha256 : String
  pub status : String
  pub result_json : Option String

-- A row of `snapshots`, without its manifest.
pub record SnapshotRow : Type 0 where
  pub snapshot_id : String
  pub owner : String
  pub generation : ℕ

pub record Db : Type 0 where
  pub instances : List Instance
  pub runs : List Run
  pub operations : List Operation
  pub snapshots : List SnapshotRow
  pub pending_instance_deletions : List String

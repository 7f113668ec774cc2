-- ===== src/Storage/Operations.antt =====
-- storage/operations.rs: the operations of an instance and their idempotency keys.
pub mod Idempotent
use text.Mathlib.Text.{◌==◌}
use machineemu.Prelude.{
  ℕ, Bool, true, false, ◌&&◌, ◌||◌, not, String, Option, none, some, List, [], ◌∷◌, map,
  if◌then◌else◌,
}
use machineemu.Domain.{as_str, Error, not_found, operation_conflict, process, sqlite}
use machineemu.Storage.Table.{find, update, insert, delete, select}
use machineemu.Storage.Schema.{Instance, Run, Operation, Db}
use machineemu.Storage.Action.{
  Action, give, fail, reads, lift, found_or, writes, fail_if, ◌>>=◌, ◌>>◌,
}
use machineemu.Storage.Instances.{instance_row, is_some}

abbrev pub operation_key : Operation → String
operation_key r = r.operation_id

-- `Workspace::operation`.
unfoldable pub operation_row : String → Action Operation
operation_row id db = found_or (find operation_key id db.operations) (not_found "operation" id) db

-- `SELECT ... WHERE instance_id = ?1 AND idempotency_key = ?2`.
unfoldable pub find_keyed : String → String → List Operation → Option Operation
find_keyed instance_id key [] = none
find_keyed instance_id key (r ∷ rows) =
    if (r.owner == instance_id) && (r.idempotency_key == key)
    then some r
    else find_keyed instance_id key rows

abbrev pub new_operation : String → String → String → String → String → Operation
new_operation operation_id instance_id kind idempotency_key input_sha256 = record {
  operation_id = operation_id;
  owner = instance_id;
  kind = kind;
  idempotency_key = idempotency_key;
  input_sha256 = input_sha256;
  status = "accepted";
  result_json = none;
}

-- The operation that has the key already is returned, if it is the same request.
abbrev pub repeated : String → String → String → Operation → Action Operation
repeated kind key hash existing =
    if not (existing.kind == kind) || not (existing.input_sha256 == hash)
    then fail (operation_conflict key)
    else give existing

-- SQLite refuses a second row with the same operation id, and the error is passed on.
unfoldable pub insert_operation : Operation → Option Operation → Action Operation
insert_operation r (some taken) = fail sqlite
insert_operation r none =
    writes (λ db. record db { operations = insert operation_key r db.operations }) >> give r

-- The second half of `begin_operation`, given the row with the key.
unfoldable pub begin_with : Operation → Option Operation → Action Operation
unfolding insert_operation
begin_with r (some existing) = repeated r.kind r.idempotency_key r.input_sha256 existing
begin_with r none = do
  taken ← reads (λ db. find operation_key r.operation_id db.operations)
  insert_operation r taken

-- `Workspace::begin_operation`; `digest` is the SHA-256 of the input, in hexadecimal.
unfoldable pub begin_operation :
    (String → String) → String → String → String → String → String → Action Operation
unfolding begin_with find_keyed
begin_operation digest operation_id instance_id kind idempotency_key input_json = do
  instance_row instance_id
  existing ← reads (λ db. find_keyed instance_id idempotency_key db.operations)
  begin_with (new_operation operation_id instance_id kind idempotency_key (digest input_json))
      existing

abbrev pub with_result : String → String → Operation → Operation
with_result status result_json r = record r { status = status; result_json = some result_json }

unfoldable pub set_result : String → String → String → Db → Db
set_result id status result_json db = record db {
  operations = update operation_key id (with_result status result_json) db.operations;
}

-- `Workspace::complete_operation`.
unfoldable pub complete_operation : String → String → Action Operation
unfolding set_result operation_row
complete_operation id result_json = do
  existing ← reads (λ db. find operation_key id db.operations)
  writes (set_result id "completed" result_json)
  fail_if (not (is_some existing)) (not_found "operation" id)
  operation_row id

abbrev pub is_accepted : Option Operation → Bool
is_accepted none = false
is_accepted (some r) = r.status == "accepted"

-- `Workspace::fail_operation`; `reason_json` is the JSON object that holds the reason.
unfoldable pub fail_operation : String → String → Action Operation
unfolding set_result operation_row
fail_operation id reason_json = do
  existing ← reads (λ db. find operation_key id db.operations)
  (if is_accepted existing then writes (set_result id "failed" reason_json) else give tt)
  fail_if (not (is_accepted existing)) (process "operation is not accepted")
  operation_row id

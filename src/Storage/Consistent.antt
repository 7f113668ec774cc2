-- ===== src/Storage/Consistent.antt =====
-- crates/machineemu-core/src/storage: the invariant of the tables, and the statements under it.
pub mod Calls
pub mod Commands
pub mod Operations
use text.Mathlib.Text.{◌==◌}
use machineemu.Prelude.{
  ℕ, ◌+◌, ◌≤◌, ◌≡◌, ◌≢◌, refl, Bool, true, false, String, eq_iff, Option, none, some, List, [], ◌∷◌,
  arith, if◌then◌else◌, All, Bool-cases, inl, inr,
}
use machineemu.Prelude.Result.{Result, ok, err}
use machineemu.Domain.{InstanceState}
use machineemu.Storage.Table.{find, update, insert, delete, select, find-update, find-insert}
use machineemu.Storage.Table.Laws.{
  Unique, Unique-update, Unique-insert, Unique-delete, find-delete, All-update, All-insert, All-map,
  All-delete_keeps, All-delete_sublist, find-update-none, find-delete-none, find-insert-none,
}
use machineemu.Storage.Schema.{Instance, Run, Operation, SnapshotRow, Db}
use machineemu.Storage.Instances.{
  instance_key, run_key, enter, observe, set_lifecycle, set_status, with_status,
}
use machineemu.Storage.Operations.{operation_key, with_result, set_result}
use machineemu.Storage.Snapshots.{snapshot_key}
use machineemu.Storage.Removal.{delete_rows, drop_pending}

-- The instance has a row.
abbrev pub Has : List Instance → String → Type 0
Has rows id = find instance_key id rows ≢ none

-- No id of a deletion that waits for its directory has a row, or is listed twice.
abbrev pub AreGone : List Instance → List String → Type 0
AreGone rows ids = All (λ id. find instance_key id rows ≡ none) ids

pub record IsConsistent (db : Db) : Type 0 where
  pub instances_unique : Unique instance_key db.instances
  pub runs_unique : Unique run_key db.runs
  pub operations_unique : Unique operation_key db.operations
  pub runs_owned : All (λ r. Has db.instances r.owner) db.runs
  pub operations_owned : All (λ r. Has db.instances r.owner) db.operations
  pub revisions : All (λ r. 1 ≤ r.revision) db.instances
  pub snapshots_unique : Unique snapshot_key db.snapshots
  pub snapshots_owned : All (λ s. Has db.instances s.owner) db.snapshots
  pub pending_unique : Unique (λ id. id) db.pending_instance_deletions
  pub pending_gone : AreGone db.instances db.pending_instance_deletions

Has-update :
    (id j : String) (change : Instance → Instance) (rows : List Instance)
    → ((r : Instance) → instance_key (change r) ≡ instance_key r)
    → Has rows j
    → Has (update instance_key id change rows) j
Has-update id j change rows same h e =
    ground (arith, find-update instance_key id j change rows same, h)

Has-delete :
    (id j : String) (rows : List Instance)
    → Has rows j
    → (j == id) ≡ false
    → Has (delete (λ r. instance_key r == id) rows) j
Has-delete id j rows h ne e =
    ground (arith, find-delete instance_key id j rows, eq_iff id j, eq_iff j id, h)

-- An update of instances that keeps their keys.
pub IsConsistent-change :
    (id : String) (change : Instance → Instance) (db : Db)
    → ((r : Instance) → instance_key (change r) ≡ instance_key r)
    → ((r : Instance) → 1 ≤ r.revision → 1 ≤ (change r).revision)
    → IsConsistent db
    → IsConsistent (record db { instances = update instance_key id change db.instances })
IsConsistent-change id change db same more h = record {
  instances_unique = Unique-update instance_key id change db.instances same h.instances_unique;
  runs_unique = h.runs_unique;
  operations_unique = h.operations_unique;
  runs_owned =
      All-map (λ r. Has db.instances r.owner) _ db.runs
        (λ r k. Has-update id r.owner change db.instances same k) h.runs_owned;
  operations_owned =
      All-map (λ r. Has db.instances r.owner) _ db.operations
        (λ r k. Has-update id r.owner change db.instances same k) h.operations_owned;
  revisions = All-update instance_key (λ r. 1 ≤ r.revision) id change db.instances more h.revisions;
  snapshots_unique = h.snapshots_unique;
  snapshots_owned =
      All-map (λ r. Has db.instances r.owner) _ db.snapshots
        (λ r k. Has-update id r.owner change db.instances same k) h.snapshots_owned;
  pending_unique = h.pending_unique;
  pending_gone =
      All-map (λ j. find instance_key j db.instances ≡ none) _ db.pending_instance_deletions
        (λ j k. find-update-none instance_key id j change db.instances same k) h.pending_gone;
}

pub IsConsistent-set_lifecycle :
    (id : String) (next : InstanceState) (db : Db)
    → IsConsistent db
    → IsConsistent (set_lifecycle id next db)
unfolding set_lifecycle
IsConsistent-set_lifecycle id next db h =
    IsConsistent-change id (enter next) db (λ r. refl) (λ r k. omega arith) h

observe-key :
    (target : InstanceState) (r : Instance) → instance_key (observe target r) ≡ instance_key r
observe-key target r = ground arith

observe-revision :
    (target : InstanceState) (r : Instance) → 1 ≤ r.revision → 1 ≤ (observe target r).revision
observe-revision target r h = ground arith

pub IsConsistent-observe :
    (id : String) (target : InstanceState) (db : Db)
    → IsConsistent db
    → IsConsistent (record db { instances = update instance_key id (observe target) db.instances })
IsConsistent-observe id target db h =
    IsConsistent-change id (observe target) db (observe-key target) (observe-revision target) h

pub IsConsistent-set_status :
    (id status : String) (db : Db) → IsConsistent db → IsConsistent (set_status id status db)
unfolding set_status
IsConsistent-set_status id status db h = record {
  instances_unique = h.instances_unique;
  runs_unique = Unique-update run_key id (with_status status) db.runs (λ r. refl) h.runs_unique;
  operations_unique = h.operations_unique;
  runs_owned =
      All-update run_key (λ r. Has db.instances r.owner) id (with_status status) db.runs (λ r k. k)
        h.runs_owned;
  operations_owned = h.operations_owned;
  revisions = h.revisions;
  snapshots_unique = h.snapshots_unique;
  snapshots_owned = h.snapshots_owned;
  pending_unique = h.pending_unique;
  pending_gone = h.pending_gone;
}

pub IsConsistent-insert_run :
    (new : Run) (db : Db)
    → find run_key new.run_id db.runs ≡ none
    → Has db.instances new.owner
    → IsConsistent db
    → IsConsistent (record db { runs = insert run_key new db.runs })
IsConsistent-insert_run new db free owned h = record {
  instances_unique = h.instances_unique;
  runs_unique = Unique-insert run_key new db.runs free h.runs_unique;
  operations_unique = h.operations_unique;
  runs_owned = All-insert run_key (λ r. Has db.instances r.owner) new db.runs owned h.runs_owned;
  operations_owned = h.operations_owned;
  revisions = h.revisions;
  snapshots_unique = h.snapshots_unique;
  snapshots_owned = h.snapshots_owned;
  pending_unique = h.pending_unique;
  pending_gone = h.pending_gone;
}

pub IsConsistent-insert_operation :
    (new : Operation) (db : Db)
    → find operation_key new.operation_id db.operations ≡ none
    → Has db.instances new.owner
    → IsConsistent db
    → IsConsistent (record db { operations = insert operation_key new db.operations })
IsConsistent-insert_operation new db free owned h = record {
  instances_unique = h.instances_unique;
  runs_unique = h.runs_unique;
  operations_unique = Unique-insert operation_key new db.operations free h.operations_unique;
  runs_owned = h.runs_owned;
  operations_owned =
      All-insert operation_key (λ r. Has db.instances r.owner) new db.operations owned
        h.operations_owned;
  revisions = h.revisions;
  snapshots_unique = h.snapshots_unique;
  snapshots_owned = h.snapshots_owned;
  pending_unique = h.pending_unique;
  pending_gone = h.pending_gone;
}

pub IsConsistent-set_result :
    (id status result : String) (db : Db)
    → IsConsistent db
    → IsConsistent (set_result id status result db)
unfolding set_result
IsConsistent-set_result id status result db h = record {
  instances_unique = h.instances_unique;
  runs_unique = h.runs_unique;
  operations_unique =
      Unique-update operation_key id (with_result status result) db.operations (λ r. refl)
        h.operations_unique;
  runs_owned = h.runs_owned;
  operations_owned =
      All-update operation_key (λ r. Has db.instances r.owner) id (with_result status result)
        db.operations (λ r k. k) h.operations_owned;
  revisions = h.revisions;
  snapshots_unique = h.snapshots_unique;
  snapshots_owned = h.snapshots_owned;
  pending_unique = h.pending_unique;
  pending_gone = h.pending_gone;
}

Has-insert :
    (j : String) (new : Instance) (rows : List Instance)
    → find instance_key (instance_key new) rows ≡ none
    → Has rows j
    → Has (insert instance_key new rows) j
Has-insert j new rows free h e = ground (arith, find-insert instance_key j new rows free, h)

AreGone-insert :
    (new : Instance) (rows : List Instance) (ids : List String)
    → find (λ id. id) new.instance_id ids ≡ none
    → AreGone rows ids
    → AreGone (insert instance_key new rows) ids
unfolding find
AreGone-insert new rows [] unpending gone = tt
AreGone-insert new rows (j ∷ ids) unpending gone =
    let other : (new.instance_id == j) ≡ false =
      ground (arith, eq_iff j new.instance_id, eq_iff new.instance_id j) in
    let rest : find (λ id. id) new.instance_id ids ≡ none = ground arith in
    (find-insert-none instance_key j new rows gone.0 other, AreGone-insert new rows ids rest gone.1)

pub IsConsistent-insert_instance :
    (new : Instance) (db : Db)
    → find instance_key new.instance_id db.instances ≡ none
    → 1 ≤ new.revision
    → find (λ id. id) new.instance_id db.pending_instance_deletions ≡ none
    → IsConsistent db
    → IsConsistent (record db { instances = insert instance_key new db.instances })
IsConsistent-insert_instance new db free first unpending h = record {
  instances_unique = Unique-insert instance_key new db.instances free h.instances_unique;
  runs_unique = h.runs_unique;
  operations_unique = h.operations_unique;
  runs_owned =
      All-map (λ r. Has db.instances r.owner) _ db.runs
        (λ r k. Has-insert r.owner new db.instances free k) h.runs_owned;
  operations_owned =
      All-map (λ r. Has db.instances r.owner) _ db.operations
        (λ r k. Has-insert r.owner new db.instances free k) h.operations_owned;
  revisions = All-insert instance_key (λ r. 1 ≤ r.revision) new db.instances first h.revisions;
  snapshots_unique = h.snapshots_unique;
  snapshots_owned =
      All-map (λ r. Has db.instances r.owner) _ db.snapshots
        (λ r k. Has-insert r.owner new db.instances free k) h.snapshots_owned;
  pending_unique = h.pending_unique;
  pending_gone =
      AreGone-insert new db.instances db.pending_instance_deletions unpending h.pending_gone;
}

-- The transaction deletes the instance with everything that refers to it.
pub IsConsistent-insert_snapshot :
    (new : SnapshotRow) (db : Db)
    → find snapshot_key new.snapshot_id db.snapshots ≡ none
    → Has db.instances new.owner
    → IsConsistent db
    → IsConsistent (record db { snapshots = insert snapshot_key new db.snapshots })
IsConsistent-insert_snapshot new db free owned h = record {
  instances_unique = h.instances_unique;
  runs_unique = h.runs_unique;
  operations_unique = h.operations_unique;
  runs_owned = h.runs_owned;
  operations_owned = h.operations_owned;
  revisions = h.revisions;
  snapshots_unique = Unique-insert snapshot_key new db.snapshots free h.snapshots_unique;
  snapshots_owned =
      All-insert snapshot_key (λ r. Has db.instances r.owner) new db.snapshots owned
        h.snapshots_owned;
  pending_unique = h.pending_unique;
  pending_gone = h.pending_gone;
}

-- Snapshots of other instances keep their owner.
snapshots_left :
    (id : String) (rows : List Instance) (snapshots : List SnapshotRow)
    → select (λ s. s.owner == id) snapshots ≡ []
    → All (λ s. Has rows s.owner) snapshots
    → All (λ s. Has (delete (λ r. instance_key r == id) rows) s.owner) snapshots
unfolding select
snapshots_left id rows [] unsaved h = tt
snapshots_left id rows (s ∷ snapshots) unsaved h = elim (Bool-cases (s.owner == id)) [
  | inl same ↦ absurd (let left = rw same at unsaved in cc left)
  | inr other ↦
      let rest : select (λ s. s.owner == id) snapshots ≡ [] =
        (let left = rw other at unsaved in left) in
      (Has-delete id s.owner rows h.0 other, snapshots_left id rows snapshots rest h.1)
]

pub IsConsistent-delete_rows :
    (id : String) (db : Db)
    → find (λ j. j) id db.pending_instance_deletions ≡ none
    → select (λ s. s.owner == id) db.snapshots ≡ []
    → IsConsistent db
    → IsConsistent (delete_rows id db)
unfolding delete_rows
IsConsistent-delete_rows id db unpending unsaved h = record {
  instances_unique = Unique-delete instance_key _ db.instances h.instances_unique;
  runs_unique = Unique-delete run_key _ db.runs h.runs_unique;
  operations_unique = Unique-delete operation_key _ db.operations h.operations_unique;
  runs_owned =
      All-map (λ r. Has db.instances r.owner × ((r.owner == id) ≡ false)) _ _
        (λ r k. Has-delete id r.owner db.instances k.0 k.1)
        (All-delete_keeps (λ r. Has db.instances r.owner) _ db.runs h.runs_owned);
  operations_owned =
      All-map (λ r. Has db.instances r.owner × ((r.owner == id) ≡ false)) _ _
        (λ r k. Has-delete id r.owner db.instances k.0 k.1)
        (All-delete_keeps (λ r. Has db.instances r.owner) _ db.operations h.operations_owned);
  revisions = All-delete_sublist (λ r. 1 ≤ r.revision) _ db.instances h.revisions;
  snapshots_unique = h.snapshots_unique;
  snapshots_owned = snapshots_left id db.instances db.snapshots unsaved h.snapshots_owned;
  pending_unique = (unpending, h.pending_unique);
  pending_gone = (
    ground (arith, find-delete instance_key id id db.instances, eq_iff id id),
    All-map (λ j. find instance_key j db.instances ≡ none) _ db.pending_instance_deletions
        (λ j k. find-delete-none instance_key _ j db.instances k) h.pending_gone,
  );
}

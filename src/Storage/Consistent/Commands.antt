-- ===== src/Storage/Consistent/Commands.antt =====
-- crates/machineemu-core/src/storage: removals, publications, snapshots, upgrades and all commands under
-- the invariant of Consistent.
use text.Mathlib.Text.{◌==◌}
use machineemu.Prelude.{
  ℕ, ◌≤◌, ◌≡◌, refl, eq_iff, arith, Bool-cases, Bool, true, false, String, ◌||◌, Option, none, some,
  List, [], ◌∷◌, not, Option-cases, inl, inr,
}
use machineemu.Domain.{
  as_str, Error, snapshot_requires_stopped, stopped, process, io, active_run as still_active,
}
use machineemu.Storage.Table.{find, select, update, delete}
use machineemu.Storage.Schema.{Instance, Run, SnapshotRow, Db}
use machineemu.Storage.Action.{reads, give, lift, fail_if, writes, ◌>>=◌, ◌>>◌}
use machineemu.Storage.Keeps.{Keeps-give, Keeps-fail_if, Keeps-bind, Keeps-bind_at, Keeps-if}
use machineemu.Storage.Instances.{instance_key, instance_row}
use machineemu.Storage.Removal.{
  contains_text, has_rows, is_removable, drop_pending, delete_transaction, finish_instance_deletion,
  close_run, remove_present, remove_instance, reconcile_deletions, reconcile_instance_deletions,
}
use machineemu.Prelude.Result.{Result, ok}
use machineemu.Storage.Snapshots.{snapshot_key, insert_snapshot, create_snapshot}
use machineemu.Storage.Upgrade.{revise, upgrade_instance_engine}
use machineemu.Storage.Table.Laws.{Unique-delete, All-delete_sublist, find-delete}
use machineemu.Storage.Publish.{new_instance, insert_instance, publish_prepared_instance}
use machineemu.Storage.Commands.{
  Command, publish, transition, record_new_run, finish_old_run, reconcile, observe_status,
  reconcile_active, begin, complete, abandon, remove, reconcile_deleted, reconcile_interrupted,
  save_snapshot, upgrade, World, execute,
}
use machineemu.Storage.Consistent.{
  Has, IsConsistent, IsConsistent-change, IsConsistent-insert_snapshot,
  IsConsistent-insert_instance, IsConsistent-delete_rows,
}
use machineemu.Storage.Consistent.Operations.{
  K-begin_operation, K-complete_operation, K-fail_operation, K-reconcile_operations,
}
use machineemu.Storage.Consistent.Calls.{
  K, K-instance_row, K-lift, instance_found, K-set_lifecycle, K-reads, K-transition_instance,
  K-finish_run, K-active_run, K-reconcile_run, K-observe_run_status, K-reconcile_active_runs,
  K-record_run,
}

K-drop_pending : (id : String) → K (writes (drop_pending id))
K-drop_pending id = record {
  at = λ db h. record {
    instances_unique = h.instances_unique;
    runs_unique = h.runs_unique;
    operations_unique = h.operations_unique;
    runs_owned = h.runs_owned;
    operations_owned = h.operations_owned;
    revisions = h.revisions;
    snapshots_unique = h.snapshots_unique;
    snapshots_owned = h.snapshots_owned;
    pending_unique = Unique-delete (λ j. j) _ db.pending_instance_deletions h.pending_unique;
    pending_gone =
        All-delete_sublist (λ j. find instance_key j db.instances ≡ none) _
          db.pending_instance_deletions h.pending_gone;
  };
}

contains-find :
    (id : String) (ids : List String) → contains_text id ids ≡ false → find (λ j. j) id ids ≡ none
unfolding find
contains-find id [] free = refl
contains-find id (j ∷ ids) free = ground (arith, contains-find id ids)

find-delete_self :
    (id : String) (ids : List String) → find (λ j. j) id (delete (λ j. j == id) ids) ≡ none
find-delete_self id ids = ground (arith, find-delete (λ j. j) id id ids, eq_iff id id)

-- A row is inserted under a key that is free and not pending.
insert_instance_keeps :
    (new : Instance) (db : Db)
    → 1 ≤ new.revision
    → find (λ j. j) new.instance_id db.pending_instance_deletions ≡ none
    → IsConsistent db
    → IsConsistent (insert_instance new db).1
unfolding insert_instance
insert_instance_keeps new db first unpending h =
    elim (Option-cases (find instance_key new.instance_id db.instances)) [
      | inl e ↦ rw e (IsConsistent-insert_instance new db e first unpending h)
      | inr (a, e) ↦ rw e h
    ]

insert_snapshot_keeps :
    (new_digest : Bool) (new : SnapshotRow) (db : Db)
    → Has db.instances new.owner
    → IsConsistent db
    → IsConsistent (insert_snapshot new_digest new db).1
unfolding insert_snapshot
insert_snapshot_keeps false new db owned h =
    elim (Option-cases (find snapshot_key new.snapshot_id db.snapshots)) [
      | inl e ↦ rw e h
      | inr (a, e) ↦ rw e h
    ]
insert_snapshot_keeps true new db owned h =
    elim (Option-cases (find snapshot_key new.snapshot_id db.snapshots)) [
      | inl e ↦ rw e (IsConsistent-insert_snapshot new db e owned h)
      | inr (a, e) ↦ rw e h
    ]

K-create_snapshot :
    (staged : Result Error (Unit {0})) (new_digest : Bool) (snapshot_id id : String)
    → K (create_snapshot staged new_digest snapshot_id id)
unfolding create_snapshot
K-create_snapshot staged new_digest snapshot_id id = record {
  at = λ db h.
      Keeps-bind_at IsConsistent (instance_row id) _ db ((K-instance_row id).at db h) λ r found.
        Keeps-bind_at IsConsistent
          (fail_if (not ((as_str r.state == "created") || (as_str r.state == "stopped")))
            snapshot_requires_stopped)
          _ _ ((K-instance_row id).at db h)
          λ _ _. Keeps-bind_at IsConsistent (lift staged) _ _ ((K-instance_row id).at db h) λ _ _.
            insert_snapshot_keeps new_digest _ _ (instance_found id db r found)
              ((K-instance_row id).at db h);
}

K-upgrade_instance_engine :
    (id : String) (written : Result Error (Unit {0})) (revision : Result Error ℕ)
    → K (upgrade_instance_engine id written revision)
unfolding upgrade_instance_engine
K-upgrade_instance_engine id written revision = Keeps-bind IsConsistent _ _ (K-instance_row id) λ r.
    Keeps-bind IsConsistent _ _ (K-active_run id) λ active.
      Keeps-bind IsConsistent _ _ (Keeps-fail_if IsConsistent _ _) λ _.
        Keeps-bind IsConsistent _ _ (K-lift written) λ _.
          Keeps-bind IsConsistent
            (writes λ db. record db { instances = update instance_key id revise db.instances }) _
            (record {
              at = λ db h. IsConsistent-change id revise db (λ r. refl) (λ r k. omega arith) h;
            })
            λ _. K-lift revision

module _ (cleanup : String → Bool) where
  K-finish_instance_deletion : (id : String) → K (finish_instance_deletion cleanup id)
  unfolding finish_instance_deletion
  K-finish_instance_deletion id =
      Keeps-bind IsConsistent _ _ (K-reads (λ db. contains_text id db.pending_instance_deletions))
        λ pending.
          Keeps-if IsConsistent pending _ _
            (Keeps-bind IsConsistent _ _
              (Keeps-bind IsConsistent _ _ (Keeps-fail_if IsConsistent (not (cleanup id)) io)
                (λ _. K-drop_pending id))
              (λ _. Keeps-give IsConsistent true))
            (Keeps-give IsConsistent false)

  K-reconcile_deletions : (ids : List String) → K (reconcile_deletions cleanup ids)
  unfolding reconcile_deletions
  K-reconcile_deletions [] = Keeps-give IsConsistent tt
  K-reconcile_deletions (id ∷ ids) =
      Keeps-bind IsConsistent _ _ (K-finish_instance_deletion id) λ _. K-reconcile_deletions ids

  K-reconcile_instance_deletions : K (reconcile_instance_deletions cleanup)
  unfolding reconcile_instance_deletions
  K-reconcile_instance_deletions =
      Keeps-bind IsConsistent _ _ (K-reads (λ db. db.pending_instance_deletions))
        λ ids. K-reconcile_deletions ids

  -- After a check for a pending deletion, or its end, there is none.
  finish-unpending :
      (id : String) (db : Db) (b : Bool)
      → (finish_instance_deletion cleanup id db).0 ≡ ok b
      → find (λ j. j) id (finish_instance_deletion cleanup id db).1.pending_instance_deletions
        ≡ none
  unfolding finish_instance_deletion
  finish-unpending id db b done =
      elim (Bool-cases (contains_text id db.pending_instance_deletions)) [
        | inr free ↦ rw free (contains-find id db.pending_instance_deletions free)
        | inl pending ↦ elim (Bool-cases (cleanup id)) [
          | inl cleaned ↦ rw (pending, cleaned) (find-delete_self id db.pending_instance_deletions)
          | inr stuck ↦ absurd (let failed = rw (pending, stuck) at done in cc failed)
        ]
      ]

  K-publish_prepared_instance :
      (staged : String → String → Bool) (id image profile : String)
      → K (publish_prepared_instance cleanup staged id image profile)
  unfolding publish_prepared_instance
  K-publish_prepared_instance staged id image profile = record {
    at = λ db h.
        let kept = (K-finish_instance_deletion id).at db h in
        Keeps-bind_at IsConsistent (finish_instance_deletion cleanup id) _ db kept λ b done.
          Keeps-bind_at IsConsistent (fail_if (not (staged id image)) io) _ _ kept λ _ _.
            let inserted =
              insert_instance_keeps (new_instance id image profile) _ (omega arith)
                (finish-unpending id db b done) kept in
            Keeps-bind_at IsConsistent (insert_instance (new_instance id image profile)) _ _
              inserted λ _ _. (K-instance_row id).at _ inserted;
  }

  module _ (alive : ℕ → ℕ → Bool) where
    K-close_run : (id : String) (active : Option Run) → K (close_run cleanup alive id active)
    unfolding close_run
    K-close_run id none = Keeps-give IsConsistent tt
    K-close_run id (some active) =
        Keeps-bind IsConsistent _ _ (K-reconcile_run alive active.run_id) λ reconciled.
          Keeps-bind IsConsistent _ _
            (Keeps-fail_if IsConsistent (reconciled.status == "running") (still_active id))
            λ _.
              Keeps-bind IsConsistent _ _ (K-finish_run active.run_id "failed")
                λ _. K-set_lifecycle id stopped

    deleted :
        (id : String) (db : Db)
        → select (λ s. s.owner == id) db.snapshots ≡ []
        → IsConsistent db
        → IsConsistent (delete_transaction id db).1
    unfolding delete_transaction
    deleted id db unsaved h = elim (Bool-cases (contains_text id db.pending_instance_deletions)) [
      | inl taken ↦ rw taken h
      | inr free ↦ rw free (
          IsConsistent-delete_rows id db (contains-find id db.pending_instance_deletions free)
            unsaved h)
    ]

    no_rows :
        (rows : List SnapshotRow) (e : Error) (db : Db) (u : Unit {0})
        → (fail_if (has_rows rows) e db).0 ≡ ok u
        → rows ≡ []
    no_rows [] e db u h = refl
    no_rows (s ∷ rows) e db u h = cc h

    -- The rows of an instance are deleted once it has no snapshots.
    K-delete_unsaved :
        (id : String)
        → K (
            reads (λ db. select (λ s. s.owner == id) db.snapshots) >>= λ snapshots.
            fail_if (has_rows snapshots) (process "instance still has snapshots")
            >> (delete_transaction id >> (finish_instance_deletion cleanup id >> give tt)))
    K-delete_unsaved id = record {
      at = λ db h.
          let rows = select (λ s. s.owner == id) db.snapshots in
          Keeps-bind_at IsConsistent
            (fail_if (has_rows rows) (process "instance still has snapshots")) _ db h
            λ u checked.
              let gone =
                deleted id db (no_rows rows (process "instance still has snapshots") db u checked)
                  h in
              Keeps-bind_at IsConsistent (delete_transaction id) _ db gone λ _ _.
                (Keeps-bind IsConsistent _ _ (K-finish_instance_deletion id)
                    λ _. Keeps-give IsConsistent tt).at
                  _ gone;
    }

    K-remove_present : (id : String) → K (remove_present cleanup alive id)
    unfolding remove_present
    K-remove_present id = Keeps-bind IsConsistent _ _ (K-instance_row id) λ _.
        Keeps-bind IsConsistent _ _ (K-active_run id) λ active.
          Keeps-bind IsConsistent _ _ (K-close_run id active) λ _.
            Keeps-bind IsConsistent _ _ (K-instance_row id) λ current.
              Keeps-bind IsConsistent _ _
                (Keeps-fail_if IsConsistent (not (is_removable current.state))
                  (process "instance must be stopped before removal"))
                λ _. K-delete_unsaved id

    pub K-remove_instance : (id : String) → K (remove_instance cleanup alive id)
    unfolding remove_instance
    K-remove_instance id = Keeps-bind IsConsistent _ _ (K-finish_instance_deletion id) λ finished.
        Keeps-if IsConsistent finished _ _ (Keeps-give IsConsistent tt) (K-remove_present id)

pub execute-IsConsistent :
    (w : World) (c : Command) (db : Db) → IsConsistent db → IsConsistent (execute w c db)
unfolding execute
execute-IsConsistent w (publish id image profile) db =
    (K-publish_prepared_instance w.cleanup w.staged id image profile).at db
execute-IsConsistent w (transition id next) db = (K-transition_instance id next).at db
execute-IsConsistent w (record_new_run now id owner pid start socket) db =
    (K-record_run now id owner pid start socket).at db
execute-IsConsistent w (finish_old_run id status) db = (K-finish_run id status).at db
execute-IsConsistent w (reconcile id) db = (K-reconcile_run w.alive id).at db
execute-IsConsistent w (observe_status run status) db =
    (K-observe_run_status w.alive run status).at db
execute-IsConsistent w reconcile_active db = (K-reconcile_active_runs w.alive).at db
execute-IsConsistent w (begin id owner kind key input) db =
    (K-begin_operation w.digest id owner kind key input).at db
execute-IsConsistent w (complete id result) db = (K-complete_operation id result).at db
execute-IsConsistent w (abandon id reason) db = (K-fail_operation id reason).at db
execute-IsConsistent w (remove id) db = (K-remove_instance w.cleanup w.alive id).at db
execute-IsConsistent w reconcile_deleted db = (K-reconcile_instance_deletions w.cleanup).at db
execute-IsConsistent w reconcile_interrupted db = (K-reconcile_operations w.outcomes).at db
execute-IsConsistent w (save_snapshot staged new_digest snapshot_id id) db =
    (K-create_snapshot staged new_digest snapshot_id id).at db
execute-IsConsistent w (upgrade id written revision) db =
    (K-upgrade_instance_engine id written revision).at db

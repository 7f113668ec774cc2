-- ===== src/Storage/Removal/Gone.antt =====
-- storage/instances.rs: what is left of an instance that `remove_instance` removed.
use text.Mathlib.Text.{◌==◌}
use machineemu.Prelude.{
  ℕ, ◌≡◌, refl, Bool, true, false, String, eq_iff, none, not, arith, All, Bool-cases, inl, inr,
}
use machineemu.Prelude.Result.{ok}
use machineemu.Domain.{io, process}
use machineemu.Storage.Table.{find, select, All-delete}
use machineemu.Storage.Table.Laws.{find-delete}
use machineemu.Storage.Schema.{Db}
use machineemu.Storage.Action.{reads, writes, fail_if, ◌>>◌}
use machineemu.Storage.Keeps.{
  Keeps, Keeps-give, Keeps-fail_if, Keeps-bind, Keeps-if, Ends, Ends-bind, Ends-before,
}
use machineemu.Storage.Instances.{instance_key, instance_row, active_run}
use machineemu.Storage.Removal.{
  contains_text, has_rows, is_removable, drop_pending, delete_rows, delete_transaction,
  finish_instance_deletion, close_run, remove_present, remove_instance,
}

-- No row of the instance, of its runs or of its operations.
abbrev pub IsGone : String → Db → Type 0
IsGone id db =
    (find instance_key id db.instances ≡ none)
    × All (λ r. (r.owner == id) ≡ false) db.runs
    × All (λ r. (r.owner == id) ≡ false) db.operations

delete_rows-IsGone : (id : String) (db : Db) → IsGone id (delete_rows id db)
unfolding delete_rows
delete_rows-IsGone id db = (
  ground (arith, find-delete instance_key id id db.instances, eq_iff id id),
  All-delete (λ r. r.owner == id) db.runs,
  All-delete (λ r. r.owner == id) db.operations,
)

delete-Ends : (id : String) → Ends (IsGone id) (delete_transaction id)
unfolding delete_transaction
delete-Ends id = record {
  at = λ db a h. elim (Bool-cases (contains_text id db.pending_instance_deletions)) [
    | inl taken ↦ absurd (let refused = rw taken at h in cc refused)
    | inr free ↦ rw free (delete_rows-IsGone id db)
  ];
}

module _ (cleanup : String → Bool) where
  finish-Keeps : (id j : String) → Keeps (IsGone j) (finish_instance_deletion cleanup id)
  unfolding finish_instance_deletion
  finish-Keeps id j =
      Keeps-bind (IsGone j) (reads (λ db. contains_text id db.pending_instance_deletions)) _
        (record { at = λ db h. h })
        λ pending.
          Keeps-if (IsGone j) pending _ _
            (Keeps-bind (IsGone j) (fail_if (not (cleanup id)) io >> writes (drop_pending id)) _
              (Keeps-bind (IsGone j) (fail_if (not (cleanup id)) io) _
                (Keeps-fail_if (IsGone j) (not (cleanup id)) io) (λ _. record { at = λ db h. h }))
              (λ _. Keeps-give (IsGone j) true))
            (Keeps-give (IsGone j) false)

  nothing_pending :
      (id : String) (db : Db)
      → contains_text id db.pending_instance_deletions ≡ false
      → finish_instance_deletion cleanup id db ≡ (ok false, db)
  unfolding finish_instance_deletion
  nothing_pending id db h = rw h refl

  module _ (alive : ℕ → ℕ → Bool) where
    present-Ends : (id : String) → Ends (IsGone id) (remove_present cleanup alive id)
    unfolding remove_present
    present-Ends id = Ends-bind (IsGone id) (instance_row id) _ λ _.
        Ends-bind (IsGone id) (active_run id) _ λ active.
          Ends-bind (IsGone id) (close_run cleanup alive id active) _ λ _.
            Ends-bind (IsGone id) (instance_row id) _ λ current.
              Ends-bind (IsGone id)
                (fail_if (not (is_removable current.state))
                  (process "instance must be stopped before removal"))
                _
                λ _.
                  Ends-bind (IsGone id) (reads (λ db. select (λ s. s.owner == id) db.snapshots)) _
                    λ snapshots.
                      Ends-bind (IsGone id)
                        (fail_if (has_rows snapshots) (process "instance still has snapshots")) _
                        λ _. Ends-before (IsGone id) (delete_transaction id) _ (delete-Ends id) λ _.
                          Keeps-bind (IsGone id) (finish_instance_deletion cleanup id) _
                            (finish-Keeps id id) λ _. Keeps-give (IsGone id) tt

    -- A removal that succeeds, of an instance whose deletion was not committed before, leaves no
    -- row of the instance, and no run and no operation that belongs to it.
    pub remove-IsGone :
        (id : String) (db : Db)
        → contains_text id db.pending_instance_deletions ≡ false
        → (remove_instance cleanup alive id db).0 ≡ ok tt
        → IsGone id (remove_instance cleanup alive id db).1
    unfolding remove_instance
    remove-IsGone id db fresh done =
        let rest = rw (nothing_pending id db fresh) at done in
        rw (nothing_pending id db fresh) ((present-Ends id).at db tt rest)

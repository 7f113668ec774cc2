-- ===== src/Storage/Removal/Refused.antt =====
-- storage/instances.rs: `remove_instance` on an instance whose process is alive.
use text.Mathlib.Text.{◌==◌}
use machineemu.Prelude.{ℕ, ◌≡◌, refl, Bool, true, false, ◌&&◌, String, eq_iff, some, arith}
use machineemu.Prelude.Result.{ok, err}
use machineemu.Domain.{active_run as still_active}
use machineemu.Storage.Table.{find, select, find-update}
use machineemu.Storage.Schema.{Instance, Run, Db}
use machineemu.Storage.Instances.{
  instance_key, run_key, run_row, set_status, with_status, newest, is_active, active_run,
  reconcile_run,
}
use machineemu.Storage.Instances.Transition.{instance_row-found}
use machineemu.Storage.Removal.{
  contains_text, finish_instance_deletion, close_run, remove_present, remove_instance,
}

pub run_row-found :
    (id : String) (r : Run) (db : Db)
    → find run_key id db.runs ≡ some r
    → run_row id db ≡ (ok r, db)
unfolding run_row
run_row-found id r db found = rw found refl

pub find-with_status :
    (id status : String) (r : Run) (db : Db)
    → find run_key id db.runs ≡ some r
    → find run_key id (set_status id status db).runs ≡ some (with_status status r)
unfolding set_status
find-with_status id status r db found =
    ground (arith, eq_iff id id, find-update run_key id id (with_status status) db.runs (λ r. refl))

reconcile_live :
    (alive : ℕ → ℕ → Bool) (id : String) (r : Run) (db : Db)
    → find run_key id db.runs ≡ some r
    → alive r.pid r.process_start ≡ true
    → reconcile_run alive id db ≡ (ok (with_status "running" r), set_status id "running" db)
unfolding reconcile_run
reconcile_live alive id r db found lives =
    rw
      (
        run_row-found id r db found,
        lives,
        run_row-found id (with_status "running" r) (set_status id "running" db)
            (find-with_status id "running" r db found),
      )
      refl

-- An instance without a pending deletion is not removed while the process of its newest active run
-- is alive: the call returns the active-run error, and all it writes is that this run is running.
pub remove_live :
    (cleanup : String → Bool) (alive : ℕ → ℕ → Bool) (id : String) (r : Instance) (run : Run)
    (db : Db)
    → contains_text id db.pending_instance_deletions ≡ false
    → find instance_key id db.instances ≡ some r
    → newest (select (λ r. (r.owner == id) && is_active r) db.runs) ≡ some run
    → find run_key run.run_id db.runs ≡ some run
    → alive run.pid run.process_start ≡ true
    → remove_instance cleanup alive id db
      ≡ (err (still_active id), set_status run.run_id "running" db)
unfolding remove_instance remove_present close_run finish_instance_deletion active_run
remove_live cleanup alive id r run db fresh found active stored lives =
    rw
      (
        fresh,
        instance_row-found id r db found,
        active,
        reconcile_live alive run.run_id run db stored lives,
      )
      refl

-- ===== src/Runtime/Stop.antt =====
-- crates/machineemu-core/src/runtime/lifecycle_async.rs: the stop of an instance that the daemon
-- owns.
use text.Mathlib.Text.{◌==◌}
use machineemu.Prelude.{
  ◌≡◌, refl, Bool, true, false, String, eq_iff, some, arith, if◌then◌else◌, Bool-cases, inl, inr,
}
use machineemu.Prelude.Result.{Result, ok}
use machineemu.Domain.{
  InstanceState, created, starting, running, paused, stopping, stopped, error, as_str, from_str,
  allows, Error,
}
use machineemu.Storage.Table.{find}
use machineemu.Storage.Schema.{Instance, Run, Db}
use machineemu.Storage.Action.{◌>>◌}
use machineemu.Storage.Instances.{
  instance_key, run_key, enter, set_lifecycle, set_status, with_status, finish_run,
  transition_instance,
}
use machineemu.Storage.Instances.Transition.{instance_row-found, find-enter, transition-cases}
use machineemu.Storage.Removal.Refused.{run_row-found, find-with_status}
use machineemu.Runtime.{owned, exit_status, await_exit, is_stoppable, enter_stopping, stop_instance}

-- Where a process that has ended leaves its instance.
abbrev pub end_state : Bool → InstanceState
end_state success = if success then stopped else error

-- The row while its process ends.
abbrev pub while_stopping : Instance → Instance
while_stopping r = if as_str r.state == "stopping" then r else enter stopping r

pub finish-result :
    (run_id : String) (success : Bool) (run : Run) (db : Db)
    → find run_key run_id db.runs ≡ some run
    → finish_run run_id (exit_status success) db
      ≡ (ok (with_status (exit_status success) run), set_status run_id (exit_status success) db)
unfolding finish_run
finish-result run_id true run db found =
    run_row-found run_id (with_status "exited" run) (set_status run_id "exited" db)
      (find-with_status run_id "exited" run db found)
finish-result run_id false run db found =
    run_row-found run_id (with_status "failed" run) (set_status run_id "failed" db)
      (find-with_status run_id "failed" run db found)

pub same_instances :
    (run_id status : String) (db : Db) → (set_status run_id status db).instances ≡ db.instances
unfolding set_status
same_instances run_id status db = refl

pub ended :
    (id : String) (success : Bool) (r : Instance) (db : Db)
    → find instance_key id db.instances ≡ some r
    → r.state ≡ stopping
    → transition_instance id (if exit_status success == "failed" then "error" else "stopped") db
      ≡ (ok (enter (end_state success) r), set_lifecycle id (end_state success) db)
unfolding allows from_str
ended id true r db found state =
    let cases = transition-cases id "stopped" stopped r db found refl in
    let entered = rw state at cases in entered
ended id false r db found state =
    let cases = transition-cases id "error" error r db found refl in
    let entered = rw state at cases in entered

-- The database after the stop of an instance that was running, paused or already stopping.
abbrev pub while_stopping_db : String → Instance → Db → Db
while_stopping_db id r db =
    if as_str r.state == "stopping" then db else set_lifecycle id stopping db

finish_and_end :
    (id run_id : String) (success : Bool) (r : Instance) (run : Run) (db : Db)
    → find instance_key id db.instances ≡ some r
    → r.state ≡ stopping
    → find run_key run_id db.runs ≡ some run
    → (finish_run run_id (exit_status success)
          >> transition_instance id
              (if exit_status success == "failed" then "error" else "stopped"))
        db
      ≡ (
        ok (enter (end_state success) r),
        set_lifecycle id (end_state success) (set_status run_id (exit_status success) db),
      )
finish_and_end id run_id success r run db found state recorded =
    rw
      (
        finish-result run_id success run db recorded,
        ended id success r (set_status run_id (exit_status success) db)
            (rw (same_instances run_id (exit_status success) db) found) state,
      )
      refl

pub stopping_after :
    (id : String) (r : Instance) (db : Db)
    → find instance_key id db.instances ≡ some r
    → find instance_key id (set_lifecycle id stopping db).instances ≡ some (enter stopping r)
stopping_after id r db found =
    let same : (id == id) ≡ true = ground (arith, eq_iff id id) in
    let after = find-enter id id stopping r db found in let row = rw same at after in row

pub same_runs :
    (id : String) (next : InstanceState) (db : Db) → (set_lifecycle id next db).runs ≡ db.runs
unfolding set_lifecycle
same_runs id next db = refl

pub asked_to_stop :
    (id : String) (r : Instance) (db : Db)
    → find instance_key id db.instances ≡ some r
    → allows r.state stopping ≡ true
    → transition_instance id "stopping" db ≡ (ok (enter stopping r), set_lifecycle id stopping db)
asked_to_stop id r db found may =
    let read : from_str "stopping" ≡ ok stopping = unfold from_str in refl in
    let cases = transition-cases id "stopping" stopping r db found read in
    let entered = rw may at cases in entered

stop_from :
    (id run_id : String) (quit : Result Error (Unit {0})) (success : Bool) (r : Instance)
    (run : Run) (db : Db) (s : InstanceState)
    → r.state ≡ s
    → is_stoppable s ≡ true
    → find instance_key id db.instances ≡ some r
    → find run_key run_id db.runs ≡ some run
    → stop_instance id run_id quit (owned (ok success)) db ≡ (
      ok (enter (end_state success) (while_stopping r)),
      set_lifecycle id
          (end_state success)
          (set_status run_id (exit_status success) (while_stopping_db id r db)),
    )
unfolding stop_instance enter_stopping await_exit as_str allows
stop_from id run_id quit success r run db stopping state h found recorded =
    rw
      (
        instance_row-found id r db found,
        state,
        finish_and_end id run_id success r run db found state recorded,
      )
      refl
stop_from id run_id quit success r run db running state h found recorded =
    let may : allows r.state stopping ≡ true = rw state refl in
    rw
      (
        instance_row-found id r db found,
        state,
        asked_to_stop id r db found may,
        finish_and_end id run_id success (enter stopping r) run (set_lifecycle id stopping db)
            (stopping_after id r db found) refl (rw (same_runs id stopping db) recorded),
      )
      refl
stop_from id run_id quit success r run db paused state h found recorded =
    let may : allows r.state stopping ≡ true = rw state refl in
    rw
      (
        instance_row-found id r db found,
        state,
        asked_to_stop id r db found may,
        finish_and_end id run_id success (enter stopping r) run (set_lifecycle id stopping db)
            (stopping_after id r db found) refl (rw (same_runs id stopping db) recorded),
      )
      refl
stop_from id run_id quit success r run db created state h found recorded = absurd (cc h)
stop_from id run_id quit success r run db starting state h found recorded = absurd (cc h)
stop_from id run_id quit success r run db stopped state h found recorded = absurd (cc h)
stop_from id run_id quit success r run db error state h found recorded = absurd (cc h)

found_after_end :
    (id run_id : String) (next : InstanceState) (status : String) (r : Instance) (run : Run)
    (db : Db)
    → find instance_key id db.instances ≡ some r
    → find run_key run_id db.runs ≡ some run
    → (find instance_key id (set_lifecycle id next (set_status run_id status db)).instances
        ≡ some (enter next r))
      × (find run_key run_id (set_lifecycle id next (set_status run_id status db)).runs
          ≡ some (with_status status run))
found_after_end id run_id next status r run db found recorded =
    let same : (id == id) ≡ true = ground (arith, eq_iff id id) in
    let after =
      find-enter id id next r (set_status run_id status db)
        (rw (same_instances run_id status db) found) in
    let row = rw same at after in
    (
      row,
      rw (same_runs id next (set_status run_id status db))
          (find-with_status run_id status run db recorded),
    )

while_stopping-found :
    (id run_id : String) (r : Instance) (run : Run) (db : Db)
    → find instance_key id db.instances ≡ some r
    → find run_key run_id db.runs ≡ some run
    → (find instance_key id (while_stopping_db id r db).instances ≡ some (while_stopping r))
      × (find run_key run_id (while_stopping_db id r db).runs ≡ some run)
while_stopping-found id run_id r run db found recorded =
    elim (Bool-cases (as_str r.state == "stopping")) [
      | inl there ↦ rw there (found, recorded)
      | inr not_yet ↦
          rw not_yet (stopping_after id r db found, rw (same_runs id stopping db) recorded)
    ]

-- The stop of a stored instance that is running, paused or stopping, whose process the daemon owns
-- and sees exit, succeeds whatever QMP answered to `quit`: the instance is stopped and its run
-- exited if the exit status is a success, and otherwise the instance is in error and its run has
-- failed; an instance that was not stopping before passes through that state, so that its revision
-- grows by two.
pub stop-result :
    (id run_id : String) (quit : Result Error (Unit {0})) (success : Bool) (r : Instance)
    (run : Run) (db : Db)
    → is_stoppable r.state ≡ true
    → find instance_key id db.instances ≡ some r
    → find run_key run_id db.runs ≡ some run
    → ((stop_instance id run_id quit (owned (ok success)) db).0
        ≡ ok (enter (end_state success) (while_stopping r)))
      × (find instance_key id (stop_instance id run_id quit (owned (ok success)) db).1.instances
          ≡ some (enter (end_state success) (while_stopping r)))
      × (find run_key run_id (stop_instance id run_id quit (owned (ok success)) db).1.runs
          ≡ some (with_status (exit_status success) run))
stop-result id run_id quit success r run db h found recorded =
    let (there, kept) = while_stopping-found id run_id r run db found recorded in
    let (row, closed) =
      found_after_end id run_id (end_state success) (exit_status success) (while_stopping r) run
        (while_stopping_db id r db) there kept in
    rw (stop_from id run_id quit success r run db r.state refl h found recorded) (refl, row, closed)

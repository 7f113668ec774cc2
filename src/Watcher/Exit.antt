-- ===== src/Watcher/Exit.antt =====
-- crates/machineemu/src/api/run_events.rs: the round of a watcher in which the process of the run
-- has ended.
use text.Mathlib.Text.{◌==◌}
use machineemu.Prelude.{
  ℕ, ◌∙◌, ap, ◌+◌, ◌≡◌, refl, Bool, true, false, ◌&&◌, String, eq_iff, some, arith, if◌then◌else◌,
  Bool-cases, inl, inr,
}
use machineemu.Prelude.Result.{Result, ok}
use machineemu.Domain.{
  InstanceState, created, starting, running, paused, stopping, stopped, error, as_str, from_str,
  allows, Error,
}
use machineemu.Storage.Table.{find}
use machineemu.Storage.Schema.{Instance, Run, Db}
use machineemu.Storage.Instances.{
  instance_key, run_key, enter, set_lifecycle, set_status, with_status, is_active, is_live_state,
  transition_instance,
}
use machineemu.Storage.Instances.Transition.{instance_row-found, find-enter, transition-cases}
use machineemu.Storage.Removal.Refused.{run_row-found, find-with_status}
use machineemu.Runtime.Stop.{
  finish-result, same_instances, ended as stopped_or_error, same_runs, asked_to_stop,
  stopping_after,
}
use machineemu.Watcher.{
  this_run, observe_exit, final_status, is_up, leave, remove_if_disposable, process_ended,
  after_observation, watch_round,
}

-- Where an instance ends up when its process has ended with success or not, and by how many
-- revisions.
abbrev pub state_after : Bool → InstanceState → InstanceState
state_after true running = stopped
state_after true paused = stopped
state_after false running = error
state_after false paused = error
state_after success starting = error
state_after success stopping = error
state_after success s = s

abbrev pub revisions_after : Bool → InstanceState → ℕ
revisions_after true running = 2
revisions_after true paused = 2
revisions_after false running = 1
revisions_after false paused = 1
revisions_after success starting = 1
revisions_after success stopping = 1
revisions_after success s = 0

abbrev pub after_exit : Bool → Instance → Instance
after_exit success r = record r {
  state = state_after success r.state;
  revision = revisions_after success r.state + r.revision;
}

-- The row that the code writes.
abbrev row_left : Bool → InstanceState → Instance → Instance
row_left success s r =
    if is_up s && success
    then enter stopped (enter stopping r)
    else if is_live_state s
    then enter error r
    else r

with_revision :
    (r : Instance) (s : InstanceState) {n k : ℕ}
    → n ≡ k
    → ◌≡◌ {A = Instance}
        (record r { state = s; revision = n })
        (record r { state = s; revision = k })
with_revision r s e = ap (λ (m : ℕ). record r { state = s; revision = m }) e

row_left_lem :
    (success : Bool) (s : InstanceState) (r : Instance)
    → row_left success s (record r { state = s }) ≡ record r {
      state = state_after success s;
      revision = revisions_after success s + r.revision;
    }
unfolding as_str
row_left_lem true running r = with_revision r stopped (omega arith)
row_left_lem true paused r = with_revision r stopped (omega arith)
row_left_lem false running r = with_revision r error (omega arith)
row_left_lem false paused r = with_revision r error (omega arith)
row_left_lem true starting r = with_revision r error (omega arith)
row_left_lem false starting r = with_revision r error (omega arith)
row_left_lem true stopping r = with_revision r error (omega arith)
row_left_lem false stopping r = with_revision r error (omega arith)
row_left_lem true created r = with_revision r created (omega arith)
row_left_lem false created r = with_revision r created (omega arith)
row_left_lem true stopped r = with_revision r stopped (omega arith)
row_left_lem false stopped r = with_revision r stopped (omega arith)
row_left_lem true error r = with_revision r error (omega arith)
row_left_lem false error r = with_revision r error (omega arith)

row_left-after_exit :
    (success : Bool) (r : Instance) → row_left success r.state r ≡ after_exit success r
row_left-after_exit success r = row_left_lem success r.state r

abbrev after_exit_db : Bool → String → Instance → Db → Db
after_exit_db success id r db =
    if is_up r.state && success
    then set_lifecycle id stopped (set_lifecycle id stopping db)
    else if is_live_state r.state
    then set_lifecycle id error db
    else db

up-allows : (s : InstanceState) → is_up s ≡ true → allows s stopping ≡ true
unfolding allows as_str
up-allows running h = refl
up-allows paused h = refl
up-allows created h = cc h
up-allows starting h = cc h
up-allows stopping h = cc h
up-allows stopped h = cc h
up-allows error h = cc h

live-allows : (s : InstanceState) → is_live_state s ≡ true → allows s error ≡ true
unfolding allows as_str
live-allows running h = refl
live-allows paused h = refl
live-allows starting h = refl
live-allows stopping h = refl
live-allows created h = cc h
live-allows stopped h = cc h
live-allows error h = cc h

put_into_error :
    (id : String) (r : Instance) (db : Db)
    → find instance_key id db.instances ≡ some r
    → allows r.state error ≡ true
    → transition_instance id "error" db ≡ (ok (enter error r), set_lifecycle id error db)
put_into_error id r db found may =
    let read : from_str "error" ≡ ok error = unfold from_str in refl in
    let cases = transition-cases id "error" error r db found read in
    let entered = rw may at cases in entered

leave-result :
    (success : Bool) (id : String) (r : Instance) (db : Db)
    → find instance_key id db.instances ≡ some r
    → leave success id r db ≡ (ok (row_left success r.state r), after_exit_db success id r db)
unfolding leave
leave-result success id r db found = elim (Bool-cases (is_up r.state && success)) [
  | inl shut_down ↦
      rw
        (
          shut_down,
          asked_to_stop id r db found (up-allows r.state (ground arith)),
          stopped_or_error id true (enter stopping r) (set_lifecycle id stopping db)
              (stopping_after id r db found) refl,
        )
        refl
  | inr other ↦ elim (Bool-cases (is_live_state r.state)) [
    | inl live ↦ rw (other, live, put_into_error id r db found (live-allows r.state live)) refl
    | inr at_rest ↦ rw (other, at_rest) refl
  ]
]

entered-found :
    (id : String) (next : InstanceState) (r : Instance) (db : Db)
    → find instance_key id db.instances ≡ some r
    → find instance_key id (set_lifecycle id next db).instances ≡ some (enter next r)
entered-found id next r db found =
    let same : (id == id) ≡ true = ground (arith, eq_iff id id) in
    let after = find-enter id id next r db found in let row = rw same at after in row

row_left-found :
    (success : Bool) (id run_id : String) (r : Instance) (run : Run) (db : Db)
    → find instance_key id db.instances ≡ some r
    → find run_key run_id db.runs ≡ some run
    → (find instance_key id (after_exit_db success id r db).instances
        ≡ some (row_left success r.state r))
      × (find run_key run_id (after_exit_db success id r db).runs ≡ some run)
row_left-found success id run_id r run db found recorded =
    elim (Bool-cases (is_up r.state && success)) [
      | inl shut_down ↦ rw shut_down (
        entered-found id stopped (enter stopping r) (set_lifecycle id stopping db)
            (entered-found id stopping r db found),
        rw (same_runs id stopped (set_lifecycle id stopping db), same_runs id stopping db) recorded,
      )
      | inr other ↦ elim (Bool-cases (is_live_state r.state)) [
        | inl live ↦
            rw (other, live)
              (entered-found id error r db found, rw (same_runs id error db) recorded)
        | inr at_rest ↦ rw (other, at_rest) (found, recorded)
      ]
    ]

-- A watcher that holds the connection of its run, which is recorded as active, sees the process end
-- and can stop its helpers, and the instance does not remove itself: then the watch is finished. The
-- run has exited or failed, as the process did. After a success an instance that was running or
-- paused is stopped, two revisions on; one that was starting or stopping, and after a failure one
-- that was running or paused as well, is in error, one revision on; any other is as it was.
pub watch_round-ended :
    (cleanup : String → Bool) (alive : ℕ → ℕ → Bool) (tombstone : Result Error (Unit {0}))
    (run recorded : Run) (success : Bool) (r : Instance) (db : Db)
    → find run_key run.run_id db.runs ≡ some recorded
    → is_active recorded ≡ true
    → find instance_key run.owner db.instances ≡ some r
    → (out : Db) × (watch_round cleanup alive
          (record { auto_remove = ok false; tombstone = tombstone })
          run
          (ok (this_run (ok (some success))))
          true
          db
        ≡ (ok true, out))
      × (find instance_key run.owner out.instances ≡ some (after_exit success r))
      × (find run_key run.run_id out.runs ≡ some (with_status (final_status success) recorded))
unfolding watch_round after_observation observe_exit process_ended remove_if_disposable
watch_round-ended cleanup alive tombstone run recorded success r db found active owned =
    let finished = set_status run.run_id (final_status success) db in
    let there : find instance_key run.owner finished.instances ≡ some r =
      rw (same_instances run.run_id (final_status success) db) owned in
    let (row, closed) =
      row_left-found success run.owner run.run_id r (with_status (final_status success) recorded)
        finished there (find-with_status run.run_id (final_status success) recorded db found) in
    (
      after_exit_db success run.owner r finished,
      rw
          (
            run_row-found run.run_id recorded db found,
            active,
            finish-result run.run_id success recorded db found,
            instance_row-found run.owner r finished there,
            leave-result success run.owner r finished there,
          )
          refl,
      row ∙ ap (λ l. some l) (row_left-after_exit success r),
      closed,
    )

-- ===== src/Runtime/Failure/Records.antt =====
-- crates/machineemu-core/src/runtime/lifecycle_async.rs: the operation, the run and the instance of a
-- start that failed.
use machineemu.Prelude.{
  ◌≡◌, refl, Bool, true, false, String, eq_iff, some, arith, Bool-cases, Option-cases, inl, inr,
}
use machineemu.Prelude.Result.{Result, ok, err}
use machineemu.Domain.{Error}
use machineemu.Storage.Table.{find, find-update}
use machineemu.Storage.Schema.{Run, Db}
use machineemu.Storage.Instances.{
  instance_key, run_key, run_row, set_lifecycle, set_status, with_status, finish_run,
}
use machineemu.Storage.Operations.{
  operation_key, operation_row, with_result, set_result, is_accepted, fail_operation,
}
use machineemu.Runtime.{
  StartRequest, Launch, is_begun, launch_process, negotiate, settle, clean_up, or_clean_up,
  negotiate_after, attempt,
}
use machineemu.Runtime.Failure.{
  IsSettled, settle-missing, settle-calm, settle-begun, settle-IsSettled,
}

-- The operation does not wait for an outcome.
abbrev pub IsClosed : String → Db → Type 0
IsClosed op db = is_accepted (find operation_key op db.operations) ≡ false

abbrev pub HasFailed : String → Db → Type 0
HasFailed run db = (r : Run) → find run_key run db.runs ≡ some r → r.status ≡ "failed"

settle-records :
    (id : String) (db : Db)
    → ((settle id db).1.runs ≡ db.runs) × ((settle id db).1.operations ≡ db.operations)
settle-records id db = elim (Option-cases (find instance_key id db.instances)) [
  | inl missing ↦ rw (settle-missing id db missing) (refl, refl)
  | inr (a, found) ↦ elim (Bool-cases (is_begun a.state)) [
    | inl begun ↦
        rw (settle-begun id a db found begun)
          (unfold set_lifecycle in refl, unfold set_lifecycle in refl)
    | inr calm ↦ rw (settle-calm id a db found calm) (refl, refl)
  ]
]

status_after : (run : String) (db : Db) → HasFailed run (set_status run "failed" db)
unfolding set_status
status_after run db r found = elim (Option-cases (find run_key run db.runs)) [
  | inl missing ↦ absurd (
      ground (
        arith,
        found,
        missing,
        eq_iff run run,
        find-update run_key run run (with_status "failed") db.runs (λ r. refl),
      ))
  | inr (old, e) ↦ ground (
    arith,
    found,
    e,
    eq_iff run run,
    find-update run_key run run (with_status "failed") db.runs (λ r. refl),
  )
]

run_row-same : (run : String) (db : Db) → (run_row run db).1 ≡ db
unfolding run_row
run_row-same run db = elim (Option-cases (find run_key run db.runs)) [
  | inl missing ↦ rw missing refl
  | inr (r, e) ↦ rw e refl
]

operation_row-same : (op : String) (db : Db) → (operation_row op db).1 ≡ db
unfolding operation_row
operation_row-same op db = elim (Option-cases (find operation_key op db.operations)) [
  | inl missing ↦ rw missing refl
  | inr (r, e) ↦ rw e refl
]

finish_run-failed :
    (run : String) (db : Db) → (finish_run run "failed" db).1 ≡ set_status run "failed" db
unfolding finish_run
finish_run-failed run db = run_row-same run (set_status run "failed" db)

result-IsClosed : (op reason : String) (db : Db) → IsClosed op (set_result op "failed" reason db)
unfolding set_result
result-IsClosed op reason db = elim (Option-cases (find operation_key op db.operations)) [
  | inl missing ↦ ground (
    arith,
    missing,
    eq_iff op op,
    find-update operation_key op op (with_result "failed" reason) db.operations (λ r. refl),
  )
  | inr (old, e) ↦ ground (
    arith,
    e,
    eq_iff op op,
    find-update operation_key op op (with_result "failed" reason) db.operations (λ r. refl),
  )
]

fail-IsClosed : (op reason : String) (db : Db) → IsClosed op (fail_operation op reason db).1
unfolding fail_operation
fail-IsClosed op reason db = elim (Bool-cases (is_accepted (find operation_key op db.operations))) [
  | inl waiting ↦
      rw (waiting, operation_row-same op (set_result op "failed" reason db))
        (result-IsClosed op reason db)
  | inr closed ↦ rw closed closed
]

-- The two steps of the clean-up after the operation leave it alone, and the last leaves the run.
clean_up-records :
    (op reason : String) (recorded : Bool) (run id : String) (db : Db)
    → IsClosed op (clean_up op reason recorded run id db).1
      × (recorded ≡ true → HasFailed run (clean_up op reason recorded run id db).1)
      × IsSettled id (clean_up op reason recorded run id db).1
unfolding clean_up
clean_up-records op reason true run id db =
    let failed = (fail_operation op reason db).1 in
    let left = set_status run "failed" failed in
    rw (finish_run-failed run failed, (settle-records id left).0, (settle-records id left).1)
      (
        unfold set_status in fail-IsClosed op reason db,
        λ _. status_after run failed,
        settle-IsSettled id left,
      )
clean_up-records op reason false run id db =
    let failed = (fail_operation op reason db).1 in
    rw (settle-records id failed).1
      (fail-IsClosed op reason db, λ h. absurd (cc h), settle-IsSettled id failed)

negotiation_failed :
    (reason : Error → String) (op run id : String) (out : Result Error (Unit {0}) × Db) (e : Error)
    → (or_clean_up (λ e. clean_up op (reason e) true run id) out).0 ≡ err e
    → IsClosed op (or_clean_up (λ e. clean_up op (reason e) true run id) out).1
      × HasFailed run (or_clean_up (λ e. clean_up op (reason e) true run id) out).1
      × IsSettled id (or_clean_up (λ e. clean_up op (reason e) true run id) out).1
unfolding or_clean_up
negotiation_failed reason op run id (ok a, db) e h = absurd (cc h)
negotiation_failed reason op run id (err cause, db) e h =
    let (closed, failed, settled) = clean_up-records op (reason cause) true run id db in
    (closed, failed refl, settled)

after_failed :
    (reason : Error → String) (state_json : String → String) (op : String) (q : StartRequest)
    (l : Launch) (out : Result Error Run × Db) (e : Error)
    → (negotiate_after reason state_json op q l out).0 ≡ err e
    → IsClosed op (negotiate_after reason state_json op q l out).1
      × ((run : Run)
          → out.0 ≡ ok run
          → HasFailed q.run_id (negotiate_after reason state_json op q l out).1)
      × IsSettled q.instance_id (negotiate_after reason state_json op q l out).1
unfolding negotiate_after
after_failed reason state_json op q l (err cause, db) e h =
    let (closed, failed, settled) =
      clean_up-records op (reason cause) false q.run_id q.instance_id db in
    (closed, (λ run recorded. absurd (cc recorded)), settled)
after_failed reason state_json op q l (ok run, db) e h =
    let (closed, failed, settled) =
      negotiation_failed reason op q.run_id q.instance_id (negotiate state_json op q l db) e h in
    (closed, (λ run recorded. failed), settled)

-- A start that fails at any point after its operation was accepted leaves the operation no longer
-- accepted, the recorded run, if it came to record one, failed, and the instance in none of the
-- states starting, running and paused.
pub attempt-failed :
    (reason : Error → String) (state_json : String → String) (op : String) (q : StartRequest)
    (l : Launch) (db : Db) (e : Error)
    → (attempt reason state_json op q l db).0 ≡ err e
    → IsClosed op (attempt reason state_json op q l db).1
      × ((run : Run)
          → (launch_process q l db).0 ≡ ok run
          → HasFailed q.run_id (attempt reason state_json op q l db).1)
      × IsSettled q.instance_id (attempt reason state_json op q l db).1
unfolding attempt
attempt-failed reason state_json op q l db e h =
    after_failed reason state_json op q l (launch_process q l db) e h

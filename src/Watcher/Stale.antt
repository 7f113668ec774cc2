-- ===== src/Watcher/Stale.antt =====
-- crates/machineemu/src/api/run_events.rs: reports of a run that is no longer the active one.
use machineemu.Prelude.{ℕ, ◌≡◌, refl, Bool, false, String, Option, none, some, Bool-cases, inl, inr}
use machineemu.Prelude.Result.{Result, ok}
use machineemu.Domain.{Error}
use machineemu.Storage.Schema.{Run, Db}
use machineemu.Storage.Action.{Action}
use machineemu.Storage.Instances.{active_run}
use machineemu.Watcher.{
  Connection, is_current, if_current, status_target, observe_target, apply_status, is_published,
  apply_qmp,
}

-- The database records no active run of the instance, or another one.
pub record IsStale (run : Run) (db : Db) : Type 0 where
  pub active : Option Run
  pub recorded : active_run run.owner db ≡ (ok active, db)
  pub other : is_current run active ≡ false

module _ (alive : ℕ → ℕ → Bool) (run : Run) (connection : Result Error Connection) (db : Db) where
  if_current-stale :
      (rest : Action (Unit {0}))
      → IsStale run db
      → if_current alive run connection rest db ≡ (ok tt, db)
  unfolding if_current
  if_current-stale rest s = rw (s.recorded, s.other) refl

  observe_target-stale :
      (target : Option String)
      → IsStale run db
      → observe_target alive run connection target db ≡ (ok tt, db)
  observe_target-stale none s = refl
  observe_target-stale (some target) s = if_current-stale _ s

  -- What QMP reports of a run that is not the active run of its instance, be it a status or an event,
  -- changes nothing, whatever is reported and whatever connection there is.
  pub apply-IsStale :
      (report : String)
      → IsStale run db
      → (apply_status alive run connection report db ≡ (ok tt, db))
        × (apply_qmp alive run connection report db ≡ (ok tt, db))
  unfolding apply_status apply_qmp
  apply-IsStale report s = (
    observe_target-stale (status_target report) s,
    elim (Bool-cases (is_published report)) [
      | inl known ↦ rw known (if_current-stale _ s)
      | inr unknown ↦ rw unknown refl
    ],
  )

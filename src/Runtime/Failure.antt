-- ===== src/Runtime/Failure.antt =====
-- crates/machineemu-core/src/runtime/lifecycle_async.rs: what a start that failed leaves behind.
pub mod Records
use text.Mathlib.Text.{◌==◌}
use machineemu.Prelude.{
  ◌≡◌, refl, Bool, true, false, String, eq_iff, Option, none, some, arith, if◌then◌else◌,
  Bool-cases, Option-cases, inl, inr,
}
use machineemu.Prelude.Result.{Result, ok, err}
use machineemu.Domain.{
  InstanceState, created, starting, running, paused, stopping, stopped, error, as_str, from_str,
  allows, Error, not_found,
}
use machineemu.Domain.States.{from_str-as_str}
use machineemu.Storage.Table.{find}
use machineemu.Storage.Schema.{Instance, Run, Db}
use machineemu.Storage.Action.{Action}
use machineemu.Storage.Instances.{
  instance_key, instance_row, enter, set_lifecycle, transition_instance,
}
use machineemu.Storage.Instances.Transition.{instance_row-found, find-enter, transition-cases}
use machineemu.Runtime.{
  StartRequest, Launch, is_begun, launch_process, negotiate, settle, clean_up, or_clean_up,
  negotiate_after, attempt,
}

-- The instance, if there is one, is not starting, running or paused.
abbrev pub IsSettled : String → Db → Type 0
IsSettled id db =
    (r : Instance) → find instance_key id db.instances ≡ some r → is_begun r.state ≡ false

-- A state in which a start may fail may be left for the error state.
begun-allows : (s : InstanceState) → is_begun s ≡ true → allows s error ≡ true
unfolding as_str allows
begun-allows created h = h
begun-allows starting h = refl
begun-allows running h = refl
begun-allows paused h = refl
begun-allows stopping h = refl
begun-allows stopped h = h
begun-allows error h = h

error_not_begun : is_begun error ≡ false
unfolding as_str
error_not_begun = refl

error_text : from_str "error" ≡ ok error
unfolding from_str
error_text = refl

same_row : {a b : Instance} → ◌≡◌ {A = Option Instance} (some a) (some b) → a ≡ b
same_row h = cc h

entered :
    (id : String) (r : Instance) (db : Db)
    → find instance_key id db.instances ≡ some r
    → find instance_key id (set_lifecycle id error db).instances ≡ some (enter error r)
entered id r db found =
    let same : (id == id) ≡ true = ground (arith, eq_iff id id) in
    let after = find-enter id id error r db found in let row = rw same at after in row

found_state :
    (id : String) (a r : Instance) (db : Db)
    → find instance_key id db.instances ≡ some a
    → find instance_key id db.instances ≡ some r
    → is_begun a.state ≡ false
    → is_begun r.state ≡ false
found_state id a r db found again calm = cc (found, again, calm)

pub settle-missing :
    (id : String) (db : Db) → find instance_key id db.instances ≡ none → (settle id db).1 ≡ db
unfolding settle instance_row
settle-missing id db missing = rw missing refl

pub settle-calm :
    (id : String) (a : Instance) (db : Db)
    → find instance_key id db.instances ≡ some a
    → is_begun a.state ≡ false
    → (settle id db).1 ≡ db
unfolding settle
settle-calm id a db found calm = rw (instance_row-found id a db found, calm) refl

pub settle-begun :
    (id : String) (a : Instance) (db : Db)
    → find instance_key id db.instances ≡ some a
    → is_begun a.state ≡ true
    → (settle id db).1 ≡ set_lifecycle id error db
unfolding settle
settle-begun id a db found begun =
    rw
      (
        instance_row-found id a db found,
        begun,
        transition-cases id "error" error a db found error_text,
        begun-allows a.state begun,
      )
      refl

pub settle-IsSettled : (id : String) (db : Db) → IsSettled id (settle id db).1
settle-IsSettled id db = elim (Option-cases (find instance_key id db.instances)) [
  | inl missing ↦ rw (settle-missing id db missing) (λ r found. absurd (cc (missing, found)))
  | inr (a, found) ↦ elim (Bool-cases (is_begun a.state)) [
    | inl begun ↦ rw (settle-begun id a db found begun) (λ r again.
        found_state id (enter error a) r (set_lifecycle id error db) (entered id a db found) again
          error_not_begun)
    | inr calm ↦
        rw (settle-calm id a db found calm) (λ r again. found_state id a r db found again calm)
  ]
]

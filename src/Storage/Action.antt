-- ===== src/Storage/Action.antt =====
-- A call on a workspace: it reads and writes the database, and returns a value or an error. What was
-- written before an error stays written.
use machineemu.Prelude.{Bool, Option, none, some, if◌then◌else◌}
use machineemu.Prelude.Result.{Result, ok, err}
use machineemu.Domain.{Error}
use machineemu.Storage.Schema.{Db}

abbrev pub Action : Type 0 → Type 0
Action A = Db → Result Error A × Db

module _ {A : Type 0} where
  abbrev pub give : A → Action A
  give a db = (ok a, db)

  abbrev pub fail : Error → Action A
  fail e db = (err e, db)

  abbrev pub reads : (Db → A) → Action A
  reads f db = (ok (f db), db)

  abbrev pub lift : Result Error A → Action A
  lift r db = (r, db)

  -- `.optional()?.ok_or_else(...)`.
  abbrev pub found_or : Option A → Error → Action A
  found_or none e = fail e
  found_or (some a) e = give a

abbrev pub writes : (Db → Db) → Action (Unit {0})
writes f db = (ok tt, f db)

-- `if test { return Err(e) }`.
abbrev pub fail_if : Bool → Error → Action (Unit {0})
fail_if test e db = (if test then err e else ok tt, db)

abbrev pub proceed : {A B : Type 0} → Result Error A → (A → Action B) → Action B
proceed (ok a) next db = next a db
proceed (err e) next db = (err e, db)

infixl 5 ◌>>=◌ ◌>>◌
abbrev pub ◌>>=◌ : {A B : Type 0} → Action A → (A → Action B) → Action B
◌>>=◌ m next db = proceed (m db).0 next (m db).1

abbrev pub ◌>>◌ : {A B : Type 0} → Action A → Action B → Action B
m >> next = m >>= λ _. next

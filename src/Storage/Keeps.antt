-- ===== src/Storage/Keeps.antt =====
-- Invariants of calls on the database, and what holds after a call that succeeded.
use machineemu.Prelude.{◌≡◌, refl, Bool, true, false, if◌then◌else◌}
use machineemu.Prelude.Result.{Result, ok, err}
use machineemu.Domain.{Error}
use machineemu.Storage.Schema.{Db}
use machineemu.Storage.Action.{Action, give, fail_if, proceed, ◌>>=◌}

module _ (P : Db → Type 0) where
  pub record Keeps {A : Type 0} (m : Action A) : Type 0 where
    pub at : (db : Db) → P db → P (m db).1

  pub Keeps-give : {A : Type 0} (a : A) → Keeps (give a)
  Keeps-give a = record { at = λ db h. h }

  pub Keeps-fail_if : (test : Bool) (e : Error) → Keeps (fail_if test e)
  Keeps-fail_if test e = record { at = λ db h. h }

  -- A call that only reads.
  pub Keeps-same : {A : Type 0} (m : Action A) → ((db : Db) → (m db).1 ≡ db) → Keeps m
  Keeps-same m same = record { at = λ db h. rw (same db) h }

  proceed_keeps :
      {A B : Type 0} (r : Result Error A) (next : A → Action B) (db : Db)
      → ((a : A) → r ≡ ok a → P (next a db).1)
      → P db
      → P (proceed r next db).1
  proceed_keeps (ok a) next db kept h = kept a refl
  proceed_keeps (err e) next db kept h = h

  -- The rest of a block may use what its first call returned, and from which database.
  pub Keeps-bind_at :
      {A B : Type 0} (m : Action A) (next : A → Action B) (db : Db)
      → P (m db).1
      → ((a : A) → (m db).0 ≡ ok a → P (next a (m db).1).1)
      → P ((m >>= next) db).1
  Keeps-bind_at m next db first rest = proceed_keeps (m db).0 next (m db).1 rest first

  pub Keeps-bind :
      {A B : Type 0} (m : Action A) (next : A → Action B)
      → Keeps m
      → ((a : A) → Keeps (next a))
      → Keeps (m >>= next)
  Keeps-bind m next km kn = record {
    at = λ db h. Keeps-bind_at m next db (km.at db h) (λ a _. (kn a).at (m db).1 (km.at db h));
  }

  pub Keeps-if :
      {A : Type 0} (b : Bool) (m n : Action A) → Keeps m → Keeps n → Keeps (if b then m else n)
  Keeps-if true m n km kn = km
  Keeps-if false m n km kn = kn

-- What holds after a call that succeeded.
module _ (Q : Db → Type 0) where
  pub record Ends {A : Type 0} (m : Action A) : Type 0 where
    pub at : (db : Db) (a : A) → (m db).0 ≡ ok a → Q (m db).1

  proceed_ends :
      {A B : Type 0} (r : Result Error A) (next : A → Action B) (db : Db) (b : B)
      → ((a : A) → r ≡ ok a → (next a db).0 ≡ ok b → Q (next a db).1)
      → (proceed r next db).0 ≡ ok b
      → Q (proceed r next db).1
  proceed_ends (ok a) next db b rest h = rest a refl h
  proceed_ends (err e) next db b rest h = cc h

  -- The rest of a block decides what holds after it.
  pub Ends-bind :
      {A B : Type 0} (m : Action A) (next : A → Action B)
      → ((a : A) → Ends (next a))
      → Ends (m >>= next)
  Ends-bind m next rest = record {
    at = λ db b. proceed_ends (m db).0 next (m db).1 b (λ a _. (rest a).at (m db).1 b);
  }

  -- What holds after the first call is kept by the rest.
  pub Ends-before :
      {A B : Type 0} (m : Action A) (next : A → Action B)
      → Ends m
      → ((a : A) → Keeps Q (next a))
      → Ends (m >>= next)
  Ends-before m next first rest = record {
    at = λ db b.
        proceed_ends (m db).0 next (m db).1 b
          (λ a done _. (rest a).at (m db).1 (first.at db a done));
  }

-- ===== src/Storage/Operations/Idempotent.antt =====
-- storage/operations.rs: requests that repeat an idempotency key.
use text.Mathlib.Text.{◌==◌}
use machineemu.Prelude.{
  ◌≡◌, ◌≢◌, refl, ◌&&◌, String, eq_iff, none, some, List, [], ◌∷◌, arith, if◌then◌else◌, Bool-cases,
  Option-cases, inl, inr,
}
use machineemu.Prelude.Result.{Result, ok, err}
use machineemu.Domain.{Error, operation_conflict}
use machineemu.Storage.Table.{find, insert}
use machineemu.Storage.Schema.{Instance, Operation, Db}
use machineemu.Storage.Instances.{instance_key, instance_row}
use machineemu.Storage.Operations.{
  operation_key, find_keyed, new_operation, repeated, insert_operation, begin_with, begin_operation,
}

-- The row of a key answers the request, and every other request with the key conflicts with it.
abbrev pub answer : Operation → String → String → String → Result Error Operation
answer row kind key hash =
    if (row.kind == kind) && (row.input_sha256 == hash)
    then ok row
    else err (operation_conflict key)

ok_value : {E A : Type 0} {a b : A} → ◌≡◌ {A = Result E A} (ok a) (ok b) → a ≡ b
ok_value h = cc h

repeated-answer :
    (kind key hash : String) (row : Operation) (db : Db)
    → repeated kind key hash row db ≡ (answer row kind key hash, db)
repeated-answer kind key hash row db = elim (Bool-cases (row.kind == kind)) [
  | inl k ↦ elim (Bool-cases (row.input_sha256 == hash)) [
    | inl d ↦ rw (k, d) refl
    | inr d ↦ rw (k, d) refl
  ]
  | inr k ↦ rw k refl
]

find_keyed-insert :
    (owner key : String) (new : Operation) (rows : List Operation)
    → new.owner ≡ owner
    → new.idempotency_key ≡ key
    → find_keyed owner key rows ≡ none
    → find_keyed owner key (insert operation_key new rows) ≡ some new
unfolding find_keyed insert
find_keyed-insert owner key new [] o k h =
    ground (arith, eq_iff new.owner owner, eq_iff new.idempotency_key key)
find_keyed-insert owner key new (r ∷ rows) o k h =
    ground (arith, find_keyed-insert owner key new rows o k)

-- With the instance and the row of the key, the call only answers.
begin_again :
    (digest : String → String) (id owner kind key input : String) (r : Instance) (row : Operation)
    (db : Db)
    → find instance_key owner db.instances ≡ some r
    → find_keyed owner key db.operations ≡ some row
    → begin_operation digest id owner kind key input db ≡ (answer row kind key (digest input), db)
unfolding begin_operation begin_with instance_row
begin_again digest id owner kind key input r row db found keyed =
    rw (found, keyed) (repeated-answer kind key (digest input) row db)

-- The row of the key answers the request if it is one of the row's own.
answer_own :
    (kind key hash : String) (existing row : Operation)
    → answer existing kind key hash ≡ ok row
    → (existing ≡ row) × (row.kind ≡ kind) × (row.input_sha256 ≡ hash)
answer_own kind key hash existing row h =
    ground (arith, eq_iff existing.kind kind, eq_iff existing.input_sha256 hash)

begin_new :
    (digest : String → String) (id owner kind key input : String) (r : Instance) (db : Db)
    → find instance_key owner db.instances ≡ some r
    → find_keyed owner key db.operations ≡ none
    → begin_operation digest id owner kind key input db
      ≡ insert_operation
          (new_operation id owner kind key (digest input))
          (find operation_key id db.operations)
          db
unfolding begin_operation begin_with instance_row
begin_new digest id owner kind key input r db found free = rw (found, free) refl

-- What a successful call leaves: its instance, and the row of its key for its request.
abbrev Begun :
    (String → String) → String → String → String → String → Instance → Operation → Db → Type 0
Begun digest owner kind key input r row db =
    (find instance_key owner db.instances ≡ some r)
    × (find_keyed owner key db.operations ≡ some row)
    × (row.kind ≡ kind)
    × (row.input_sha256 ≡ digest input)

inserted_Begun :
    (digest : String → String) (id owner kind key input : String) (r : Instance) (row : Operation)
    (db : Db)
    → find instance_key owner db.instances ≡ some r
    → find_keyed owner key db.operations ≡ none
    → begin_operation digest id owner kind key input db
      ≡ insert_operation (new_operation id owner kind key (digest input)) none db
    → (begin_operation digest id owner kind key input db).0 ≡ ok row
    → Begun digest owner kind key input r row (begin_operation digest id owner kind key input db).1
unfolding insert_operation
inserted_Begun digest id owner kind key input r row db found free fresh h =
    let new = new_operation id owner kind key (digest input) in
    let same : new ≡ row = ok_value (let kept = rw fresh at h in kept) in
    rw fresh (
      found,
      cc (find_keyed-insert owner key new db.operations refl refl free, same),
      cc same,
      cc same,
    )

begin-Begun :
    (digest : String → String) (id owner kind key input : String) (r : Instance) (db : Db)
    (row : Operation)
    → find instance_key owner db.instances ≡ some r
    → (begin_operation digest id owner kind key input db).0 ≡ ok row
    → Begun digest owner kind key input r row (begin_operation digest id owner kind key input db).1
begin-Begun digest id owner kind key input r db row found h =
    elim (Option-cases (find_keyed owner key db.operations)) [
      | inr (existing, keyed) ↦
          let again = begin_again digest id owner kind key input r existing db found keyed in
          let own =
            answer_own kind key (digest input) existing row (let kept = rw again at h in kept) in
          rw again (found, cc (keyed, own.0), own.1, own.2)
      | inl free ↦
          let fresh = begin_new digest id owner kind key input r db found free in
          elim (Option-cases (find operation_key id db.operations)) [
            | inl unused ↦
                inserted_Begun digest id owner kind key input r row db found free
                  (let kept = rw unused at fresh in kept) h
            | inr (taken, e) ↦
                absurd (let refused = rw (fresh, e) at h in unfold insert_operation in cc refused)
          ]
    ]

begin-instance :
    (digest : String → String) (id owner kind key input : String) (db : Db) (row : Operation)
    → (begin_operation digest id owner kind key input db).0 ≡ ok row
    → find instance_key owner db.instances ≢ none
unfolding begin_operation instance_row
begin-instance digest id owner kind key input db row h missing =
    let refused = rw missing at h in cc refused

-- Once a request has been accepted under a key, or has found its operation there, a second request
-- with the key changes nothing: if its kind and the digest of its input are those of the first it
-- gets the same operation, whatever operation id it proposes, and otherwise the conflict error.
pub begin-answered :
    (digest : String → String) (id id2 owner kind kind2 key input input2 : String) (db : Db)
    (row : Operation)
    → (begin_operation digest id owner kind key input db).0 ≡ ok row
    → begin_operation digest id2 owner kind2 key input2
        (begin_operation digest id owner kind key input db).1
      ≡ (
        if (kind == kind2) && (digest input == digest input2)
            then ok row
            else err (operation_conflict key),
        (begin_operation digest id owner kind key input db).1,
      )
begin-answered digest id id2 owner kind kind2 key input input2 db row h =
    elim (Option-cases (find instance_key owner db.instances)) [
      | inl missing ↦ absurd (begin-instance digest id owner kind key input db row h missing)
      | inr (r, found) ↦
          let (there, keyed, same_kind, same_input) =
            begin-Begun digest id owner kind key input r db row found h in
          let again =
            begin_again digest id2 owner kind2 key input2 r row
              (begin_operation digest id owner kind key input db).1 there keyed in
          rw (again, same_kind, same_input) refl
    ]

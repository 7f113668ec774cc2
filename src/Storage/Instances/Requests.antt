-- ===== src/Storage/Instances/Requests.antt =====
-- crates/machineemu-core/src/storage/instances.rs: calls of `transition_instance` for one instance, one
-- after the other.
use text.Mathlib.Text.{◌==◌}
use machineemu.Prelude.{
  ◌≡◌, ◌≢◌, ◌∙◌, refl, sym, ap, true, ◌+◌, String, eq_iff, some, List, [], ◌∷◌, arith,
  if◌then◌else◌, Bool-cases, inl, inr,
}
use machineemu.Prelude.Result.{Result, ok, err}
use machineemu.Domain.{InstanceState, allows, as_str, from_str, Error, invalid_transition}
use machineemu.Domain.Edges.{Step, Step-allows, allows-Step}
use machineemu.Domain.States.{as_str-from_str, from_str-as_str}
use machineemu.Storage.Table.{find}
use machineemu.Storage.Schema.{Instance, Db}
use machineemu.Storage.Instances.{instance_key, enter, set_lifecycle, transition_instance}
use machineemu.Storage.Instances.Transition.{find-enter, instance_row-found, transition-cases}

-- The answers to the requests, and the tables after them.
unfoldable pub transition_all : String → List String → Db → List (Result Error Instance) × Db
unfolding transition_instance
transition_all id [] db = ([], db)
transition_all id (text ∷ texts) db =
    let out = transition_instance id text db in
    let rest = transition_all id texts out.1 in (out.0 ∷ rest.0, rest.1)

-- The way of a row along the edges of the lifecycle: what is requested, what is answered, and the
-- row at the end.
pub data Walk : Instance → List String → List (Result Error Instance) → Instance → Type 0 where
  done : {r : Instance} → Walk r [] [] r
  moved_on :
      {r last : Instance} {text : String} {texts : List String}
      {answers : List (Result Error Instance)} (next : InstanceState)
      → as_str next ≡ text
      → Step r.state next
      → Walk (record r { state = next; revision = r.revision + 1 }) texts answers last
      → Walk r
          (text ∷ texts)
          (ok (record r { state = next; revision = r.revision + 1 }) ∷ answers)
          last
  no_edge :
      {r last : Instance} {text : String} {texts : List String}
      {answers : List (Result Error Instance)} (next : InstanceState)
      → as_str next ≡ text
      → ¬ Step r.state next
      → Walk r texts answers last
      → Walk r (text ∷ texts) (err (invalid_transition (as_str r.state) text) ∷ answers) last
  no_state :
      {r last : Instance} {text : String} {texts : List String}
      {answers : List (Result Error Instance)} (e : Error)
      → ((s : InstanceState) → as_str s ≢ text)
      → Walk r texts answers last
      → Walk r (text ∷ texts) (err e ∷ answers) last

-- What one request does.
data Moved (id text : String) (r : Instance) (db : Db) : Type 0 where
  moved :
      (next : InstanceState)
      → as_str next ≡ text
      → Step r.state next
      → transition_instance id text db ≡ (ok (enter next r), set_lifecycle id next db)
      → Moved id text r db
  stayed :
      (next : InstanceState)
      → as_str next ≡ text
      → ¬ Step r.state next
      → transition_instance id text db ≡ (err (invalid_transition (as_str r.state) text), db)
      → Moved id text r db
  unread :
      (e : Error)
      → ((s : InstanceState) → as_str s ≢ text)
      → transition_instance id text db ≡ (err e, db)
      → Moved id text r db

data Reading (text : String) : Type 0 where
  reads_as : (next : InstanceState) → from_str text ≡ ok next → Reading text
  fails_with : (e : Error) → from_str text ≡ err e → Reading text

read_text : (text : String) (out : Result Error InstanceState) → from_str text ≡ out → Reading text
read_text text (ok next) e = reads_as next e
read_text text (err failure) e = fails_with failure e

Moved-lem :
    (id text : String) (r : Instance) (db : Db)
    → find instance_key id db.instances ≡ some r
    → Moved id text r db
Moved-lem id text r db found = elim (read_text text (from_str text) refl) [
  | reads_as next read ↦
      let cases = transition-cases id text next r db found read in
      let named = as_str-from_str text next read in
      elim (Bool-cases (allows r.state next)) [
        | inl allowed ↦
            moved next named (allows-Step r.state next allowed)
              (let out = rw allowed at cases in out)
        | inr refused ↦
            stayed next named (λ s. cc (Step-allows s, refused))
              (let out = rw (refused, named) at cases in out)
      ]
  | fails_with e failed ↦
      unread e
        (λ s named. let read = from_str-as_str s in let bad = rw (named, failed) at read in cc bad)
        (unfold transition_instance in rw (instance_row-found id r db found, failed) refl)
]

-- The tables when the requests have been answered, with `last` as the row of the instance.
pub record Requested (id : String) (last : Instance) (db out : Db) : Type 0 where
  pub rows :
      (j : String)
      → find instance_key j out.instances
        ≡ (if id == j then some last else find instance_key j db.instances)
  pub runs : out.runs ≡ db.runs
  pub operations : out.operations ≡ db.operations
  pub snapshots : out.snapshots ≡ db.snapshots
  pub pending : out.pending_instance_deletions ≡ db.pending_instance_deletions

unmoved :
    (id : String) (r : Instance) (db : Db)
    → find instance_key id db.instances ≡ some r
    → Requested id r db db
unmoved id r db found = record {
  rows = λ j. elim (Bool-cases (id == j)) [
    | inl same ↦
        let equal : id ≡ j = ground (arith, eq_iff id j) in
        rw same (ap (λ k. find instance_key k db.instances) (sym equal) ∙ found)
    | inr differs ↦ rw differs refl
  ];
  runs = refl;
  operations = refl;
  snapshots = refl;
  pending = refl;
}

after_move :
    (id : String) (next : InstanceState) (r last : Instance) (db out : Db)
    → find instance_key id db.instances ≡ some r
    → Requested id last (set_lifecycle id next db) out
    → Requested id last db out
unfolding set_lifecycle
after_move id next r last db out found q = record {
  rows = λ j. elim (Bool-cases (id == j)) [
    | inl same ↦ let row = q.rows j in rw same (let here = rw same at row in here)
    | inr differs ↦
        let row = q.rows j in
        let old = find-enter id j next r db found in
        rw differs ((let here = rw differs at row in here) ∙ (let kept = rw differs at old in kept))
  ];
  runs = q.runs;
  operations = q.operations;
  snapshots = q.snapshots;
  pending = q.pending;
}

-- Any sequence of transition requests for a stored instance takes its row along the edges of the
-- lifecycle. A request that names a state to which there is an edge is answered with the row in
-- that state, one revision on, which is then its row; one that names another state is answered with
-- the error that holds both states, any other text with an error, and the row stays. Every other
-- row and table is as it was.
pub transition_all-Walk :
    (id : String) (texts : List String) (r : Instance) (db : Db)
    → find instance_key id db.instances ≡ some r
    → (last : Instance) × Walk r texts (transition_all id texts db).0 last
      × Requested id last db (transition_all id texts db).1
unfolding transition_all
transition_all-Walk id [] r db found = (r, done, unmoved id r db found)
transition_all-Walk id (text ∷ texts) r db found = elim (Moved-lem id text r db found) [
  | moved next named edge ran ↦
      let there : find instance_key id (set_lifecycle id next db).instances ≡ some (enter next r) =
        let row = find-enter id id next r db found in
        let same : (id == id) ≡ true = ground (arith, eq_iff id id) in
        let here = rw same at row in here in
      let (last, walk, q) =
        transition_all-Walk id texts (enter next r) (set_lifecycle id next db) there in
      rw ran (last, moved_on next named edge walk, after_move id next r last db _ found q)
  | stayed next named barred ran ↦
      let (last, walk, q) = transition_all-Walk id texts r db found in
      rw ran (last, no_edge next named barred walk, q)
  | unread e unnamed ran ↦
      let (last, walk, q) = transition_all-Walk id texts r db found in
      rw ran (last, no_state e unnamed walk, q)
]

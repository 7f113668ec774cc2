-- ===== src/Storage/Instances/Transition.antt =====
-- storage/instances.rs: what `transition_instance` does to the rows.
use text.Mathlib.Text.{◌==◌}
use machineemu.Prelude.{
  ◌≡◌, refl, true, String, eq_iff, some, arith, if◌then◌else◌, Bool-cases, inl, inr,
}
use machineemu.Prelude.Result.{ok, err}
use machineemu.Domain.{InstanceState, allows, as_str, from_str, invalid_transition}
use machineemu.Storage.Table.{find, find-update}
use machineemu.Storage.Schema.{Instance, Db}
use machineemu.Storage.Instances.{
  instance_key, instance_row, enter, set_lifecycle, transition_instance,
}

-- The row of the instance after its update.
pub find-enter :
    (id j : String) (next : InstanceState) (r : Instance) (db : Db)
    → find instance_key id db.instances ≡ some r
    → find instance_key j (set_lifecycle id next db).instances
      ≡ (if id == j then some (enter next r) else find instance_key j db.instances)
unfolding set_lifecycle
find-enter id j next r db found =
    ground (arith, eq_iff id j, find-update instance_key id j (enter next) db.instances (λ r. refl))

reread :
    (id : String) (next : InstanceState) (r : Instance) (db : Db)
    → find instance_key id db.instances ≡ some r
    → instance_row id (set_lifecycle id next db) ≡ (ok (enter next r), set_lifecycle id next db)
unfolding instance_row
reread id next r db found =
    rw
      (
        find-enter id id next r db found,
        let same : (id == id) ≡ true = ground (arith, eq_iff id id) in same,
      )
      refl

pub instance_row-found :
    (id : String) (r : Instance) (db : Db)
    → find instance_key id db.instances ≡ some r
    → instance_row id db ≡ (ok r, db)
unfolding instance_row
instance_row-found id r db found = rw found refl

-- The table decides: the update and the row that the caller reads back, or an error and no change.
pub transition-cases :
    (id text : String) (next : InstanceState) (r : Instance) (db : Db)
    → find instance_key id db.instances ≡ some r
    → from_str text ≡ ok next
    → transition_instance id text db ≡ (
        if allows r.state next
        then (ok (enter next r), set_lifecycle id next db)
        else (err (invalid_transition (as_str r.state) (as_str next)), db))
unfolding transition_instance
transition-cases id text next r db found read = elim (Bool-cases (allows r.state next)) [
  | inl allowed ↦
      rw (instance_row-found id r db found, read, allowed, reread id next r db found) refl
  | inr refused ↦ rw (instance_row-found id r db found, read, refused) refl
]

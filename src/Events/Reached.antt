-- ===== src/Events/Reached.antt =====
-- crates/machineemu/src/api/events.rs: the cursors that the records of an instance reach back to, and
-- what follows on them.
use machineemu.Prelude.{
  ℕ, suc, ◌-◌, ◌≤◌, ◌<◌, ◌≡◌, refl, ap, true, false, Option, none, some, List, [], ◌∷◌, ltb, ltb→lt,
  ltb→le, lt→ltb, le→leb, inl, inr, Bool-cases, Option-cases, arith,
}
use machineemu.Events.Cursors.{u64_mod, same_text, Cursor}
use machineemu.Events.Histories.{EventRecord, History, EventHub, lookup}
use machineemu.Events.Histories.Entries.{All-found, same_text-equal, same_text_refl}
use machineemu.Events.Histories.Loops.{add_u64_lem}
use machineemu.Events.Histories.Evicted.{Follow, IsHistory}
use machineemu.Events.Kept.{IsHub}
use machineemu.Events.{after, first_sequence, replayable, is_replayable}

after-all :
    (c before : ℕ) (records : List EventRecord) (latest : ℕ)
    → c ≤ before
    → Follow before records latest
    → after c records ≡ records
unfolding after
after-all c before [] latest le f = refl
after-all c before (r ∷ records) latest le f =
    rw (lt→ltb c r.sequence (omega (arith, f.0)))
      (ap (λ l. r ∷ l) (after-all c r.sequence records latest (omega (arith, f.0)) f.1))

-- The records above a number between the first and the latest follow on that number.
pub Follow-after :
    (c before : ℕ) (records : List EventRecord) (latest : ℕ)
    → before ≤ c
    → c ≤ latest
    → Follow before records latest
    → Follow c (after c records) latest
unfolding after
Follow-after c before [] latest le up f = omega (arith, f)
Follow-after c before (r ∷ records) latest le up f = elim (Bool-cases (ltb c r.sequence)) [
  | inl above ↦
      let here : r.sequence ≡ suc c = omega (arith, f.0, ltb→lt c r.sequence above) in
      rw (above, after-all c r.sequence records latest (omega (arith, here)) f.1) (here, f.1)
  | inr below ↦
      rw below (Follow-after c r.sequence records latest (ltb→le c r.sequence below) up f.1)
]

first_le :
    (before c : ℕ) (records : List EventRecord) (latest : ℕ)
    → Follow before records latest
    → suc latest < u64_mod
    → first_sequence latest records - 1 ≤ c
    → before ≤ c
first_le before c [] latest f room le = omega (arith, f, add_u64_lem latest 1 (omega arith))
first_le before c (r ∷ records) latest f room le = omega (arith, f.0)

le_first :
    (before c : ℕ) (records : List EventRecord) (latest : ℕ)
    → Follow before records latest
    → suc latest < u64_mod
    → before ≤ c
    → first_sequence latest records - 1 ≤ c
le_first before c [] latest f room le = omega (arith, f, add_u64_lem latest 1 (omega arith))
le_first before c (r ∷ records) latest f room le = omega (arith, f.0)

module _ {Sender : Type 0} where
  -- The records of the instance lead on, without a gap, from a number at most that of the cursor to
  -- the latest event, which is at least that of the cursor.
  pub record IsReached (hub : EventHub Sender) (instance_id : List ℕ) (c : Cursor) : Type 0 where
    pub history : History Sender
    pub found : lookup instance_id hub.histories ≡ some history
    pub same_instance : c.instance_id ≡ instance_id
    pub same_generation : c.generation ≡ hub.generation
    pub before : ℕ
    pub contiguous : Follow before history.records history.next_sequence
    pub before_le : before ≤ c.sequence
    pub le : c.sequence ≤ history.next_sequence

  abbrev pub IsUnreached : EventHub Sender → List ℕ → Option Cursor → Type 0
  IsUnreached hub instance_id none = Unit
  IsUnreached hub instance_id (some c) = ¬ IsReached hub instance_id c

  replayable_parts :
      (hub : EventHub Sender) (instance_id : List ℕ) (c : Cursor) (h : History Sender)
      → replayable hub instance_id c (some h) ≡ true
      → (same_text c.instance_id instance_id ≡ true)
        × (same_text c.generation hub.generation ≡ true)
        × (first_sequence h.next_sequence h.records - 1 ≤ c.sequence)
        × (c.sequence ≤ h.next_sequence)
  replayable_parts hub instance_id c h known_to = ground arith

  pub reached :
      (hub : EventHub Sender) (instance_id : List ℕ) (c : Cursor)
      → IsHub hub
      → suc hub.next_order < u64_mod
      → is_replayable hub instance_id (some c) ≡ true
      → IsReached hub instance_id c
  unfolding is_replayable
  reached hub instance_id c v room known_to =
      elim (Option-cases (lookup instance_id hub.histories)) [
        | inl missing ↦ absurd (let shown = rw missing at known_to in cc shown)
        | inr (h, found) ↦
            let old =
              All-found (IsHistory hub.next_order) instance_id h hub.histories found v.each in
            let shown : replayable hub instance_id c (some h) ≡ true = rw found at known_to in
            let (instance, generation, low, high) = replayable_parts hub instance_id c h shown in
            record {
              history = h;
              found = found;
              same_instance = same_text-equal c.instance_id instance_id instance;
              same_generation = same_text-equal c.generation hub.generation generation;
              before = old.before;
              contiguous = old.contiguous;
              before_le =
                  first_le old.before c.sequence h.records h.next_sequence old.contiguous
                    (omega (arith, old.sequence_le)) low;
              le = high;
            }
      ]

  recognised :
      (hub : EventHub Sender) (instance_id : List ℕ) (c : Cursor)
      → IsHub hub
      → suc hub.next_order < u64_mod
      → IsReached hub instance_id c
      → is_replayable hub instance_id (some c) ≡ true
  unfolding is_replayable
  recognised hub instance_id c v room k =
      let h = k.history in
      let old = All-found (IsHistory hub.next_order) instance_id h hub.histories k.found v.each in
      let low =
        le_first k.before c.sequence h.records h.next_sequence k.contiguous
          (omega (arith, old.sequence_le)) k.before_le in
      let instance : same_text c.instance_id instance_id ≡ true =
        rw k.same_instance (same_text_refl instance_id) in
      let generation : same_text c.generation hub.generation ≡ true =
        rw k.same_generation (same_text_refl hub.generation) in
      rw
        (
          k.found,
          instance,
          generation,
          le→leb (first_sequence h.next_sequence h.records - 1) c.sequence low,
          le→leb c.sequence h.next_sequence k.le,
        )
        refl

  pub unreached :
      (hub : EventHub Sender) (instance_id : List ℕ) (cursor : Option Cursor)
      → IsHub hub
      → suc hub.next_order < u64_mod
      → is_replayable hub instance_id cursor ≡ false
      → IsUnreached hub instance_id cursor
  unreached hub instance_id none v room fresh = tt
  unreached hub instance_id (some c) v room fresh =
      λ k. let shown = recognised hub instance_id c v room k in cc (fresh, shown)

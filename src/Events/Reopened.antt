-- ===== src/Events/Reopened.antt =====
-- crates/machineemu/src/api/events.rs: what a cursor from before `close_instance` is worth after it.
use machineemu.Prelude.{
  ℕ, suc, ◌-◌, ◌≤◌, ◌<◌, ◌≡◌, refl, ap, subst, ◌∙◌, String, Bool, true, Option, some, List, [], ◌∷◌,
  length, le→leb, inl, inr, Option-cases, arith,
}
use machineemu.Events.Cursors.{u64_mod}
use machineemu.Events.Histories.{EventRecord, EventHub, max_event_bytes, lookup, or_default}
use machineemu.Events.Histories.Entries.{same_text_refl, All-found, lookup-remove}
use machineemu.Events.Histories.Loops.{add_u64_lem}
use machineemu.Events.Histories.Evicted.{Follow, Follow-le, IsHistory}
use machineemu.Events.Kept.{IsHub, history_of}
use machineemu.Events.Published.{published}
use machineemu.Events.Calls.{close_instance-IsHub, same_order_close}
use machineemu.Events.{first_sequence, is_replayable, publish, close_instance}

first_of_one :
    (before : ℕ) (records : List EventRecord)
    → Follow before records 1
    → first_sequence 1 records - 1 ≤ 1
first_of_one before [] f = omega (arith, add_u64_lem 1 1 (omega arith))
first_of_one before (r ∷ records) f = omega (arith, Follow-le r.sequence records 1 f.1)

module _ {Sender : Type 0} where
  closed_fresh :
      (instance_id : List ℕ) (hub : EventHub Sender)
      → IsHub hub
      → (history_of (close_instance instance_id hub) instance_id).next_sequence ≡ 0
  closed_fresh instance_id hub v = elim (Option-cases (lookup instance_id hub.histories)) [
    | inl missing ↦ unfold close_instance or_default in rw (close_instance, missing, missing) refl
    | inr (h, found) ↦
        unfold close_instance or_default in
        rw (close_instance, found, lookup-remove instance_id hub.histories v.unique) refl
  ]

  same_generation_close :
      (instance_id : List ℕ) (hub : EventHub Sender)
      → (close_instance instance_id hub).generation ≡ hub.generation
  same_generation_close instance_id hub = elim (Option-cases (lookup instance_id hub.histories)) [
    | inl missing ↦ unfold close_instance in rw (close_instance, missing) refl
    | inr (h, found) ↦ unfold close_instance in rw (close_instance, found) refl
  ]

module _ {Sender : Type 0} (channel : ℕ → Sender)
    (try_send : Sender → EventRecord → Option Sender) where
  -- In a valid hub with room for an event, whatever events an instance has had: once its history is
  -- closed and an event that fits is published for an instance of the same name, the cursor of the
  -- first event from before is accepted as one of the new history.
  pub is_replayable-close_instance :
      (hub : EventHub Sender) (instance_id : List ℕ) (kind : String) (text : List ℕ)
      (broadcast : Bool)
      → IsHub hub
      → length instance_id ≤ 64
      → suc hub.next_order < u64_mod
      → length text ≤ max_event_bytes
      → (left : EventHub Sender) × (publish channel try_send instance_id kind
            (some text)
            broadcast
            (close_instance instance_id hub)
          ≡ some (left, true))
        × (is_replayable left instance_id (
              some
                (record { instance_id = instance_id; generation = hub.generation; sequence = 1 }))
            ≡ true)
  is_replayable-close_instance hub instance_id kind text broadcast v short room fits =
      let p =
        published channel try_send (close_instance instance_id hub) instance_id kind text broadcast
          (close_instance-IsHub instance_id hub v) short
          (omega (arith, same_order_close instance_id hub)) fits in
      let k =
        All-found (IsHistory p.left.next_order) instance_id p.kept p.left.histories p.found
          p.is_sound.each in
      let one : p.kept.next_sequence ≡ 1 = p.next_one ∙ ap suc (closed_fresh instance_id hub v) in
      let same : p.left.generation ≡ hub.generation =
        p.same_generation ∙ same_generation_close instance_id hub in
      let f : Follow k.before p.kept.records 1 =
        subst (λ n. Follow k.before p.kept.records n) one k.contiguous in
      (
        p.left,
        p.ran,
        (unfold is_replayable in
            rw
              (
                is_replayable,
                p.found,
                one,
                same,
                same_text_refl instance_id,
                same_text_refl hub.generation,
                le→leb (first_sequence 1 p.kept.records - 1) 1
                    (first_of_one k.before p.kept.records f),
              )
              refl),
      )

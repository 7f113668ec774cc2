-- ===== src/Events/Calls.antt =====
-- crates/machineemu/src/api/events.rs: the calls of the event hub as one type, sequences of them,
-- and the hubs that these reach.
use machineemu.Prelude.{
  ℕ, suc, ◌+◌, ◌≤◌, ◌<◌, ◌≡◌, refl, ap, String, true, Option, some, List, [], ◌∷◌, length, inl, inr,
  All, Option-cases, arith,
}
use machineemu.Events.Cursors.{u64_mod, Cursor}
use machineemu.Events.Histories.{
  EventRecord, EventHub, lookup, or_default, put, remove, sum, sub_u64, ◌>>=◌,
}
use machineemu.Events.Histories.Entries.{
  Unique-put, sum-put_found, sum-found, All-put, All-found, Unique-remove, All-remove, sum-remove,
}
use machineemu.Events.Histories.Loops.{sub_u64_lem}
use machineemu.Events.Histories.Evicted.{IsHistory}
use machineemu.Events.Kept.{IsHub}
use machineemu.Events.Published.{no_text, too_long, accepted, publish-result}
use machineemu.Events.Replay.{full, replayed, no_snapshot, resynced, subscribe-result}
use machineemu.Events.{new_hub, publish, subscribe, unsubscribe, close_instance, drop_number}

pub data HubCall : Type 0 where
  publish_event : List ℕ → String → Option (List ℕ) → HubCall
  open_stream : List ℕ → Option Cursor → Option (List ℕ) → HubCall
  drop_stream : List ℕ → ℕ → HubCall
  close : List ℕ → HubCall

module _ {Sender : Type 0} (channel : ℕ → Sender)
    (try_send : Sender → EventRecord → Option Sender) where
  unfoldable pub hub_call : HubCall → EventHub Sender → Option (EventHub Sender)
  unfolding publish subscribe unsubscribe close_instance
  hub_call (publish_event instance_id kind event) hub =
      publish channel try_send instance_id kind event true hub >>= λ out. some out.0
  hub_call (open_stream instance_id cursor snapshot) hub =
      subscribe channel try_send instance_id cursor snapshot hub >>= λ out. some out.0
  hub_call (drop_stream instance_id number) hub = some (unsubscribe instance_id number hub)
  hub_call (close instance_id) hub = some (close_instance instance_id hub)

  unfoldable pub hub_calls : List HubCall → EventHub Sender → Option (EventHub Sender)
  unfolding hub_call
  hub_calls [] hub = some hub
  hub_calls (call ∷ calls) hub = hub_call call hub >>= λ left. hub_calls calls left

-- The names are those of identifiers.
abbrev pub IsNamed : HubCall → Type 0
IsNamed (publish_event instance_id kind event) = length instance_id ≤ 64
IsNamed (open_stream instance_id cursor snapshot) = length instance_id ≤ 64
IsNamed (drop_stream instance_id number) = Unit
IsNamed (close instance_id) = Unit

module _ {Sender : Type 0} where
  -- The call ends, with a valid hub that has counted at most `bound` events.
  pub record Leaves (bound : ℕ) (out : Option (EventHub Sender)) : Type 0 where
    pub left : EventHub Sender
    pub ran : out ≡ some left
    pub is_sound : IsHub left
    pub order_le : left.next_order ≤ bound

  drop_number-le :
      (number : ℕ) (subscribers : List (ℕ × Sender))
      → length (drop_number number subscribers) ≤ length subscribers
  unfolding drop_number
  drop_number-le number [] = omega arith
  drop_number-le number ((n, s) ∷ subscribers) = ground (arith, drop_number-le number subscribers)

  unsubscribe-IsHub :
      (instance_id : List ℕ) (number : ℕ) (hub : EventHub Sender)
      → IsHub hub
      → IsHub (unsubscribe instance_id number hub)
  unsubscribe-IsHub instance_id number hub v =
      elim (Option-cases (lookup instance_id hub.histories)) [
        | inl missing ↦ unfold unsubscribe in rw (unsubscribe, missing) v
        | inr (h, found) ↦
            let old =
              All-found (IsHistory hub.next_order) instance_id h hub.histories found v.each in
            let h' = record h { subscribers = drop_number number h.subscribers } in
            let fewer = drop_number-le number h.subscribers in
            let people =
              sum-put_found (λ i. length i.subscribers) instance_id h' h hub.histories refl found in
            let bytes = sum-put_found (λ i. i.bytes) instance_id h' h hub.histories refl found in
            let kept : IsHub (record hub { histories = put instance_id h' hub.histories }) =
              record {
                generation_length = v.generation_length;
                unique = Unique-put instance_id h' hub.histories v.unique;
                each =
                    All-put (IsHistory hub.next_order) instance_id h' hub.histories
                      (record {
                        counted = old.counted;
                        bytes_le = old.bytes_le;
                        few = old.few;
                        before = old.before;
                        contiguous = old.contiguous;
                        sequence_le = old.sequence_le;
                        subscribers_le = omega (arith, fewer, old.subscribers_le);
                        ordered = old.ordered;
                      })
                      v.each;
                counted = omega (arith, bytes, v.counted);
                within = v.within;
                subscribers_le = omega (arith, people, fewer, v.subscribers_le);
              } in
            unfold unsubscribe in rw (unsubscribe, found) kept
      ]

  pub close_instance-IsHub :
      (instance_id : List ℕ) (hub : EventHub Sender)
      → IsHub hub
      → IsHub (close_instance instance_id hub)
  close_instance-IsHub instance_id hub v = elim (Option-cases (lookup instance_id hub.histories)) [
    | inl missing ↦ unfold close_instance in rw (close_instance, missing) v
    | inr (h, found) ↦
        let here : or_default (lookup instance_id hub.histories) ≡ h =
          rw found (unfold or_default in refl) in
        let people = sum-remove (λ i. length i.subscribers) instance_id hub.histories refl in
        let bytes = sum-remove (λ i. i.bytes) instance_id hub.histories refl in
        let most = sum-found (λ i. i.bytes) instance_id h hub.histories found in
        let same : (or_default (lookup instance_id hub.histories)).bytes ≡ h.bytes =
          ap (λ i. i.bytes) here in
        let less =
          sub_u64_lem hub.bytes h.bytes (omega (arith, most, v.counted))
            (omega (arith, v.within)) in
        let kept : IsHub (record hub {
          histories = remove instance_id hub.histories;
          bytes = sub_u64 hub.bytes h.bytes;
        }) =
          record {
            generation_length = v.generation_length;
            unique = Unique-remove instance_id hub.histories v.unique;
            each =
                All-remove (λ e. IsHistory hub.next_order e.history) instance_id hub.histories
                  v.each;
            counted = omega (arith, less, bytes, same, most, v.counted);
            within = omega (arith, less, v.within);
            subscribers_le = omega (arith, people, v.subscribers_le);
          } in
        unfold close_instance in rw (close_instance, found) kept
  ]

  same_order_unsubscribe :
      (instance_id : List ℕ) (number : ℕ) (hub : EventHub Sender)
      → (unsubscribe instance_id number hub).next_order ≡ hub.next_order
  same_order_unsubscribe instance_id number hub =
      elim (Option-cases (lookup instance_id hub.histories)) [
        | inl missing ↦ unfold unsubscribe in rw (unsubscribe, missing) refl
        | inr (h, found) ↦ unfold unsubscribe in rw (unsubscribe, found) refl
      ]

  pub same_order_close :
      (instance_id : List ℕ) (hub : EventHub Sender)
      → (close_instance instance_id hub).next_order ≡ hub.next_order
  same_order_close instance_id hub = elim (Option-cases (lookup instance_id hub.histories)) [
    | inl missing ↦ unfold close_instance in rw (close_instance, missing) refl
    | inr (h, found) ↦ unfold close_instance in rw (close_instance, found) refl
  ]

module _ {Sender : Type 0} (channel : ℕ → Sender)
    (try_send : Sender → EventRecord → Option Sender) where
  hub_call-Leaves :
      (call : HubCall) (hub : EventHub Sender)
      → IsHub hub
      → IsNamed call
      → suc hub.next_order < u64_mod
      → Leaves (suc hub.next_order) (hub_call channel try_send call hub)
  unfolding hub_call
  hub_call-Leaves (publish_event instance_id kind event) hub v short room =
      elim (publish-result channel try_send hub instance_id kind event true v short room) [
        | no_text missing ran ↦ record {
          left = hub;
          ran = rw (hub_call, ran) refl;
          is_sound = v;
          order_le = omega arith;
        }
        | too_long text given long ran ↦ record {
          left = hub;
          ran = rw (hub_call, ran) refl;
          is_sound = v;
          order_le = omega arith;
        }
        | accepted text given fits p ↦ record {
          left = p.left;
          ran = rw (hub_call, p.ran) refl;
          is_sound = p.is_sound;
          order_le = omega (arith, p.one_more);
        }
      ]
  hub_call-Leaves (open_stream instance_id cursor snapshot) hub v short room =
      elim (subscribe-result channel try_send hub instance_id cursor snapshot v short room) [
        | full taken ran ↦ record {
          left = hub;
          ran = rw (hub_call, ran) refl;
          is_sound = v;
          order_le = omega arith;
        }
        | replayed c given k follows j ↦ record {
          left = j.left;
          ran = rw (hub_call, j.ran) refl;
          is_sound = j.is_sound;
          order_le = omega (arith, j.same_order);
        }
        | no_snapshot fresh bad ran ↦ record {
          left = hub;
          ran = rw (hub_call, ran) refl;
          is_sound = v;
          order_le = omega arith;
        }
        | resynced text given fresh p j sent ↦ record {
          left = j.left;
          ran = rw (hub_call, j.ran) refl;
          is_sound = j.is_sound;
          order_le = omega (arith, j.same_order, p.one_more);
        }
      ]
  hub_call-Leaves (drop_stream instance_id number) hub v short room = record {
    left = unsubscribe instance_id number hub;
    ran = refl;
    is_sound = unsubscribe-IsHub instance_id number hub v;
    order_le = omega (arith, same_order_unsubscribe instance_id number hub);
  }
  hub_call-Leaves (close instance_id) hub v short room = record {
    left = close_instance instance_id hub;
    ran = refl;
    is_sound = close_instance-IsHub instance_id hub v;
    order_le = omega (arith, same_order_close instance_id hub);
  }

  calls_from :
      (calls : List HubCall) (hub : EventHub Sender)
      → IsHub hub
      → All IsNamed calls
      → suc (hub.next_order + length calls) < u64_mod
      → Leaves (hub.next_order + length calls) (hub_calls channel try_send calls hub)
  unfolding hub_calls
  calls_from [] hub v named room = record {
    left = hub;
    ran = refl;
    is_sound = v;
    order_le = omega arith;
  }
  calls_from (call ∷ calls) hub v named room =
      let one = hub_call-Leaves call hub v named.0 (omega arith) in
      let all = calls_from calls one.left one.is_sound named.1 (omega (arith, one.order_le)) in
      record {
        left = all.left;
        ran = rw (hub_calls, one.ran) all.ran;
        is_sound = all.is_sound;
        order_le = omega (arith, all.order_le, one.order_le);
      }

  pub new-IsHub : (generation : List ℕ) → length generation ≡ 32 → IsHub (new_hub Sender generation)
  new-IsHub generation long = record {
    generation_length = long;
    unique = tt;
    each = tt;
    counted = unfold sum in refl;
    within = omega arith;
    subscribers_le = unfold sum in omega arith;
  }

  -- Fewer than 2^64 - 1 calls on a new hub, whose generation has 32 digits, always end, if the
  -- instances of events and streams have names of at most 64 bytes. The hub that they leave counts
  -- its bytes exactly and keeps its bounds: 256 records and 1 MiB for an instance, 32 MiB in all, 8
  -- subscribers of an instance and 128 in all; the records of each instance are numbered one by one
  -- up to its latest event.
  pub hub_calls-Leaves :
      (generation : List ℕ) (calls : List HubCall)
      → length generation ≡ 32
      → All IsNamed calls
      → suc (length calls) < u64_mod
      → Leaves (length calls) (hub_calls channel try_send calls (new_hub Sender generation))
  hub_calls-Leaves generation calls long named room =
      let reached =
        calls_from calls (new_hub Sender generation) (new-IsHub generation long) named
          (omega (arith, room)) in
      record {
        left = reached.left;
        ran = reached.ran;
        is_sound = reached.is_sound;
        order_le = omega (arith, reached.order_le);
      }

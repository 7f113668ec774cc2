-- ===== src/Events/Replay.antt =====
-- crates/machineemu/src/api/events.rs: `subscribe` on every branch.
use machineemu.Prelude.{
  ◌∙◌, ℕ, suc, ◌≤◌, ◌<◌, ◌≡◌, refl, sym, ap, subst, Bool, true, false, ◌||◌, Option, none, some,
  List, [], ◌∷◌, ◌++◌, length, length-append, leb, ◌⊎◌, inl, inr, Bool-cases, arith,
}
use machineemu.Prelude.Result.{Result, ok, err}
use machineemu.Events.Cursors.{u64_mod, Cursor}
use machineemu.Events.Histories.{
  EventRecord, History, EventHub, add_u64, max_event_bytes, global_subscribers,
  instance_subscribers, lookup, or_default, put, sum,
}
use machineemu.Events.Histories.Entries.{Unique-put, sum-put_found, All-put, All-found}
use machineemu.Events.Histories.Evicted.{Follow, IsHistory}
use machineemu.Events.Kept.{IsHub, history_of}
use machineemu.Events.Published.{Published, no_text, too_long, accepted, publish-result}
use machineemu.Events.{
  last, new_record, StatusCode, too_many_requests, service_unavailable, after, publish,
  subscriber_count, is_replayable, initial_records, join, subscribe,
}
use machineemu.Events.Reached.{Follow-after, IsReached, IsUnreached, reached, unreached}

last-append : (earlier : List EventRecord) (r : EventRecord) → last (earlier ++ r ∷ []) ≡ r ∷ []
unfolding last
last-append [] r = refl
last-append (q ∷ []) r = refl
last-append (q ∷ s ∷ earlier) r = last-append (s ∷ earlier) r

initial-last :
    (cursor : Option Cursor) (earlier : List EventRecord) (r : EventRecord)
    (records : List EventRecord)
    → records ≡ earlier ++ r ∷ []
    → initial_records cursor false records ≡ r ∷ []
initial-last none earlier r records e = ap last e ∙ last-append earlier r
initial-last (some c) earlier r records e = ap last e ∙ last-append earlier r

module _ {Sender : Type 0} (channel : ℕ → Sender)
    (try_send : Sender → EventRecord → Option Sender) where
  -- The hub that a subscriber has joined.
  pub record Joined (hub : EventHub Sender) (instance_id : List ℕ) (cursor : Option Cursor)
      (replay : Bool) (h : History Sender)
      (out : Option (EventHub Sender × Result StatusCode (ℕ × List EventRecord))) : Type 0 where
    pub left : EventHub Sender
    pub number : ℕ
    pub ran : out ≡ some (left, ok (number, initial_records cursor replay h.records))
    pub is_sound : IsHub left
    pub same_order : left.next_order ≡ hub.next_order

  pub join_lem :
      (hub : EventHub Sender) (instance_id : List ℕ) (cursor : Option Cursor) (replay : Bool)
      (h : History Sender)
      → IsHub hub
      → lookup instance_id hub.histories ≡ some h
      → length h.subscribers < instance_subscribers
      → sum (λ i. length i.subscribers) hub.histories < global_subscribers
      → Joined hub instance_id cursor replay h (join channel try_send instance_id cursor replay hub)
  unfolding join
  join_lem hub instance_id cursor replay h v found here all =
      let old = All-found (IsHistory hub.next_order) instance_id h hub.histories found v.each in
      let number = add_u64 hub.next_subscriber 1 in
      let h' = record h { subscribers = h.subscribers ++ (number, channel 64) ∷ [] } in
      let people =
        sum-put_found (λ i. length i.subscribers) instance_id h' h hub.histories refl found in
      let bytes = sum-put_found (λ i. i.bytes) instance_id h' h hub.histories refl found in
      let one_more = length-append h.subscribers ((number, channel 64) ∷ []) in
      record {
        left = record hub {
          next_subscriber = number;
          histories = put instance_id h' hub.histories;
        };
        number = number;
        ran = rw (join, found) refl;
        is_sound = record {
          generation_length = v.generation_length;
          unique = Unique-put instance_id h' hub.histories v.unique;
          each =
              All-put (IsHistory hub.next_order) instance_id h' hub.histories
                (record {
                  counted = old.counted;
                  bytes_le = old.bytes_le;
                  few = old.few;
                  before = old.before;
                  contiguous = old.contiguous;
                  sequence_le = old.sequence_le;
                  subscribers_le = omega (arith, one_more, here);
                  ordered = old.ordered;
                })
                v.each;
          counted = omega (arith, bytes, v.counted);
          within = v.within;
          subscribers_le = omega (arith, people, one_more, all);
        };
        same_order = refl;
      }

  -- What a subscriber gets: the events after its cursor, or else a snapshot.
  pub data SubscribeResult (hub : EventHub Sender) (instance_id : List ℕ) (cursor : Option Cursor)
      (snapshot : Option (List ℕ))
      (out : Option (EventHub Sender × Result StatusCode (ℕ × List EventRecord))) : Type 0 where
    full :
        (global_subscribers ≤ sum (λ h. length h.subscribers) hub.histories)
          ⊎ (instance_subscribers ≤ length (history_of hub instance_id).subscribers)
        → out ≡ some (hub, err too_many_requests)
        → SubscribeResult hub instance_id cursor snapshot out
    replayed :
        (c : Cursor)
        → cursor ≡ some c
        → (k : IsReached hub instance_id c)
        → Follow c.sequence (after c.sequence k.history.records) k.history.next_sequence
        → Joined hub instance_id (some c) true k.history out
        → SubscribeResult hub instance_id cursor snapshot out
    no_snapshot :
        IsUnreached hub instance_id cursor
        → (snapshot ≡ none)
          ⊎ ((text : List ℕ) × (snapshot ≡ some text) × (max_event_bytes < length text))
        → out ≡ some (hub, err service_unavailable)
        → SubscribeResult hub instance_id cursor snapshot out
    resynced :
        (text : List ℕ)
        → snapshot ≡ some text
        → IsUnreached hub instance_id cursor
        → (p : Published hub instance_id "snapshot" text
            (publish channel try_send instance_id "snapshot" snapshot false hub))
        → Joined p.left instance_id cursor false p.kept out
        → initial_records cursor false p.kept.records
          ≡ new_record hub instance_id "snapshot" text ∷ []
        → SubscribeResult hub instance_id cursor snapshot out

  same_outcome :
      (hub : EventHub Sender) (instance_id : List ℕ) (cursor : Option Cursor) (replay : Bool)
      (h : History Sender)
      {out out' : Option (EventHub Sender × Result StatusCode (ℕ × List EventRecord))}
      → out' ≡ out
      → Joined hub instance_id cursor replay h out
      → Joined hub instance_id cursor replay h out'
  same_outcome hub instance_id cursor replay h same j =
      subst (Joined hub instance_id cursor replay h) (sym same) j

  abbrev is_full : EventHub Sender → List ℕ → Bool
  is_full hub instance_id =
      leb global_subscribers (sum subscriber_count hub.histories)
      || leb instance_subscribers (subscriber_count (history_of hub instance_id))

  room_left :
      (hub : EventHub Sender) (instance_id : List ℕ)
      → is_full hub instance_id ≡ false
      → (sum (λ h. length h.subscribers) hub.histories < global_subscribers)
        × (length (history_of hub instance_id).subscribers < instance_subscribers)
  room_left hub instance_id free = ground arith

  no_room :
      (hub : EventHub Sender) (instance_id : List ℕ)
      → is_full hub instance_id ≡ true
      → (global_subscribers ≤ sum (λ h. length h.subscribers) hub.histories)
        ⊎ (instance_subscribers ≤ length (history_of hub instance_id).subscribers)
  no_room hub instance_id taken = ground arith

  subscribe_fresh :
      (hub : EventHub Sender) (instance_id : List ℕ) (cursor : Option Cursor)
      (snapshot : Option (List ℕ))
      → IsHub hub
      → length instance_id ≤ 64
      → suc hub.next_order < u64_mod
      → is_full hub instance_id ≡ false
      → is_replayable hub instance_id cursor ≡ false
      → SubscribeResult hub instance_id cursor snapshot
          (subscribe channel try_send instance_id cursor snapshot hub)
  unfolding subscribe
  subscribe_fresh hub instance_id cursor snapshot v short room free fresh =
      elim (publish-result channel try_send hub instance_id "snapshot" snapshot false v short
        room) [
          | no_text missing ran ↦
              no_snapshot (unreached hub instance_id cursor v room fresh) (inl missing)
                (rw (subscribe, free, fresh, ran) refl)
          | too_long text given long ran ↦
              no_snapshot (unreached hub instance_id cursor v room fresh) (inr (text, given, long))
                (rw (subscribe, free, fresh, ran) refl)
          | accepted text given fits p ↦
              let j =
                join_lem p.left instance_id cursor false p.kept p.is_sound p.found
                  (let (all, here) = room_left hub instance_id free in omega (arith, p.no_more))
                  (let (all, here) = room_left hub instance_id free in omega (arith, p.people)) in
              resynced text given (unreached hub instance_id cursor v room fresh) p
                (same_outcome p.left instance_id cursor false p.kept
                  (rw (subscribe, free, fresh, p.ran) refl) j)
                (initial-last cursor p.earlier _ p.kept.records p.ends)
        ]

  subscribe_again :
      (hub : EventHub Sender) (instance_id : List ℕ) (cursor : Option Cursor)
      (snapshot : Option (List ℕ))
      → IsHub hub
      → suc hub.next_order < u64_mod
      → is_full hub instance_id ≡ false
      → is_replayable hub instance_id cursor ≡ true
      → SubscribeResult hub instance_id cursor snapshot
          (subscribe channel try_send instance_id cursor snapshot hub)
  subscribe_again hub instance_id none snapshot v room free known_to =
      absurd (unfold is_replayable in cc known_to)
  subscribe_again hub instance_id (some c) snapshot v room free known_to =
      let k = reached hub instance_id c v room known_to in
      let (all, here) = room_left hub instance_id free in
      let same : history_of hub instance_id ≡ k.history = rw k.found (unfold or_default in refl) in
      let j =
        join_lem hub instance_id (some c) true k.history v k.found
          (omega (arith, here, ap (λ h. length h.subscribers) same)) all in
      let joined : subscribe channel try_send instance_id (some c) snapshot hub
          ≡ join channel try_send instance_id (some c) true hub =
        unfold subscribe in rw (subscribe, free, known_to) refl in
      replayed c refl k
        (Follow-after c.sequence k.before k.history.records k.history.next_sequence k.before_le k.le
          k.contiguous)
        (same_outcome hub instance_id (some c) true k.history joined j)

  -- A subscription to an instance with a name of at most 64 bytes, in a valid hub that has counted
  -- less than 2^64 - 1 events, always ends, in one of four ways. With 128 subscribers in all or 8
  -- of the instance it is refused. A cursor of this instance and hub, numbered neither above the
  -- latest event nor below the number that the records start after, gets the events after it,
  -- numbered one by one up to the latest. Only without such a cursor is there a snapshot: one that
  -- can be published is, and is what the subscriber gets; one that cannot be leaves the hub alone.
  -- A hub with a new subscriber is valid again.
  pub subscribe-result :
      (hub : EventHub Sender) (instance_id : List ℕ) (cursor : Option Cursor)
      (snapshot : Option (List ℕ))
      → IsHub hub
      → length instance_id ≤ 64
      → suc hub.next_order < u64_mod
      → SubscribeResult hub instance_id cursor snapshot
          (subscribe channel try_send instance_id cursor snapshot hub)
  subscribe-result hub instance_id cursor snapshot v short room =
      elim (Bool-cases (is_full hub instance_id)) [
        | inl taken ↦
            full (no_room hub instance_id taken) (unfold subscribe in rw (subscribe, taken) refl)
        | inr free ↦ elim (Bool-cases (is_replayable hub instance_id cursor)) [
          | inl known_to ↦ subscribe_again hub instance_id cursor snapshot v room free known_to
          | inr fresh ↦ subscribe_fresh hub instance_id cursor snapshot v short room free fresh
        ]
      ]

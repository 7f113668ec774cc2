-- ===== src/Events/Published.antt =====
-- crates/machineemu/src/api/events.rs: `publish` on every branch.
use machineemu.Prelude.{
  ℕ, suc, ◌≤◌, ◌<◌, ◌≡◌, refl, sym, ap, ◌∙◌, String, Bool, true, false, Option, none, some, List,
  [], ◌∷◌, ◌++◌, length, ltb, ltb→lt, ltb→le, le→ltb, inl, inr, Bool-cases, arith,
}
use machineemu.Events.Cursors.{u64_mod, same_text}
use machineemu.Events.Histories.{
  EventRecord, size, History, EventHub, add_u64, max_event_bytes, lookup, sum,
}
use machineemu.Events.Histories.Loops.{add_u64_lem}
use machineemu.Events.Histories.Evicted.{Shrunk, value}
use machineemu.Events.Kept.{IsHub, history_of, history_bytes, IsNew, new_record-IsNew}
use machineemu.Events.{new_record, append, publish}
use machineemu.Events.Settled.{subscribers_after, IsAdded, settle_lem}

module _ {Sender : Type 0} where
  -- What an event that fits leaves.
  pub record Published (hub : EventHub Sender) (instance_id : List ℕ) (kind : String)
      (text : List ℕ) (out : Option (EventHub Sender × Bool)) : Type 0 where
    pub left : EventHub Sender
    pub ran : out ≡ some (left, true)
    pub is_sound : IsHub left
    pub one_more : left.next_order ≡ suc hub.next_order
    pub same_generation : left.generation ≡ hub.generation
    pub kept : History Sender
    pub found : lookup instance_id left.histories ≡ some kept
    pub next_one : kept.next_sequence ≡ suc (history_of hub instance_id).next_sequence
    pub people :
        sum (λ i. length i.subscribers) left.histories
        ≤ sum (λ i. length i.subscribers) hub.histories
    pub no_more : length kept.subscribers ≤ length (history_of hub instance_id).subscribers
    pub earlier : List EventRecord
    pub ends : kept.records ≡ earlier ++ new_record hub instance_id kind text ∷ []
    pub dropped : List EventRecord
    -- The new record comes last, and of the older ones the latest are left.
    pub listed :
        (history_of hub instance_id).records ++ new_record hub instance_id kind text ∷ []
        ≡ dropped ++ kept.records
    pub others :
        (name : List ℕ) (i : History Sender)
        → same_text instance_id name ≡ false
        → lookup name hub.histories ≡ some i
        → (j : History Sender) × (lookup name left.histories ≡ some j) × Shrunk i j

  -- What an event does: one that has no text or too long a one changes nothing.
  pub data PublishResult (hub : EventHub Sender) (instance_id : List ℕ) (kind : String)
      (event : Option (List ℕ)) (out : Option (EventHub Sender × Bool)) : Type 0 where
    no_text : event ≡ none → out ≡ some (hub, false) → PublishResult hub instance_id kind event out
    too_long :
        (text : List ℕ)
        → event ≡ some text
        → max_event_bytes < length text
        → out ≡ some (hub, false)
        → PublishResult hub instance_id kind event out
    accepted :
        (text : List ℕ)
        → event ≡ some text
        → length text ≤ max_event_bytes
        → Published hub instance_id kind text out
        → PublishResult hub instance_id kind event out

module _ {Sender : Type 0} (channel : ℕ → Sender)
    (try_send : Sender → EventRecord → Option Sender) where
  added :
      (hub : EventHub Sender) (instance_id : List ℕ) (r : EventRecord) (broadcast : Bool)
      → IsHub hub
      → IsNew hub instance_id r
      → IsAdded hub instance_id r
          (record hub { next_order = r.order; bytes = add_u64 hub.bytes (size r) })
          (append try_send r broadcast (history_of hub instance_id))
  added hub instance_id r broadcast v new = record {
    new = new;
    order = new.ordered;
    same_generation = refl;
    same_histories = refl;
    total = add_u64_lem hub.bytes (size r) (omega (arith, v.within, new.small));
    bytes =
        unfold append in
        add_u64_lem (history_of hub instance_id).bytes (size r)
          (omega (arith, v.within, new.small, history_bytes hub instance_id v));
    records = unfold append in refl;
    sequence = unfold append in refl;
    subscribers = subscribers_after try_send r broadcast (history_of hub instance_id);
  }

  pub published :
      (hub : EventHub Sender) (instance_id : List ℕ) (kind : String) (text : List ℕ)
      (broadcast : Bool)
      → IsHub hub
      → length instance_id ≤ 64
      → suc hub.next_order < u64_mod
      → length text ≤ max_event_bytes
      → Published hub instance_id kind text
          (publish channel try_send instance_id kind (some text) broadcast hub)
  unfolding publish
  published hub instance_id kind text broadcast v short room fits =
      let r = new_record hub instance_id kind text in
      let new = new_record-IsNew hub instance_id kind text v short room fits in
      let h = append try_send r broadcast (history_of hub instance_id) in
      let s = settle_lem hub instance_id r _ h v (added hub instance_id r broadcast v new) in
      record {
        left = s.left;
        ran = rw (publish, le→ltb max_event_bytes (length text) fits, s.ran) refl;
        is_sound = s.is_sound;
        one_more = s.one_more;
        same_generation = s.same_generation;
        kept = s.kept;
        found = s.found;
        next_one = s.shrunk.same_sequence ∙ (unfold append in new.numbered);
        people = s.people;
        no_more = omega (
          arith,
          ap length s.shrunk.same_subscribers,
          subscribers_after try_send r broadcast (history_of hub instance_id),
        );
        earlier = s.lasting.earlier;
        ends = ap (λ h. h.records) (value (sym s.found ∙ s.lasting.found)) ∙ s.lasting.ends;
        dropped = s.shrunk.dropped;
        listed = (unfold append in s.shrunk.parts);
        others = s.others;
      }

  -- An event for an instance with a name of at most 64 bytes, in a valid hub that has counted less
  -- than 2^64 - 1 events, always ends the call. Without a text, or with more than 16 KiB, it
  -- changes nothing. Otherwise the hub is valid again, within all its bounds, the event has the
  -- next number of its instance and the records of the instance are the latest of those before with
  -- the new one, which is always kept, at the end; the other histories lose their oldest records at
  -- most.
  pub publish-result :
      (hub : EventHub Sender) (instance_id : List ℕ) (kind : String) (event : Option (List ℕ))
      (broadcast : Bool)
      → IsHub hub
      → length instance_id ≤ 64
      → suc hub.next_order < u64_mod
      → PublishResult hub instance_id kind event
          (publish channel try_send instance_id kind event broadcast hub)
  unfolding publish
  publish-result hub instance_id kind none broadcast v short room = no_text refl refl
  publish-result hub instance_id kind (some text) broadcast v short room =
      elim (Bool-cases (ltb max_event_bytes (length text))) [
        | inl long ↦
            too_long text refl (ltb→lt max_event_bytes (length text) long) (rw (publish, long) refl)
        | inr fits ↦ accepted text refl (ltb→le max_event_bytes (length text) fits) (
            published hub instance_id kind text broadcast v short room
              (ltb→le max_event_bytes (length text) fits))
      ]

-- ===== src/Events.antt =====
-- crates/machineemu/src/api/events.rs: the event hub, which numbers the events of each instance,
-- keeps the latest of them within bounds, sends them to the subscribers and replays them to a
-- client that comes back. An event is given as the text of its JSON, or `none` where it has none.
-- The channels of tokio are parameters: `try_send` gives the channel after a message, or `none`
-- where the channel is full or closed.
pub mod Cursors
pub mod Histories
pub mod Kept
pub mod Settled
pub mod Published
pub mod Reached
pub mod Replay
pub mod Calls
pub mod Reopened
mod Examples
use machineemu.Prelude.{
  ℕ, suc, ◌+◌, ◌-◌, ◌≡◌, Bool, true, false, not, ◌&&◌, ◌||◌, String, Option, none, some, List, [],
  ◌∷◌, ◌++◌, length, ltb, leb, ◌==◌, if◌then◌else◌,
}
use machineemu.Prelude.Result.{Result, ok, err}
use machineemu.Events.Cursors.{u64_mod, same_text, event_id, Cursor}
use machineemu.Events.Histories.{
  add_u64, sub_u64, EventRecord, size, History, Entry, EventHub, trim, ◌>>=◌, lookup, or_default,
  put, remove, sum, retain, evict, max_event_bytes, global_subscribers, instance_subscribers,
}

-- `StatusCode`, as `subscribe` returns it.
pub data StatusCode : Type 0 where
  too_many_requests service_unavailable : StatusCode

-- `EventHub::new`, with the random text of its generation.
abbrev pub new_hub : (Sender : Type 0) → List ℕ → EventHub Sender
new_hub Sender generation = record {
  generation = generation;
  histories = [];
  bytes = 0;
  next_order = 0;
  next_subscriber = 0;
}

-- The records with a sequence number above that of a cursor.
unfoldable pub after : ℕ → List EventRecord → List EventRecord
after sequence [] = []
after sequence (r ∷ records) =
    let rest = after sequence records in if ltb sequence r.sequence then r ∷ rest else rest

-- `records.back()`, as a list of none or one.
unfoldable pub last : List EventRecord → List EventRecord
last [] = []
last (r ∷ []) = r ∷ []
last (r ∷ s ∷ records) = last (s ∷ records)

-- `records.front().map_or(next_sequence + 1, |r| r.sequence)`.
abbrev pub first_sequence : ℕ → List EventRecord → ℕ
first_sequence next_sequence [] = add_u64 next_sequence 1
first_sequence next_sequence (r ∷ records) = r.sequence

abbrev pub initial_records : Option Cursor → Bool → List EventRecord → List EventRecord
initial_records (some cursor) true records = after cursor.sequence records
initial_records _ _ records = last records

module _ {Sender : Type 0} where
  abbrev pub subscriber_count : History Sender → ℕ
  subscriber_count h = length h.subscribers

  abbrev pub record_count : History Sender → ℕ
  record_count h = length h.records

  -- `subscribers.remove(&subscriber)`.
  unfoldable pub drop_number : ℕ → List (ℕ × Sender) → List (ℕ × Sender)
  drop_number number [] = []
  drop_number number ((n, s) ∷ subscribers) =
      let rest = drop_number number subscribers in
      if n == number then subscribers else (n, s) ∷ rest

  -- The record of the next event of an instance.
  unfoldable pub new_record : EventHub Sender → List ℕ → String → List ℕ → EventRecord
  unfolding lookup or_default event_id
  new_record hub instance_id kind text =
      let sequence = add_u64 (or_default (lookup instance_id hub.histories)).next_sequence 1 in
      record {
        sequence = sequence;
        order = add_u64 hub.next_order 1;
        kind = kind;
        id = event_id instance_id hub.generation sequence;
        text = text;
      }

  -- Its subscribers are told, and it is listed last.
  unfoldable pub append :
      (Sender → EventRecord → Option Sender) → EventRecord → Bool → History Sender → History Sender
  unfolding retain
  append try_send r broadcast h = record {
    next_sequence = r.sequence;
    bytes = add_u64 h.bytes (size r);
    records = h.records ++ r ∷ [];
    subscribers = if broadcast then retain (λ s. try_send s r) h.subscribers else h.subscribers;
  }

  -- The two loops, and the hub that they leave. A round of the second drops a record, so that there
  -- are no more rounds than records.
  unfoldable pub settle : List ℕ → History Sender → EventHub Sender → Option (EventHub Sender)
  unfolding trim put sum evict
  settle instance_id h hub = trim h.records h.bytes hub.bytes >>= λ trimmed.
      let kept = record h { records = trimmed.0; bytes = trimmed.1 } in
      let entries = put instance_id kept hub.histories in
      evict (suc (sum record_count entries)) entries trimmed.2 >>= λ left.
      some (record hub { histories = left.0; bytes = left.1 })

  abbrev pub replayable : EventHub Sender → List ℕ → Cursor → Option (History Sender) → Bool
  replayable hub instance_id cursor none = false
  replayable hub instance_id cursor (some h) =
      same_text cursor.instance_id instance_id
      && (same_text cursor.generation hub.generation
          && (leb (first_sequence h.next_sequence h.records - 1) cursor.sequence
              && leb cursor.sequence h.next_sequence))

  unfoldable pub is_replayable : EventHub Sender → List ℕ → Option Cursor → Bool
  unfolding lookup same_text
  is_replayable hub instance_id none = false
  is_replayable hub instance_id (some cursor) =
      replayable hub instance_id cursor (lookup instance_id hub.histories)

  abbrev pub unsubscribe_from :
      Option (History Sender) → List ℕ → ℕ → EventHub Sender → EventHub Sender
  unsubscribe_from none instance_id subscriber hub = hub
  unsubscribe_from (some h) instance_id subscriber hub = record hub {
    histories =
        put instance_id (record h { subscribers = drop_number subscriber h.subscribers })
          hub.histories;
  }

  unfoldable pub unsubscribe : List ℕ → ℕ → EventHub Sender → EventHub Sender
  unfolding lookup put drop_number
  unsubscribe instance_id subscriber hub =
      unsubscribe_from (lookup instance_id hub.histories) instance_id subscriber hub

  abbrev pub close_found : Option (History Sender) → List ℕ → EventHub Sender → EventHub Sender
  close_found none instance_id hub = hub
  close_found (some h) instance_id hub = record hub {
    histories = remove instance_id hub.histories;
    bytes = sub_u64 hub.bytes h.bytes;
  }

  unfoldable pub close_instance : List ℕ → EventHub Sender → EventHub Sender
  unfolding lookup remove
  close_instance instance_id hub = close_found (lookup instance_id hub.histories) instance_id hub

module _ {Sender : Type 0} (channel : ℕ → Sender)
    (try_send : Sender → EventRecord → Option Sender) where
  -- The hub after a call, and whether the call published its event.
  unfoldable pub publish :
      List ℕ → String → Option (List ℕ) → Bool → EventHub Sender → Option (EventHub Sender × Bool)
  unfolding lookup or_default new_record append settle
  publish instance_id kind none broadcast hub = some (hub, false)
  publish instance_id kind (some text) broadcast hub =
      if ltb max_event_bytes (length text)
      then some (hub, false)
      else let r = new_record hub instance_id kind text in
        let h = append try_send r broadcast (or_default (lookup instance_id hub.histories)) in
        let counted = record hub { next_order = r.order; bytes = add_u64 hub.bytes (size r) } in
        settle instance_id h counted >>= λ settled. some (settled, true)

  -- The subscriber's number and the records to start with; its channel holds 64 messages. Without
  -- a history the code panics.
  unfoldable pub join :
      List ℕ
      → Option Cursor
      → Bool
      → EventHub Sender
      → Option (EventHub Sender × Result StatusCode (ℕ × List EventRecord))
  unfolding lookup put after last
  join instance_id cursor replay hub = lookup instance_id hub.histories >>= λ h.
      let number = add_u64 hub.next_subscriber 1 in
      some (
        record hub {
          next_subscriber = number;
          histories =
              put instance_id
                (record h { subscribers = h.subscribers ++ (number, channel 64) ∷ [] })
                hub.histories;
        },
        ok (number, initial_records cursor replay h.records),
      )

  unfoldable pub subscribe :
      List ℕ
      → Option Cursor
      → Option (List ℕ)
      → EventHub Sender
      → Option (EventHub Sender × Result StatusCode (ℕ × List EventRecord))
  unfolding lookup or_default sum is_replayable publish join
  subscribe instance_id cursor snapshot hub =
      let total = sum subscriber_count hub.histories in
      let count = subscriber_count (or_default (lookup instance_id hub.histories)) in
      if leb global_subscribers total || leb instance_subscribers count
      then some (hub, err too_many_requests)
      else if is_replayable hub instance_id cursor
      then join instance_id cursor true hub
      else publish instance_id "snapshot" snapshot false hub >>= λ published.
          if published.1
          then join instance_id cursor false published.0
          else some (published.0, err service_unavailable)

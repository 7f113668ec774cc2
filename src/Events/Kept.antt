-- ===== src/Events/Kept.antt =====
-- crates/machineemu/src/api/events.rs: what holds of the hub between calls, and of a history that
-- gets a record.
use machineemu.Prelude.{
  ℕ, zero, suc, ◌+◌, ◌/◌, ◌%◌, ◌≤◌, ◌<◌, ◌≡◌, refl, sym, ap, ◌∙◌, String, Option, none, some, List,
  [], ◌∷◌, ◌++◌, length, length-append, ltb, inl, inr, All, Bool-cases, arith,
}
use machineemu.Events.Cursors.{u64_mod, digits, event_id}
use machineemu.Events.Histories.{
  EventRecord, size, History, Entry, EventHub, add_u64, max_event_bytes, global_history_bytes,
  global_subscribers, lookup, or_default, sum, retain, retain_one, default_history,
}
use machineemu.Events.Histories.Entries.{Unique, All-lookup, sum-put}
use machineemu.Events.Histories.Loops.{add_u64_lem}
use machineemu.Events.Histories.Evicted.{Follow, IsHistory}
use machineemu.Events.{new_record}

length-digits : (places n : ℕ) → length (digits places n) ≤ places
unfolding digits
length-digits zero n = omega arith
length-digits (suc places) n = elim (Bool-cases (ltb n 10)) [
  | inl small ↦ rw small (omega arith)
  | inr large ↦ rw large (
      omega (
        arith,
        length-append {0} (digits places (n / 10)) ((b'0' + n % 10) ∷ []),
        length-digits places (n / 10),
      ))
]

length-event_id :
    (instance_id generation : List ℕ) (sequence : ℕ)
    → length (event_id instance_id generation sequence)
      ≤ length instance_id + length generation + 22
unfolding event_id
length-event_id instance_id generation sequence = omega (
  arith,
  length-append {0} instance_id (b':' ∷ (generation ++ (b':' ∷ digits 20 sequence))),
  length-append {0} generation (b':' ∷ digits 20 sequence),
  length-digits 20 sequence,
)

pub Follow-append :
    (before : ℕ) (records : List EventRecord) (latest : ℕ) (r : EventRecord)
    → Follow before records latest
    → r.sequence ≡ suc latest
    → Follow before (records ++ r ∷ []) r.sequence
Follow-append before [] latest r f next = (next ∙ ap suc (sym f), refl)
Follow-append before (s ∷ records) latest r f next =
    (f.0, Follow-append s.sequence records latest r f.1 next)

pub orders-le :
    (low high : ℕ) (records : List EventRecord)
    → low ≤ high
    → All (λ r. r.order ≤ low) records
    → All (λ r. r.order ≤ high) records
orders-le low high [] le all = tt
orders-le low high (r ∷ records) le all =
    (omega (arith, all.0), orders-le low high records le all.1)

module _ {Sender : Type 0} where
  -- Between calls. The counts agree with the records, and everything is within its bound.
  pub record IsHub (hub : EventHub Sender) : Type 0 where
    pub generation_length : length hub.generation ≡ 32
    pub unique : Unique hub.histories
    pub each : All (λ e. IsHistory hub.next_order e.history) hub.histories
    pub counted : hub.bytes ≡ sum (λ h. h.bytes) hub.histories
    pub within : hub.bytes ≤ global_history_bytes
    pub subscribers_le : sum (λ h. length h.subscribers) hub.histories ≤ global_subscribers

  pub IsHistory-mono :
      (low high : ℕ) (h : History Sender) → low ≤ high → IsHistory low h → IsHistory high h
  IsHistory-mono low high h le v = record {
    counted = v.counted;
    bytes_le = v.bytes_le;
    few = v.few;
    before = v.before;
    contiguous = v.contiguous;
    sequence_le = omega (arith, v.sequence_le);
    subscribers_le = v.subscribers_le;
    ordered = orders-le low high h.records le v.ordered;
  }

  pub All-mono :
      (low high : ℕ) (entries : List (Entry Sender))
      → low ≤ high
      → All (λ e. IsHistory low e.history) entries
      → All (λ e. IsHistory high e.history) entries
  All-mono low high [] le all = tt
  All-mono low high (e ∷ entries) le all =
      (IsHistory-mono low high e.history le all.0, All-mono low high entries le all.1)

  pub default-IsHistory : (bound : ℕ) → IsHistory bound (default_history {Sender = Sender})
  default-IsHistory bound = record {
    counted = refl;
    bytes_le = omega arith;
    few = omega arith;
    before = 0;
    contiguous = refl;
    sequence_le = omega arith;
    subscribers_le = omega arith;
    ordered = tt;
  }

  -- The history of an instance, empty before its first event.
  abbrev pub history_of : EventHub Sender → List ℕ → History Sender
  history_of hub instance_id = or_default (lookup instance_id hub.histories)

  pub history_of-IsHistory :
      (hub : EventHub Sender) (instance_id : List ℕ)
      → IsHub hub
      → IsHistory hub.next_order (history_of hub instance_id)
  history_of-IsHistory hub instance_id v =
      All-lookup (IsHistory hub.next_order) instance_id hub.histories
        (default-IsHistory hub.next_order) v.each

  pub history_bytes :
      (hub : EventHub Sender) (instance_id : List ℕ)
      → IsHub hub
      → (history_of hub instance_id).bytes ≤ hub.bytes
  history_bytes hub instance_id v =
      omega
        (arith, sum-put (λ h. h.bytes) instance_id default_history hub.histories refl, v.counted)

  retain_one-le :
      (n : ℕ) (sent : Option Sender) (rest : List (ℕ × Sender))
      → length (retain_one n sent rest) ≤ suc (length rest)
  retain_one-le n none rest = omega arith
  retain_one-le n (some s) rest = omega arith

  pub retain-le :
      (send : Sender → Option Sender) (subscribers : List (ℕ × Sender))
      → length (retain send subscribers) ≤ length subscribers
  unfolding retain
  retain-le send [] = omega arith
  retain-le send ((n, s) ∷ subscribers) =
      omega (arith, retain_one-le n (send s) (retain send subscribers), retain-le send subscribers)

  -- A new record is small, numbered after the latest, and later than all others.
  pub record IsNew (hub : EventHub Sender) (instance_id : List ℕ) (r : EventRecord) : Type 0 where
    pub small : size r ≤ 20000
    pub numbered : r.sequence ≡ suc (history_of hub instance_id).next_sequence
    pub ordered : r.order ≡ suc hub.next_order

  pub new_record-IsNew :
      (hub : EventHub Sender) (instance_id : List ℕ) (kind : String) (text : List ℕ)
      → IsHub hub
      → length instance_id ≤ 64
      → suc hub.next_order < u64_mod
      → length text ≤ max_event_bytes
      → IsNew hub instance_id (new_record hub instance_id kind text)
  unfolding new_record
  new_record-IsNew hub instance_id kind text v short room fits =
      let old = history_of-IsHistory hub instance_id v in
      let h = history_of hub instance_id in
      record {
        small = omega (
          arith,
          length-event_id instance_id hub.generation (add_u64 h.next_sequence 1),
          v.generation_length,
        );
        numbered = omega (arith, add_u64_lem h.next_sequence 1 (omega (arith, old.sequence_le)));
        ordered = omega (arith, add_u64_lem hub.next_order 1 (omega arith));
      }

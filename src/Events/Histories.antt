-- ===== src/Events/Histories.antt =====
-- crates/machineemu/src/api/events.rs: the records that the event hub keeps for each instance, and
-- the two loops that drop the oldest of them. The maps are lists of entries; the code depends on
-- their order nowhere.
pub mod Entries
pub mod Loops
pub mod Evicted
pub mod Rounds
pub mod Newest
pub mod Lasting
use machineemu.Prelude.{
  ℕ, zero, suc, ◌+◌, ◌-◌, ◌*◌, ◌%◌, ◌≡◌, Bool, true, false, not, ◌&&◌, ◌||◌, String, Option, none,
  some, List, [], ◌∷◌, ◌++◌, length, ltb, leb, ◌==◌, if◌then◌else◌,
}
use machineemu.Events.Cursors.{u64_mod, same_text}

abbrev pub max_event_bytes : ℕ
max_event_bytes = 16 * 1024

abbrev pub instance_history_bytes : ℕ
instance_history_bytes = 1024 * 1024

abbrev pub global_history_bytes : ℕ
global_history_bytes = 32 * 1024 * 1024

abbrev pub history_events : ℕ
history_events = 256

abbrev pub instance_subscribers : ℕ
instance_subscribers = 8

abbrev pub global_subscribers : ℕ
global_subscribers = 128

-- `u64` and `usize`, which wrap in a release build.
abbrev pub add_u64 : ℕ → ℕ → ℕ
add_u64 a b = (a + b) % u64_mod

abbrev pub sub_u64 : ℕ → ℕ → ℕ
sub_u64 a b = (a + u64_mod - b) % u64_mod

pub record EventRecord : Type 0 where
  pub sequence : ℕ
  pub order : ℕ
  pub kind : String
  pub id : List ℕ
  pub text : List ℕ

abbrev pub size : EventRecord → ℕ
size r = length r.id + length r.text + 32

pub record History (Sender : Type 0) : Type 0 where
  pub next_sequence : ℕ
  pub bytes : ℕ
  pub records : List EventRecord
  pub subscribers : List (ℕ × Sender)

pub record Entry (Sender : Type 0) : Type 0 where
  pub name : List ℕ
  pub history : History Sender

pub record EventHub (Sender : Type 0) : Type 0 where
  pub generation : List ℕ
  pub histories : List (Entry Sender)
  pub bytes : ℕ
  pub next_order : ℕ
  pub next_subscriber : ℕ

-- A loop of the code that would go on for ever, and a panic, have the value `none`.
infixl 5 ◌>>=◌
abbrev pub ◌>>=◌ : {A B : Type 0} → Option A → (A → Option B) → Option B
none >>= next = none
some a >>= next = next a

-- `while records.len() > HISTORY_EVENTS || bytes > INSTANCE_HISTORY_BYTES`: drops the oldest
-- records of an instance, with its bytes and those of the hub. On no records the loop would not
-- end.
unfoldable pub trim : List EventRecord → ℕ → ℕ → Option (List EventRecord × ℕ × ℕ)
trim [] bytes total = if ltb instance_history_bytes bytes then none else some ([], bytes, total)
trim (r ∷ records) bytes total =
    let rest = trim records (sub_u64 bytes (size r)) (sub_u64 total (size r)) in
    if ltb history_events (length (r ∷ records)) || ltb instance_history_bytes bytes
    then rest
    else some (r ∷ records, bytes, total)

-- The first record of a history, under the name of its instance.
abbrev pub front : List ℕ → List EventRecord → Option (List ℕ × ℕ)
front name [] = none
front name (r ∷ records) = some (name, r.order)

abbrev pub older : Option (List ℕ × ℕ) → Option (List ℕ × ℕ) → Option (List ℕ × ℕ)
older none second = second
older (some first) none = some first
older (some first) (some second) = some (if leb first.1 second.1 then first else second)

module _ {Sender : Type 0} where
  abbrev pub default_history : History Sender
  default_history = record { next_sequence = 0; bytes = 0; records = []; subscribers = [] }

  unfoldable pub lookup : List ℕ → List (Entry Sender) → Option (History Sender)
  lookup name [] = none
  lookup name (e ∷ entries) = if same_text e.name name then some e.history else lookup name entries

  unfoldable pub or_default : Option (History Sender) → History Sender
  or_default none = default_history
  or_default (some h) = h

  unfoldable pub put : List ℕ → History Sender → List (Entry Sender) → List (Entry Sender)
  put name h [] = record { name = name; history = h } ∷ []
  put name h (e ∷ entries) =
      let rest = put name h entries in
      if same_text e.name name then record e { history = h } ∷ entries else e ∷ rest

  unfoldable pub remove : List ℕ → List (Entry Sender) → List (Entry Sender)
  remove name [] = []
  remove name (e ∷ entries) =
      let rest = remove name entries in if same_text e.name name then entries else e ∷ rest

  unfoldable pub sum : (History Sender → ℕ) → List (Entry Sender) → ℕ
  sum measure [] = 0
  sum measure (e ∷ entries) = measure e.history + sum measure entries

  -- `subscribers.retain`: a subscriber whose channel is full or closed is dropped.
  abbrev pub retain_one : ℕ → Option Sender → List (ℕ × Sender) → List (ℕ × Sender)
  retain_one n none rest = rest
  retain_one n (some sent) rest = (n, sent) ∷ rest

  unfoldable pub retain : (Sender → Option Sender) → List (ℕ × Sender) → List (ℕ × Sender)
  retain send [] = []
  retain send ((n, s) ∷ subscribers) = retain_one n (send s) (retain send subscribers)

  -- `min_by_key(|(_, order)| *order)`.
  unfoldable pub oldest : List (Entry Sender) → Option (List ℕ × ℕ)
  oldest [] = none
  oldest (e ∷ entries) = older (front e.name e.history.records) (oldest entries)

  abbrev pub pop_front :
      List ℕ → History Sender → List EventRecord → List (Entry Sender) → ℕ → List (Entry Sender) × ℕ
  pop_front name h [] entries total = (entries, total)
  pop_front name h (r ∷ records) entries total = (
    put name (record h { records = records; bytes = sub_u64 h.bytes (size r) }) entries,
    sub_u64 total (size r),
  )

  abbrev pub pop_found :
      List ℕ → Option (History Sender) → List (Entry Sender) → ℕ → List (Entry Sender) × ℕ
  pop_found name none entries total = (entries, total)
  pop_found name (some h) entries total = pop_front name h h.records entries total

  unfoldable pub pop : List ℕ → List (Entry Sender) → ℕ → List (Entry Sender) × ℕ
  unfolding lookup put
  pop name entries total = pop_found name (lookup name entries) entries total

  -- `while self.bytes > GLOBAL_HISTORY_BYTES`: drops the oldest records of all instances. A round
  -- is given whether the bound is passed, and the oldest record.
  abbrev pub evict_round :
      Bool
      → Option (List ℕ × ℕ)
      → (List (Entry Sender) → ℕ → Option (List (Entry Sender) × ℕ))
      → List (Entry Sender)
      → ℕ
      → Option (List (Entry Sender) × ℕ)
  evict_round false first next entries total = some (entries, total)
  evict_round true none next entries total = some (entries, total)
  evict_round true (some (name, order)) next entries total =
      next (pop name entries total).0 (pop name entries total).1

  unfoldable pub evict : ℕ → List (Entry Sender) → ℕ → Option (List (Entry Sender) × ℕ)
  unfolding oldest pop
  evict zero entries total = none
  evict (suc fuel) entries total =
      evict_round (ltb global_history_bytes total) (oldest entries) (evict fuel) entries total

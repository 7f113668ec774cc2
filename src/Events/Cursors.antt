-- ===== src/Events/Cursors.antt =====
-- crates/machineemu/src/api/events.rs: the identifier of an event, `instance:generation:sequence`,
-- and the cursor that a client sends back. Texts are lists of their bytes.
pub mod RoundTrip
use machineemu.Prelude.{
  ℕ, zero, suc, ◌+◌, ◌-◌, ◌*◌, ◌/◌, ◌%◌, ◌^◌, Bool, true, false, not, ◌&&◌, ◌||◌, Option, none,
  some, List, [], ◌∷◌, ◌++◌, length, ltb, leb, ◌==◌, if◌then◌else◌,
}
use machineemu.Domain.{is_valid_id}

abbrev pub u64_mod : ℕ
u64_mod = 2 ^ 64

-- The comparison of two texts.
unfoldable pub same_text : List ℕ → List ℕ → Bool
same_text [] [] = true
same_text [] (y ∷ ys) = false
same_text (x ∷ xs) [] = false
same_text (x ∷ xs) (y ∷ ys) = (x == y) && same_text xs ys

-- A `u64` in decimal digits, of which there are at most twenty.
unfoldable pub digits : ℕ → ℕ → List ℕ
digits zero n = []
digits (suc places) n =
    let front = digits places (n / 10) in
    if ltb n 10 then (b'0' + n) ∷ [] else front ++ (b'0' + n % 10) ∷ []

-- `format!("{instance_id}:{}:{}", generation, sequence)`.
unfoldable pub event_id : List ℕ → List ℕ → ℕ → List ℕ
event_id instance_id generation sequence =
    instance_id ++ (b':' ∷ (generation ++ (b':' ∷ digits 20 sequence)))

pub record Cursor : Type 0 where
  pub instance_id : List ℕ
  pub generation : List ℕ
  pub sequence : ℕ

-- `value.split(':')`, by a further byte before the fields.
abbrev pub split_one : ℕ → List (List ℕ) → List (List ℕ)
split_one b [] = [] ∷ []
split_one b (field ∷ fields) = if b == b':' then [] ∷ field ∷ fields else (b ∷ field) ∷ fields

unfoldable pub split : List ℕ → List (List ℕ)
split [] = [] ∷ []
split (b ∷ bytes) = split_one b (split bytes)

abbrev pub is_digit : ℕ → Bool
is_digit b = leb b'0' b && leb b b'9'

-- `u8::is_ascii_hexdigit`.
abbrev pub is_hexdigit : ℕ → Bool
is_hexdigit b = is_digit b || (leb b'a' b && leb b b'f') || (leb b'A' b && leb b b'F')

unfoldable pub every : (ℕ → Bool) → List ℕ → Bool
every test [] = true
every test (b ∷ bytes) = test b && every test bytes

-- The value of decimal digits, the first of them the highest.
unfoldable pub decimal : ℕ → List ℕ → ℕ
decimal value [] = value
decimal value (b ∷ bytes) = decimal (value * 10 + (b - b'0')) bytes

-- `str::parse::<u64>` of decimal digits, which fails when the value does not fit.
unfoldable pub parse_u64 : List ℕ → Option ℕ
unfolding decimal
parse_u64 bytes = if ltb (decimal 0 bytes) u64_mod then some (decimal 0 bytes) else none

abbrev pub is_well_formed : List ℕ → List ℕ → List ℕ → Bool
is_well_formed instance_id generation sequence =
    is_valid_id instance_id
    && ((length generation == 32)
        && (every is_hexdigit generation
            && (not (length sequence == 0) && every is_digit sequence)))

abbrev pub positive_cursor : List ℕ → List ℕ → Option ℕ → Option Cursor
positive_cursor instance_id generation none = none
positive_cursor instance_id generation (some sequence) =
    if sequence == 0
    then none
    else some (record { instance_id = instance_id; generation = generation; sequence = sequence })

abbrev pub cursor_of : List (List ℕ) → Option Cursor
cursor_of (instance_id ∷ generation ∷ sequence ∷ []) =
    if is_well_formed instance_id generation sequence
    then positive_cursor instance_id generation (parse_u64 sequence)
    else none
cursor_of _ = none

-- `Cursor::parse`.
unfoldable pub parse : List ℕ → Option Cursor
unfolding split
parse value = cursor_of (split value)

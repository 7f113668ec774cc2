-- ===== src/Events/Cursors/RoundTrip.antt =====
-- crates/machineemu/src/api/events.rs: `Cursor::parse` on the identifiers of events.
use machineemu.Prelude.{
  ℕ, zero, suc, ◌+◌, ◌-◌, ◌*◌, ◌/◌, ◌%◌, ◌^◌, ◌<◌, ◌≡◌, refl, ap, ◌∙◌, Bool, true, false, some,
  List, [], ◌∷◌, ◌++◌, length, length-append, ltb, ◌==◌, lt→ltb, inl, inr, All, Bool-cases, arith,
}
use native.Mathlib.Nat.{pow-succ'}
use machineemu.Domain.{is_valid_id, all_id_bytes}
use machineemu.Events.Cursors.{
  u64_mod, digits, event_id, split, is_digit, is_hexdigit, every, decimal, parse_u64,
  is_well_formed, parse,
}

abbrev pub IsPlain : List ℕ → Type 0
IsPlain bytes = All (λ b. (b == b':') ≡ false) bytes

split-cases :
    (bytes : List ℕ) → (field : List ℕ) × (fields : List (List ℕ)) × (split bytes ≡ field ∷ fields)
unfolding split
split-cases [] = ([], [], refl)
split-cases (b ∷ bytes) =
    let (field, fields, e) = split-cases bytes in
    elim (Bool-cases (b == b':')) [
      | inl colon ↦ ([], field ∷ fields, rw (e, colon) refl)
      | inr other ↦ (b ∷ field, fields, rw (e, other) refl)
    ]

split-plain : (bytes : List ℕ) → IsPlain bytes → split bytes ≡ bytes ∷ []
unfolding split
split-plain [] plain = refl
split-plain (b ∷ bytes) plain = rw (split-plain bytes plain.1, plain.0) refl

split-append :
    (bytes rest : List ℕ) → IsPlain bytes → split (bytes ++ (b':' ∷ rest)) ≡ bytes ∷ split rest
unfolding split
split-append [] rest plain = let (field, fields, e) = split-cases rest in rw e refl
split-append (b ∷ bytes) rest plain = rw (split-append bytes rest plain.1, plain.0) refl

decimal-append :
    (value : ℕ) (xs ys : List ℕ) → decimal value (xs ++ ys) ≡ decimal (decimal value xs) ys
unfolding decimal
decimal-append value [] ys = refl
decimal-append value (x ∷ xs) ys = decimal-append (value * 10 + (x - b'0')) xs ys

decimal-digits : (places n : ℕ) → n < 10 ^ places → decimal 0 (digits places n) ≡ n
unfolding digits decimal
decimal-digits zero n small = omega arith
decimal-digits (suc places) n small = elim (Bool-cases (ltb n 10)) [
  | inl one ↦ rw one (omega arith)
  | inr more ↦
      let front : n / 10 < 10 ^ places = omega (arith, pow-succ' 10 places) in
      rw (more, decimal-append 0 (digits places (n / 10)) ((b'0' + n % 10) ∷ []))
        (omega (arith, decimal-digits places (n / 10) front))
]

every-append :
    (test : ℕ → Bool) (xs ys : List ℕ)
    → every test xs ≡ true
    → every test ys ≡ true
    → every test (xs ++ ys) ≡ true
unfolding every
every-append test [] ys h k = k
every-append test (x ∷ xs) ys h k = ground (arith, every-append test xs ys)

digits-every : (places n : ℕ) → every is_digit (digits places n) ≡ true
unfolding digits every
digits-every zero n = refl
digits-every (suc places) n = elim (Bool-cases (ltb n 10)) [
  | inl one ↦ rw one (ground arith)
  | inr more ↦ rw more (
      every-append is_digit (digits places (n / 10)) ((b'0' + n % 10) ∷ [])
        (digits-every places (n / 10)) (ground arith))
]

digits-some : (places n : ℕ) → 0 < length (digits (suc places) n)
unfolding digits
digits-some places n = elim (Bool-cases (ltb n 10)) [
  | inl one ↦ rw one (omega arith)
  | inr more ↦
      rw more (omega (arith, length-append {0} (digits places (n / 10)) ((b'0' + n % 10) ∷ [])))
]

hexdigits-IsPlain : (bytes : List ℕ) → every is_hexdigit bytes ≡ true → IsPlain bytes
unfolding every
hexdigits-IsPlain [] h = tt
hexdigits-IsPlain (b ∷ bytes) h = (ground arith, hexdigits-IsPlain bytes (ground arith))

digits-IsPlain : (bytes : List ℕ) → every is_digit bytes ≡ true → IsPlain bytes
unfolding every
digits-IsPlain [] h = tt
digits-IsPlain (b ∷ bytes) h = (ground arith, digits-IsPlain bytes (ground arith))

id_bytes-IsPlain : (bytes : List ℕ) → all_id_bytes bytes ≡ true → IsPlain bytes
unfolding all_id_bytes
id_bytes-IsPlain [] h = tt
id_bytes-IsPlain (b ∷ bytes) h = (ground arith, id_bytes-IsPlain bytes (ground arith))

id-IsPlain : (bytes : List ℕ) → is_valid_id bytes ≡ true → IsPlain bytes
unfolding is_valid_id
id-IsPlain [] h = tt
id-IsPlain (b ∷ bytes) h = id_bytes-IsPlain (b ∷ bytes) (ground arith)

-- The identifier of an event of a valid instance and a generation of 32 hexadecimal digits, with a
-- positive 64-bit number, is read back as the cursor with these three fields.
pub parse-event_id :
    (instance_id generation : List ℕ) (sequence : ℕ)
    → is_valid_id instance_id ≡ true
    → length generation ≡ 32
    → every is_hexdigit generation ≡ true
    → 0 < sequence
    → sequence < 2 ^ 64
    → parse (event_id instance_id generation sequence)
      ≡ some (record { instance_id = instance_id; generation = generation; sequence = sequence })
unfolding parse event_id parse_u64
parse-event_id instance_id generation sequence valid long hex positive small =
    let number = digits 20 sequence in
    let all_digits = digits-every 20 sequence in
    let value = decimal-digits 20 sequence (omega arith) in
    let fields : split (event_id instance_id generation sequence)
        ≡ instance_id ∷ generation ∷ number ∷ [] =
      split-append instance_id (generation ++ (b':' ∷ number)) (id-IsPlain instance_id valid)
      ∙ ap (λ l. instance_id ∷ l)
          (split-append generation number (hexdigits-IsPlain generation hex)
            ∙ ap (λ l. generation ∷ l) (split-plain number (digits-IsPlain number all_digits))) in
    let formed : is_well_formed instance_id generation number ≡ true =
      ground (arith, digits-some 19 sequence) in
    let parsed : parse_u64 number ≡ some sequence =
      rw (parse_u64, value, lt→ltb sequence u64_mod small) refl in
    let not_zero : (sequence == 0) ≡ false = ground arith in
    rw (parse, fields, formed, parsed, not_zero) refl

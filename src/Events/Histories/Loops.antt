-- ===== src/Events/Histories/Loops.antt =====
-- crates/machineemu/src/api/events.rs: the loop of `publish` over the records of an instance, and 64-bit
-- sums.
use machineemu.Prelude.{
  ℕ, ◌+◌, ◌-◌, ◌≤◌, ◌<◌, ◌≡◌, refl, ap, ◌||◌, some, List, [], ◌∷◌, ◌++◌, length, ltb, le→ltb, inl,
  inr, Bool-cases, arith,
}
use machineemu.Events.Cursors.{u64_mod}
use machineemu.Events.Histories.{
  EventRecord, size, add_u64, sub_u64, trim, history_events, instance_history_bytes,
}

pub add_u64_lem : (a b : ℕ) → a + b < u64_mod → add_u64 a b ≡ a + b
add_u64_lem a b h = omega arith

pub sub_u64_lem : (a b : ℕ) → b ≤ a → a < u64_mod → sub_u64 a b ≡ a - b
sub_u64_lem a b h l = omega arith

-- The bytes that records take up.
abbrev pub total_size : List EventRecord → ℕ
total_size [] = 0
total_size (r ∷ records) = size r + total_size records

pub total_size-append :
    (xs ys : List EventRecord) → total_size (xs ++ ys) ≡ total_size xs + total_size ys
total_size-append [] ys = omega arith
total_size-append (x ∷ xs) ys = omega (arith, total_size-append xs ys)

-- What the first loop leaves: the last of the records, within both bounds, and the counts without
-- the others.
pub record Trimmed (records : List EventRecord) (bytes total : ℕ) : Type 0 where
  pub dropped : List EventRecord
  pub kept : List EventRecord
  pub kept_bytes : ℕ
  pub left : ℕ
  pub ran : trim records bytes total ≡ some (kept, kept_bytes, left)
  pub parts : records ≡ dropped ++ kept
  pub counted : kept_bytes ≡ total_size kept
  pub rest : left + bytes ≡ total + kept_bytes
  pub few : length kept ≤ history_events
  pub bytes_le : kept_bytes ≤ instance_history_bytes

pub trim_lem :
    (records : List EventRecord) (bytes total : ℕ)
    → bytes ≡ total_size records
    → bytes ≤ total
    → total < u64_mod
    → Trimmed records bytes total
unfolding trim
trim_lem [] bytes total c le lt = record {
  dropped = [];
  kept = [];
  kept_bytes = bytes;
  left = total;
  ran = rw (le→ltb instance_history_bytes bytes (omega (arith, c))) refl;
  parts = refl;
  counted = c;
  rest = omega arith;
  few = omega arith;
  bytes_le = omega (arith, c);
}
trim_lem (r ∷ records) bytes total c le lt =
    elim (Bool-cases
      (ltb history_events (length (r ∷ records)) || ltb instance_history_bytes bytes)) [
        | inr within ↦ record {
          dropped = [];
          kept = r ∷ records;
          kept_bytes = bytes;
          left = total;
          ran = rw within refl;
          parts = refl;
          counted = c;
          rest = refl;
          few = ground arith;
          bytes_le = ground arith;
        }
        | inl over ↦
            let b : sub_u64 bytes (size r) ≡ bytes - size r =
              sub_u64_lem bytes (size r) (omega (arith, c)) (omega arith) in
            let t : sub_u64 total (size r) ≡ total - size r =
              sub_u64_lem total (size r) (omega (arith, c)) lt in
            let next =
              trim_lem records (sub_u64 bytes (size r)) (sub_u64 total (size r))
                (omega (arith, b, c)) (omega (arith, b, t, c)) (omega (arith, t)) in
            record {
              dropped = r ∷ next.dropped;
              kept = next.kept;
              kept_bytes = next.kept_bytes;
              left = next.left;
              ran = rw over next.ran;
              parts = ap (λ l. r ∷ l) next.parts;
              counted = next.counted;
              rest = omega (arith, next.rest, b, t, c);
              few = next.few;
              bytes_le = next.bytes_le;
            }
      ]

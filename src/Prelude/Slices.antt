-- ===== src/Prelude/Slices.antt =====
-- Slices `&xs[a..a + n]` and writes `xs[a..a + src.len()].copy_from_slice(src)`. Rust panics out of
-- bounds, which is `none` here.
use Prim.Native.Nat.{ℕ, ◌+◌, ◌-◌, ◌≤◌, ◌<◌}
use mathlib.Core.Path.{◌≡◌, ◌∙◌, ap}
use mathlib.Core.Logic.{◌⊎◌, inl, inr}
use mathlib.Core.Bool.{Bool, true, false, ◌&&◌}
use mathlib.Core.Option.{Option, none, some}
use mathlib.Core.List.{List, ◌++◌}
use native.Mathlib.Omega.{arith}
use machineemu.Prelude.Tests.{ltb, leb, if◌then◌else◌, gt→leb}
use machineemu.Prelude.Lists.{
  length, take, drop, get_elem?, length-append, length-take, length-drop, get_elem?-append_lt,
  get_elem?-append_le, get_elem?-take, get_elem?-drop,
}

-- `(lo..hi).contains(&i)`.
abbrev pub in_range : ℕ → ℕ → ℕ → Bool
in_range lo hi i = leb lo i && ltb i hi

pub in_range-cases :
    (lo hi i : ℕ)
    → ((in_range lo hi i ≡ true) × (lo ≤ i) × (i < hi))
      ⊎ ((in_range lo hi i ≡ false) × ((i < lo) ⊎ (hi ≤ i)))
in_range-cases lo hi i = ground arith

module _ {ℓ} {A : Type ℓ} where
  unfoldable pub slice : List A → ℕ → ℕ → Option (List A)
  slice xs a n = if leb (a + n) (length xs) then some (take n (drop a xs)) else none

  unfoldable pub overwrite : List A → ℕ → List A → List A
  overwrite xs a src = take a xs ++ (src ++ drop (a + length src) xs)

  unfoldable pub write_slice : List A → ℕ → List A → Option (List A)
  unfolding overwrite
  write_slice xs a src =
      if leb (a + length src) (length xs) then some (overwrite xs a src) else none

  pub slice-some :
      (xs : List A) (a n : ℕ) → a + n ≤ length xs → slice xs a n ≡ some (take n (drop a xs))
  unfolding slice
  slice-some xs a n h = ground arith

  pub slice-none : (xs : List A) (a n : ℕ) → length xs < a + n → slice xs a n ≡ none
  unfolding slice
  slice-none xs a n h = rw (gt→leb (a + n) (length xs) h)

  pub write_slice-some :
      (xs : List A) (a : ℕ) (src : List A)
      → a + length src ≤ length xs
      → write_slice xs a src ≡ some (overwrite xs a src)
  unfolding write_slice
  write_slice-some xs a src h = ground arith

  -- What a slice holds: its length, and its elements.
  pub length-slice : (xs : List A) (a n : ℕ) → a + n ≤ length xs → length (take n (drop a xs)) ≡ n
  length-slice xs a n h = omega (arith, length-take n (drop a xs), length-drop a xs)

  pub get_elem?-slice :
      (xs : List A) (a n i : ℕ) → i < n → get_elem? (take n (drop a xs)) i ≡ get_elem? xs (a + i)
  get_elem?-slice xs a n i h = get_elem?-take n (drop a xs) i h ∙ get_elem?-drop a xs i

  pub length-overwrite :
      (xs : List A) (a : ℕ) (src : List A)
      → a + length src ≤ length xs
      → length (overwrite xs a src) ≡ length xs
  unfolding overwrite
  length-overwrite xs a src h = omega (
    arith,
    length-append (take a xs) (src ++ drop (a + length src) xs),
    length-append src (drop (a + length src) xs),
    length-take a xs,
    length-drop (a + length src) xs,
  )

  before :
      (xs : List A) (a : ℕ) (src : List A) (i : ℕ)
      → a + length src ≤ length xs
      → i < a
      → get_elem? (overwrite xs a src) i ≡ get_elem? xs i
  unfolding overwrite
  before xs a src i h lt =
      get_elem?-append_lt (take a xs) _ i (omega (arith, length-take a xs))
      ∙ get_elem?-take a xs i lt

  within :
      (xs : List A) (a : ℕ) (src : List A) (i : ℕ)
      → a + length src ≤ length xs
      → a ≤ i
      → i < a + length src
      → get_elem? (overwrite xs a src) i ≡ get_elem? src (i - a)
  unfolding overwrite
  within xs a src i h le lt =
      get_elem?-append_le (take a xs) _ i (omega (arith, length-take a xs))
      ∙ get_elem?-append_lt src _ (i - length (take a xs)) (omega (arith, length-take a xs))
      ∙ ap (get_elem? src) (omega (arith, length-take a xs))

  after :
      (xs : List A) (a : ℕ) (src : List A) (i : ℕ)
      → a + length src ≤ length xs
      → a + length src ≤ i
      → get_elem? (overwrite xs a src) i ≡ get_elem? xs i
  unfolding overwrite
  after xs a src i h le =
      get_elem?-append_le (take a xs) _ i (omega (arith, length-take a xs))
      ∙ get_elem?-append_le src _ (i - length (take a xs)) (omega (arith, length-take a xs))
      ∙ get_elem?-drop (a + length src) xs (i - length (take a xs) - length src)
      ∙ ap (get_elem? xs) (omega (arith, length-take a xs))

  -- A write replaces its range and nothing else.
  pub get_elem?-overwrite :
      (xs : List A) (a : ℕ) (src : List A) (i : ℕ)
      → a + length src ≤ length xs
      → get_elem? (overwrite xs a src) i
        ≡ (if in_range a (a + length src) i then get_elem? src (i - a) else get_elem? xs i)
  get_elem?-overwrite xs a src i h = elim (in_range-cases a (a + length src) i) [
    | inl (e, le, lt) ↦ rw e (within xs a src i h le lt)
    | inr (e, inl lt) ↦ rw e (before xs a src i h lt)
    | inr (e, inr le) ↦ rw e (after xs a src i h le)
  ]

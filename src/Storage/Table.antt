-- ===== src/Storage/Table.antt =====
-- Rows with a text as their primary key, in the order of insertion.
pub mod Laws
use text.Mathlib.Text.{◌==◌}
use machineemu.Prelude.{
  ◌≡◌, ◌≢◌, refl, Bool, true, false, String, eq_iff, Option, none, some, List, [], ◌∷◌, ◌++◌, arith,
  if◌then◌else◌, All,
}
use mathlib.Core.Option

module _ {Row : Type 0} (key : Row → String) where
  -- `SELECT ... WHERE key = ?`.
  unfoldable pub find : String → List Row → Option Row
  find id [] = none
  find id (r ∷ rows) = if key r == id then some r else find id rows

  -- `UPDATE ... WHERE key = ?`.
  unfoldable pub update : String → (Row → Row) → List Row → List Row
  update id change [] = []
  update id change (r ∷ rows) = (if key r == id then change r else r) ∷ update id change rows

  -- `INSERT`, once the key is known to be free.
  unfoldable pub insert : Row → List Row → List Row
  insert r rows = rows ++ r ∷ []

  pub find-update :
      (id j : String) (change : Row → Row) (rows : List Row)
      → ((r : Row) → key (change r) ≡ key r)
      → find j (update id change rows)
        ≡ (if id == j then Option.map change (find j rows) else find j rows)
  unfolding find update
  find-update id j change [] same = ground arith
  find-update id j change (r ∷ rows) same = ground (
    arith,
    same r,
    eq_iff (key r) id,
    eq_iff (key r) j,
    eq_iff id j,
    eq_iff (key (change r)) j,
    find-update id j change rows same,
  )

  pub find-insert :
      (j : String) (new : Row) (rows : List Row)
      → find (key new) rows ≡ none
      → find j (insert new rows) ≡ (if key new == j then some new else find j rows)
  unfolding find insert
  find-insert j new [] free = refl
  find-insert j new (r ∷ rows) free = ground (
    arith,
    eq_iff (key r) (key new),
    eq_iff (key r) j,
    eq_iff (key new) j,
    find-insert j new rows,
  )

-- `DELETE ... WHERE`, which keeps the rows that fail the test.
module _ {Row : Type 0} where
  unfoldable pub delete : (Row → Bool) → List Row → List Row
  delete test [] = []
  delete test (r ∷ rows) = let rest = delete test rows in if test r then rest else r ∷ rest

  -- The rows that pass a test.
  unfoldable pub select : (Row → Bool) → List Row → List Row
  select test [] = []
  select test (r ∷ rows) = let rest = select test rows in if test r then r ∷ rest else rest

  pub All-delete :
      (test : Row → Bool) (rows : List Row) → All (λ r. test r ≡ false) (delete test rows)
  unfolding delete
  All-delete test [] = tt
  All-delete test (r ∷ rows) = ground (arith, All-delete test rows)

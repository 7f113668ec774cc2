-- ===== src/Storage/Table/Laws.antt =====
-- Unique keys, and predicates on all rows, under the statements.
use text.Mathlib.Text.{◌==◌}
use machineemu.Prelude.{
  ◌≡◌, refl, Bool, false, String, eq_iff, none, List, [], ◌∷◌, arith, if◌then◌else◌, All,
  Bool-cases, inl, inr,
}
use machineemu.Storage.Table.{find, update, insert, delete}

module _ {Row : Type 0} (key : Row → String) where
  -- No key is listed twice.
  abbrev pub Unique : List Row → Type 0
  Unique [] = Unit
  Unique (r ∷ rows) = (find key (key r) rows ≡ none) × Unique rows

  pub find-update-none :
      (id j : String) (change : Row → Row) (rows : List Row)
      → ((r : Row) → key (change r) ≡ key r)
      → find key j rows ≡ none
      → find key j (update key id change rows) ≡ none
  unfolding find update
  find-update-none id j change [] same h = h
  find-update-none id j change (r ∷ rows) same h = ground (
    arith,
    same r,
    eq_iff (key r) id,
    eq_iff (key r) j,
    eq_iff (key (change r)) j,
    find-update-none id j change rows same,
  )

  pub Unique-update :
      (id : String) (change : Row → Row) (rows : List Row)
      → ((r : Row) → key (change r) ≡ key r)
      → Unique rows
      → Unique (update key id change rows)
  unfolding update
  Unique-update id change [] same h = tt
  Unique-update id change (r ∷ rows) same h = elim (Bool-cases (key r == id)) [
    | inl e ↦
        rw (e, same r)
          (find-update-none id (key r) change rows same h.0, Unique-update id change rows same h.1)
    | inr e ↦
        rw e
          (find-update-none id (key r) change rows same h.0, Unique-update id change rows same h.1)
  ]

  pub find-insert-none :
      (j : String) (new : Row) (rows : List Row)
      → find key j rows ≡ none
      → (key new == j) ≡ false
      → find key j (insert key new rows) ≡ none
  unfolding find insert
  find-insert-none j new [] h e = rw e
  find-insert-none j new (r ∷ rows) h e = ground (arith, find-insert-none j new rows)

  find-none_parts :
      (j : String) (r : Row) (rows : List Row)
      → find key j (r ∷ rows) ≡ none
      → ((key r == j) ≡ false) × (find key j rows ≡ none)
  unfolding find
  find-none_parts j r rows h = ground arith

  pub Unique-insert :
      (new : Row) (rows : List Row)
      → find key (key new) rows ≡ none
      → Unique rows
      → Unique (insert key new rows)
  unfolding insert
  Unique-insert new [] free h = (unfold find in refl, tt)
  Unique-insert new (r ∷ rows) free h =
      let (other, later) = find-none_parts (key new) r rows free in
      (
        find-insert-none (key r) new rows h.0
            (ground (arith, eq_iff (key new) (key r), eq_iff (key r) (key new))),
        Unique-insert new rows later h.1,
      )

  pub find-delete-none :
      (test : Row → Bool) (j : String) (rows : List Row)
      → find key j rows ≡ none
      → find key j (delete test rows) ≡ none
  unfolding find delete
  find-delete-none test j [] h = h
  find-delete-none test j (r ∷ rows) h = ground (arith, find-delete-none test j rows)

  pub Unique-delete :
      (test : Row → Bool) (rows : List Row) → Unique rows → Unique (delete test rows)
  unfolding delete
  Unique-delete test [] h = tt
  Unique-delete test (r ∷ rows) h =
      ground (arith, find-delete-none test (key r) rows h.0, Unique-delete test rows h.1)

  -- Rows deleted by their key are gone, and the others are found as before.
  pub find-delete :
      (id j : String) (rows : List Row)
      → find key j (delete (λ r. key r == id) rows) ≡ (if id == j then none else find key j rows)
  unfolding find delete
  find-delete id j [] = ground arith
  find-delete id j (r ∷ rows) =
      ground (arith, eq_iff (key r) id, eq_iff (key r) j, eq_iff id j, find-delete id j rows)

  pub All-update :
      (P : Row → Type 0) (id : String) (change : Row → Row) (rows : List Row)
      → ((r : Row) → P r → P (change r))
      → All P rows
      → All P (update key id change rows)
  unfolding update
  All-update P id change [] same h = tt
  All-update P id change (r ∷ rows) same h = elim (Bool-cases (key r == id)) [
    | inl e ↦ rw e (same r h.0, All-update P id change rows same h.1)
    | inr e ↦ rw e (h.0, All-update P id change rows same h.1)
  ]

  pub All-insert :
      (P : Row → Type 0) (new : Row) (rows : List Row)
      → P new
      → All P rows
      → All P (insert key new rows)
  unfolding insert
  All-insert P new [] p h = (p, tt)
  All-insert P new (r ∷ rows) p h = (h.0, All-insert P new rows p h.1)

module _ {Row : Type 0} where
  pub All-map :
      (P Q : Row → Type 0) (rows : List Row) → ((r : Row) → P r → Q r) → All P rows → All Q rows
  All-map P Q [] f h = tt
  All-map P Q (r ∷ rows) f h = (f r h.0, All-map P Q rows f h.1)

  -- What a deletion keeps passed neither the test nor lost its property.
  pub All-delete_keeps :
      (P : Row → Type 0) (test : Row → Bool) (rows : List Row)
      → All P rows
      → All (λ r. P r × (test r ≡ false)) (delete test rows)
  unfolding delete
  All-delete_keeps P test [] h = tt
  All-delete_keeps P test (r ∷ rows) h = elim (Bool-cases (test r)) [
    | inl e ↦ rw e (All-delete_keeps P test rows h.1)
    | inr e ↦ rw e ((h.0, e), All-delete_keeps P test rows h.1)
  ]

  pub All-delete_sublist :
      (P : Row → Type 0) (test : Row → Bool) (rows : List Row)
      → All P rows
      → All P (delete test rows)
  All-delete_sublist P test rows h =
      All-map (λ r. P r × (test r ≡ false)) P (delete test rows) (λ r k. k.0)
        (All-delete_keeps P test rows h)

-- ===== src/Events/Histories/Entries.antt =====
-- crates/machineemu/src/api/events.rs: the histories as a map with unique names, and sums over it.
use machineemu.Prelude.{
  ℕ, ◌+◌, ◌≤◌, ◌≡◌, refl, subst, ap, ap₂, ◌∙◌, true, false, none, some, List, [], ◌∷◌, inl, inr,
  All, Bool-cases, arith,
}
use machineemu.Events.Cursors.{same_text}
use machineemu.Events.Histories.{
  History, Entry, default_history, lookup, or_default, put, remove, sum,
}

pub same_text_refl : (a : List ℕ) → same_text a a ≡ true
unfolding same_text
same_text_refl [] = refl
same_text_refl (x ∷ a) = ground (arith, same_text_refl a)

pub same_text-equal : (a b : List ℕ) → same_text a b ≡ true → a ≡ b
unfolding same_text
same_text-equal [] [] h = refl
same_text-equal [] (y ∷ b) h = cc h
same_text-equal (x ∷ a) [] h = cc h
same_text-equal (x ∷ a) (y ∷ b) h =
    let first : x ≡ y = ground arith in
    let rest : same_text a b ≡ true = ground arith in
    ap₂ (λ u v. u ∷ v) first (same_text-equal a b rest)

pub same_text-sym : (a b : List ℕ) → same_text a b ≡ false → same_text b a ≡ false
same_text-sym a b differs = elim (Bool-cases (same_text b a)) [
  | inr other ↦ other
  | inl same ↦
      let equal : b ≡ a = same_text-equal b a same in
      absurd (
        let bad : same_text a a ≡ false = subst (λ c. same_text a c ≡ false) equal differs in
        cc (bad, same_text_refl a))
]

module _ {Sender : Type 0} where
  -- No name is listed twice.
  abbrev pub Unique : List (Entry Sender) → Type 0
  Unique [] = Unit
  Unique (e ∷ entries) = (lookup e.name entries ≡ none) × Unique entries

  pub lookup-put :
      (name : List ℕ) (h : History Sender) (entries : List (Entry Sender))
      → lookup name (put name h entries) ≡ some h
  unfolding lookup put
  lookup-put name h [] = rw (same_text_refl name) refl
  lookup-put name h (e ∷ entries) = elim (Bool-cases (same_text e.name name)) [
    | inl same ↦ rw (same, same) refl
    | inr other ↦ rw (other, other) (lookup-put name h entries)
  ]

  -- Another name finds what it found before.
  pub lookup-put_other :
      (name other : List ℕ) (h : History Sender) (entries : List (Entry Sender))
      → same_text name other ≡ false
      → lookup other (put name h entries) ≡ lookup other entries
  unfolding lookup put
  lookup-put_other name other h [] differs = rw differs refl
  lookup-put_other name other h (e ∷ entries) differs = elim (Bool-cases (same_text e.name name)) [
    | inl same ↦
        let known : e.name ≡ name = same_text-equal e.name name same in
        rw (same, known, differs) refl
    | inr no_match ↦ rw no_match (elim (Bool-cases (same_text e.name other)) [
      | inl found ↦ rw found refl
      | inr missed ↦ rw missed (lookup-put_other name other h entries differs)
    ])
  ]

  pub Unique-put :
      (name : List ℕ) (h : History Sender) (entries : List (Entry Sender))
      → Unique entries
      → Unique (put name h entries)
  unfolding put
  Unique-put name h [] u = (unfold lookup in refl, tt)
  Unique-put name h (e ∷ entries) u = elim (Bool-cases (same_text e.name name)) [
    | inl same ↦ rw same u
    | inr other ↦ rw other (
      lookup-put_other name e.name h entries (same_text-sym e.name name other) ∙ u.0,
      Unique-put name h entries u.1,
    )
  ]

  pub sum-put :
      (measure : History Sender → ℕ) (name : List ℕ) (h : History Sender)
      (entries : List (Entry Sender))
      → measure default_history ≡ 0
      → sum measure (put name h entries) + measure (or_default (lookup name entries))
        ≡ sum measure entries + measure h
  unfolding lookup put sum or_default
  sum-put measure name h [] zero = omega (arith, zero)
  sum-put measure name h (e ∷ entries) zero = elim (Bool-cases (same_text e.name name)) [
    | inl same ↦ rw same (omega arith)
    | inr other ↦ rw other (omega (arith, sum-put measure name h entries zero))
  ]

  pub All-put :
      (P : History Sender → Type 0) (name : List ℕ) (h : History Sender)
      (entries : List (Entry Sender))
      → P h
      → All (λ e. P e.history) entries
      → All (λ e. P e.history) (put name h entries)
  unfolding put
  All-put P name h [] p all = (p, tt)
  All-put P name h (e ∷ entries) p all = elim (Bool-cases (same_text e.name name)) [
    | inl same ↦ rw same (p, all.1)
    | inr other ↦ rw other (all.0, All-put P name h entries p all.1)
  ]

  pub All-lookup :
      (P : History Sender → Type 0) (name : List ℕ) (entries : List (Entry Sender))
      → P default_history
      → All (λ e. P e.history) entries
      → P (or_default (lookup name entries))
  unfolding lookup or_default
  All-lookup P name [] p all = p
  All-lookup P name (e ∷ entries) p all = elim (Bool-cases (same_text e.name name)) [
    | inl same ↦ rw same all.0
    | inr other ↦ rw other (All-lookup P name entries p all.1)
  ]

  pub All-found :
      (P : History Sender → Type 0) (name : List ℕ) (h : History Sender)
      (entries : List (Entry Sender))
      → lookup name entries ≡ some h
      → All (λ e. P e.history) entries
      → P h
  unfolding lookup
  All-found P name h [] found all = cc found
  All-found P name h (e ∷ entries) found all = elim (Bool-cases (same_text e.name name)) [
    | inl same ↦
        let this : e.history ≡ h = (let shown = rw same at found in cc shown) in subst P this all.0
    | inr other ↦
        let rest : lookup name entries ≡ some h = (let shown = rw other at found in shown) in
        All-found P name h entries rest all.1
  ]

  -- A change of a history that is there changes a sum by the difference.
  pub sum-put_found :
      (measure : History Sender → ℕ) (name : List ℕ) (h old : History Sender)
      (entries : List (Entry Sender))
      → measure default_history ≡ 0
      → lookup name entries ≡ some old
      → sum measure (put name h entries) + measure old ≡ sum measure entries + measure h
  sum-put_found measure name h old entries zero found =
      let this : measure (or_default (lookup name entries)) ≡ measure old =
        rw found (unfold or_default in refl) in
      omega (arith, this, sum-put measure name h entries zero)

  pub sum-found :
      (measure : History Sender → ℕ) (name : List ℕ) (h : History Sender)
      (entries : List (Entry Sender))
      → lookup name entries ≡ some h
      → measure h ≤ sum measure entries
  unfolding lookup sum
  sum-found measure name h [] found = cc found
  sum-found measure name h (e ∷ entries) found = elim (Bool-cases (same_text e.name name)) [
    | inl same ↦
        let this : measure e.history ≡ measure h =
          (let shown = rw same at found in ap measure (cc shown)) in
        omega (arith, this)
    | inr other ↦
        let rest : lookup name entries ≡ some h = (let shown = rw other at found in shown) in
        omega (arith, sum-found measure name h entries rest)
  ]

  pub sum-remove :
      (measure : History Sender → ℕ) (name : List ℕ) (entries : List (Entry Sender))
      → measure default_history ≡ 0
      → sum measure (remove name entries) + measure (or_default (lookup name entries))
        ≡ sum measure entries
  unfolding lookup remove sum or_default
  sum-remove measure name [] zero = omega (arith, zero)
  sum-remove measure name (e ∷ entries) zero = elim (Bool-cases (same_text e.name name)) [
    | inl same ↦ rw same (omega arith)
    | inr other ↦ rw other (omega (arith, sum-remove measure name entries zero))
  ]

  pub All-remove :
      (P : Entry Sender → Type 0) (name : List ℕ) (entries : List (Entry Sender))
      → All P entries
      → All P (remove name entries)
  unfolding remove
  All-remove P name [] all = tt
  All-remove P name (e ∷ entries) all = elim (Bool-cases (same_text e.name name)) [
    | inl same ↦ rw same all.1
    | inr other ↦ rw other (all.0, All-remove P name entries all.1)
  ]

  lookup-remove-none :
      (name other : List ℕ) (entries : List (Entry Sender))
      → lookup other entries ≡ none
      → lookup other (remove name entries) ≡ none
  unfolding lookup remove
  lookup-remove-none name other [] h = h
  lookup-remove-none name other (e ∷ entries) h =
      ground (arith, lookup-remove-none name other entries)

  pub lookup-remove :
      (name : List ℕ) (entries : List (Entry Sender))
      → Unique entries
      → lookup name (remove name entries) ≡ none
  unfolding lookup remove
  lookup-remove name [] u = refl
  lookup-remove name (e ∷ entries) u = elim (Bool-cases (same_text e.name name)) [
    | inl same ↦
        rw same (subst (λ n. lookup n entries ≡ none) (same_text-equal e.name name same) u.0)
    | inr other ↦ rw (other, other) (lookup-remove name entries u.1)
  ]

  pub Unique-remove :
      (name : List ℕ) (entries : List (Entry Sender))
      → Unique entries
      → Unique (remove name entries)
  unfolding remove
  Unique-remove name [] u = tt
  Unique-remove name (e ∷ entries) u = elim (Bool-cases (same_text e.name name)) [
    | inl same ↦ rw same u.1
    | inr other ↦
        rw other (lookup-remove-none name e.name entries u.0, Unique-remove name entries u.1)
  ]

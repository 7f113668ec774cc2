-- ===== src/Events/Histories/Newest.antt =====
-- crates/machineemu/src/api/events.rs: which record the loop over all histories drops next.
use machineemu.Prelude.{
  ℕ, ◌≤◌, ◌≡◌, refl, sym, ap, subst, ◌∙◌, true, false, Option, none, some, List, [], ◌∷◌, leb,
  leb→le, inl, inr, Bool-cases, Option-cases, arith,
}
use machineemu.Events.Cursors.{same_text}
use machineemu.Events.Histories.{EventRecord, History, Entry, lookup, sum, oldest}
use machineemu.Events.Histories.Entries.{Unique, same_text_refl, same_text-equal, same_text-sym}
use machineemu.Events.Histories.Evicted.{oldest-Found, records-cases, value, named}

order_of :
    {m n : List ℕ} {i j : ℕ} → ◌≡◌ {A = Option (List ℕ × ℕ)} (some (m, i)) (some (n, j)) → i ≡ j
order_of h = ap (λ p. p.1) (value h)

first_order :
    (r q : EventRecord) (more rest l : List EventRecord)
    → l ≡ r ∷ more
    → l ≡ q ∷ rest
    → r.order ≡ q.order
first_order r q more rest l e f =
    let same : ◌≡◌ {A = List EventRecord} (r ∷ more) (q ∷ rest) = sym e ∙ f in
    let equal : r ≡ q = cc same in ap (λ x. x.order) equal

module _ {Sender : Type 0} where
  -- No history starts with an older record.
  abbrev pub IsLeast : ℕ → List (Entry Sender) → Type 0
  IsLeast order [] = Unit
  IsLeast order (e ∷ entries) =
      ((q : EventRecord) (rest : List EventRecord) → e.history.records ≡ q ∷ rest → order ≤ q.order)
      × IsLeast order entries

  IsLeast-mono :
      (low high : ℕ) (entries : List (Entry Sender))
      → low ≤ high
      → IsLeast high entries
      → IsLeast low entries
  IsLeast-mono low high [] le h = tt
  IsLeast-mono low high (e ∷ entries) le h =
      (λ q rest starts. omega (arith, h.0 q rest starts), IsLeast-mono low high entries le h.1)

  none-IsLeast :
      (order : ℕ) (entries : List (Entry Sender)) → oldest entries ≡ none → IsLeast order entries
  unfolding oldest
  none-IsLeast order [] h = tt
  none-IsLeast order (e ∷ entries) h = elim (records-cases e.history.records) [
    | inl nil ↦
        let rest : oldest entries ≡ none = (let shown = rw nil at h in shown) in
        (λ q more starts. absurd (cc (nil, starts)), none-IsLeast order entries rest)
    | inr (r, more, starts) ↦ absurd (elim (Option-cases (oldest entries)) [
      | inl missing ↦ let shown = rw (starts, missing) at h in cc shown
      | inr (o, present) ↦ let shown = rw (starts, present) at h in cc shown
    ])
  ]

  pub oldest-IsLeast :
      (entries : List (Entry Sender)) (name : List ℕ) (order : ℕ)
      → oldest entries ≡ some (name, order)
      → IsLeast order entries
  unfolding oldest
  oldest-IsLeast [] name order h = tt
  oldest-IsLeast (e ∷ entries) name order h = elim (records-cases e.history.records) [
    | inl nil ↦
        let rest : oldest entries ≡ some (name, order) = (let shown = rw nil at h in shown) in
        (λ q more starts. absurd (cc (nil, starts)), oldest-IsLeast entries name order rest)
    | inr (r, more, starts) ↦ elim (Option-cases (oldest entries)) [
      | inl missing ↦
          let this : r.order ≡ order = (let shown = rw (starts, missing) at h in order_of shown) in
          (
            λ q rest f. omega (arith, this, first_order r q more rest e.history.records starts f),
            none-IsLeast order entries missing,
          )
      | inr (o, present) ↦ elim (Bool-cases (leb r.order o.1)) [
        | inl here ↦
            let this : r.order ≡ order =
              (let shown = rw (starts, present, here) at h in order_of shown) in
            (
              λ q rest f. omega (arith, this, first_order r q more rest e.history.records starts f),
              IsLeast-mono order o.1 entries (omega (arith, this, leb→le r.order o.1 here))
                  (oldest-IsLeast entries o.0 o.1 present),
            )
        | inr there ↦
            let this : o ≡ (name, order) =
              (let shown = rw (starts, present, there) at h in value shown) in
            let same : o.1 ≡ order = ap (λ p. p.1) this in
            (
              λ q rest f.
                  let equal = first_order r q more rest e.history.records starts f in
                  ground (arith, same, equal),
              oldest-IsLeast entries name order (present ∙ ap some this),
            )
      ]
    ]
  ]

  -- The front of the chosen history has the order that was chosen.
  pub oldest-order :
      (entries : List (Entry Sender)) (name : List ℕ) (order : ℕ) (h : History Sender)
      (q : EventRecord) (rest : List EventRecord)
      → IsLeast order entries
      → lookup name entries ≡ some h
      → h.records ≡ q ∷ rest
      → order ≤ q.order
  unfolding lookup
  oldest-order [] name order h q rest least found starts = cc found
  oldest-order (e ∷ entries) name order h q rest least found starts =
      elim (Bool-cases (same_text e.name name)) [
        | inl same ↦
            let this : e.history ≡ h = (let shown = rw same at found in value shown) in
            least.0 q rest (ap (λ i. i.records) this ∙ starts)
        | inr other ↦
            let later : lookup name entries ≡ some h = (let shown = rw other at found in shown) in
            oldest-order entries name order h q rest least.1 later starts
      ]

  in_later :
      (e : Entry Sender) (entries : List (Entry Sender)) (name : List ℕ) (order : ℕ)
      (h : History Sender)
      → Unique (e ∷ entries)
      → oldest entries ≡ some (name, order)
      → lookup name (e ∷ entries) ≡ some h
      → lookup name entries ≡ some h
  unfolding lookup
  in_later e entries name order h u present found = elim (Bool-cases (same_text e.name name)) [
    | inr other ↦ (let shown = rw other at found in shown)
    | inl same ↦
        let f = oldest-Found entries name order u.1 present in
        let missing : lookup name entries ≡ none =
          subst (λ n. lookup n entries ≡ none) (same_text-equal e.name name same) u.0 in
        absurd (cc (missing, f.found))
  ]

  here_first :
      (e : Entry Sender) (entries : List (Entry Sender)) (name : List ℕ) (h : History Sender)
      → e.name ≡ name
      → lookup name (e ∷ entries) ≡ some h
      → e.history ≡ h
  unfolding lookup
  here_first e entries name h same found =
      let here : same_text e.name name ≡ true =
        subst (λ n. same_text e.name n ≡ true) same (same_text_refl e.name) in
      (let shown = rw here at found in value shown)

  chosen_here :
      (e : Entry Sender) (entries : List (Entry Sender)) (name : List ℕ) (order : ℕ)
      (h : History Sender) (q : EventRecord) (rest : List EventRecord) (r : EventRecord)
      (more : List EventRecord)
      → e.history.records ≡ r ∷ more
      → ◌≡◌ {A = Option (List ℕ × ℕ)} (some (e.name, r.order)) (some (name, order))
      → lookup name (e ∷ entries) ≡ some h
      → h.records ≡ q ∷ rest
      → q.order ≡ order
  chosen_here e entries name order h q rest r more s pair found starts =
      let this : e.history ≡ h = here_first e entries name h (named pair) found in
      let equal = first_order r q more rest h.records (sym (ap (λ i. i.records) this) ∙ s) starts in
      omega (arith, equal, order_of pair)

  found_later :
      (e : Entry Sender) (entries : List (Entry Sender)) (m : List ℕ) (i : History Sender)
      → lookup e.name entries ≡ none
      → lookup m entries ≡ some i
      → lookup m (e ∷ entries) ≡ some i
  unfolding lookup
  found_later e entries m i fresh found = elim (Bool-cases (same_text e.name m)) [
    | inr other ↦ rw other found
    | inl same ↦
        let missing : lookup m entries ≡ none =
          subst (λ n. lookup n entries ≡ none) (same_text-equal e.name m same) fresh in
        absurd (cc (missing, found))
  ]

  -- The first record of the chosen history has the order that was chosen.
  pub chosen_order :
      (entries : List (Entry Sender)) (name : List ℕ) (order : ℕ) (h : History Sender)
      (q : EventRecord) (rest : List EventRecord)
      → Unique entries
      → oldest entries ≡ some (name, order)
      → lookup name entries ≡ some h
      → h.records ≡ q ∷ rest
      → q.order ≡ order
  unfolding oldest
  chosen_order [] name order h q rest u chosen found starts = cc chosen
  chosen_order (e ∷ entries) name order h q rest u chosen found starts =
      elim (records-cases e.history.records) [
        | inl nil ↦
            let later : oldest entries ≡ some (name, order) =
              (let shown = rw nil at chosen in shown) in
            chosen_order entries name order h q rest u.1 later
              (in_later e entries name order h u later found) starts
        | inr (r, more, s) ↦ elim (Option-cases (oldest entries)) [
          | inl missing ↦
              let pair : ◌≡◌ {A = Option (List ℕ × ℕ)} (some (e.name, r.order))
                  (some (name, order)) =
                (let shown = rw (s, missing) at chosen in shown) in
              chosen_here e entries name order h q rest r more s pair found starts
          | inr (o, present) ↦ elim (Bool-cases (leb r.order o.1)) [
            | inl here ↦
                let pair : ◌≡◌ {A = Option (List ℕ × ℕ)} (some (e.name, r.order))
                    (some (name, order)) =
                  (let shown = rw (s, present, here) at chosen in shown) in
                chosen_here e entries name order h q rest r more s pair found starts
            | inr there ↦
                let this : o ≡ (name, order) =
                  (let shown = rw (s, present, there) at chosen in value shown) in
                let later : oldest entries ≡ some (name, order) = present ∙ ap some this in
                chosen_order entries name order h q rest u.1 later
                  (in_later e entries name order h u later found) starts
          ]
        ]
      ]

  sum-zero :
      (measure : History Sender → ℕ) (entries : List (Entry Sender))
      → Unique entries
      → ((m : List ℕ) (i : History Sender) → lookup m entries ≡ some i → measure i ≡ 0)
      → sum measure entries ≡ 0
  unfolding sum
  sum-zero measure [] u nothing = refl
  sum-zero measure (e ∷ entries) u nothing =
      let first = nothing e.name e.history (unfold lookup in rw (same_text_refl e.name) refl) in
      let rest =
        sum-zero measure entries u.1
          λ m i found. nothing m i (found_later e entries m i u.0 found) in
      omega (arith, first, rest)

  -- Without the others a sum is that of one history.
  pub sum-only :
      (measure : History Sender → ℕ) (name : List ℕ) (h : History Sender)
      (entries : List (Entry Sender))
      → Unique entries
      → lookup name entries ≡ some h
      → ((m : List ℕ) (i : History Sender)
          → same_text name m ≡ false
          → lookup m entries ≡ some i
          → measure i ≡ 0)
      → sum measure entries ≡ measure h
  unfolding sum
  sum-only measure name h [] u found nothing = unfold lookup in cc found
  sum-only measure name h (e ∷ entries) u found nothing =
      elim (Bool-cases (same_text e.name name)) [
        | inl same ↦
            let equal : e.name ≡ name = same_text-equal e.name name same in
            let this : e.history ≡ h = here_first e entries name h equal found in
            let rest = sum-zero measure entries u.1 λ m i f.
              nothing m i
                (elim (Bool-cases (same_text name m)) [
                  | inr differs ↦ differs
                  | inl also ↦
                      let other : e.name ≡ m = equal ∙ same_text-equal name m also in
                      let missing : lookup m entries ≡ none =
                        subst (λ n. lookup n entries ≡ none) other u.0 in
                      absurd (cc (missing, f))
                ])
                (found_later e entries m i u.0 f) in
            omega (arith, ap measure this, rest)
        | inr differs ↦
            let first =
              nothing e.name e.history (same_text-sym e.name name differs)
                (unfold lookup in rw (same_text_refl e.name) refl) in
            let later : lookup name entries ≡ some h =
              (unfold lookup in (let shown = rw differs at found in shown)) in
            let rest =
              sum-only measure name h entries u.1 later
                λ m i d f. nothing m i d (found_later e entries m i u.0 f) in
            omega (arith, first, rest)
      ]

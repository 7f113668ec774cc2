-- ===== src/Events/Histories/Evicted.antt =====
-- crates/machineemu/src/api/events.rs: the invariant of a history, and the oldest record of all.
use machineemu.Prelude.{
  ℕ, suc, ◌≤◌, ◌≡◌, refl, sym, ap, subst, ◌∙◌, Option, none, some, List, [], ◌∷◌, ◌++◌, length, leb,
  ◌⊎◌, inl, inr, All, Bool-cases, Option-cases, append_assoc, arith,
}
use machineemu.Events.Cursors.{same_text}
use machineemu.Events.Histories.{
  EventRecord, History, Entry, history_events, instance_history_bytes, instance_subscribers, lookup,
  sum, oldest,
}
use machineemu.Events.Histories.Entries.{Unique, same_text_refl, same_text-equal}
use machineemu.Events.Histories.Loops.{total_size}

-- The records are numbered one by one, from the number after `before` to `latest`.
abbrev pub Follow : ℕ → List EventRecord → ℕ → Type 0
Follow before [] latest = before ≡ latest
Follow before (r ∷ records) latest = (r.sequence ≡ suc before) × Follow r.sequence records latest

pub Follow-le :
    (before : ℕ) (records : List EventRecord) (latest : ℕ)
    → Follow before records latest
    → before ≤ latest
Follow-le before [] latest h = omega (arith, h)
Follow-le before (r ∷ records) latest h =
    omega (arith, h.0, Follow-le r.sequence records latest h.1)

-- A part at the end is numbered one by one as well.
pub Follow-drop :
    (before : ℕ) (dropped kept : List EventRecord) (latest : ℕ)
    → Follow before (dropped ++ kept) latest
    → (b : ℕ) × Follow b kept latest
Follow-drop before [] kept latest h = (before, h)
Follow-drop before (r ∷ dropped) kept latest h = Follow-drop r.sequence dropped kept latest h.1

pub records-cases :
    (l : List EventRecord)
    → (l ≡ []) ⊎ ((r : EventRecord) × (rest : List EventRecord) × (l ≡ r ∷ rest))
records-cases [] = inl refl
records-cases (r ∷ rest) = inr (r, rest, refl)

pub value : {A : Type 0} {a b : A} → ◌≡◌ {A = Option A} (some a) (some b) → a ≡ b
value h = cc h

pub named :
    {m n : List ℕ} {i j : ℕ} → ◌≡◌ {A = Option (List ℕ × ℕ)} (some (m, i)) (some (n, j)) → m ≡ n
named h = ap (λ p. p.0) (value h)

module _ {Sender : Type 0} where
  -- A history within its bounds, with what it counts; `bound` is the number of events so far.
  pub record IsHistory (bound : ℕ) (h : History Sender) : Type 0 where
    pub counted : h.bytes ≡ total_size h.records
    pub bytes_le : h.bytes ≤ instance_history_bytes
    pub few : length h.records ≤ history_events
    pub before : ℕ
    pub contiguous : Follow before h.records h.next_sequence
    pub sequence_le : h.next_sequence ≤ bound
    pub subscribers_le : length h.subscribers ≤ instance_subscribers
    pub ordered : All (λ r. r.order ≤ bound) h.records

  -- What is left of a history whose oldest records were dropped.
  pub record Shrunk (h h' : History Sender) : Type 0 where
    pub dropped : List EventRecord
    pub parts : h.records ≡ dropped ++ h'.records
    pub same_sequence : h'.next_sequence ≡ h.next_sequence
    pub same_subscribers : h'.subscribers ≡ h.subscribers

  pub Shrunk-refl : (h : History Sender) → Shrunk h h
  Shrunk-refl h = record {
    dropped = [];
    parts = refl;
    same_sequence = refl;
    same_subscribers = refl;
  }

  pub Shrunk-trans : (h i j : History Sender) → Shrunk h i → Shrunk i j → Shrunk h j
  Shrunk-trans h i j s t = record {
    dropped = s.dropped ++ t.dropped;
    parts =
        s.parts
        ∙ ap (λ l. s.dropped ++ l) t.parts
        ∙ sym (append_assoc s.dropped t.dropped j.records);
    same_sequence = t.same_sequence ∙ s.same_sequence;
    same_subscribers = t.same_subscribers ∙ s.same_subscribers;
  }

  pub record Found (name : List ℕ) (entries : List (Entry Sender)) : Type 0 where
    pub history : History Sender
    pub first : EventRecord
    pub later : List EventRecord
    pub found : lookup name entries ≡ some history
    pub starts : history.records ≡ first ∷ later

  Found-first :
      (e : Entry Sender) (entries : List (Entry Sender)) (r : EventRecord) (rest : List EventRecord)
      → e.history.records ≡ r ∷ rest
      → Found e.name (e ∷ entries)
  unfolding lookup
  Found-first e entries r rest starts = record {
    history = e.history;
    first = r;
    later = rest;
    found = rw (same_text_refl e.name) refl;
    starts = starts;
  }

  Found-later :
      (name : List ℕ) (e : Entry Sender) (entries : List (Entry Sender))
      → lookup e.name entries ≡ none
      → Found name entries
      → Found name (e ∷ entries)
  unfolding lookup
  Found-later name e entries fresh f = record {
    history = f.history;
    first = f.first;
    later = f.later;
    found = elim (Bool-cases (same_text e.name name)) [
      | inr other ↦ rw other f.found
      | inl same ↦ absurd (
          let equal : e.name ≡ name = same_text-equal e.name name same in
          let missing : lookup name entries ≡ none =
            subst (λ n. lookup n entries ≡ none) equal fresh in
          cc (missing, f.found))
    ];
    starts = f.starts;
  }

  -- The oldest record is the first of the history that it names.
  pub oldest-Found :
      (entries : List (Entry Sender)) (name : List ℕ) (order : ℕ)
      → Unique entries
      → oldest entries ≡ some (name, order)
      → Found name entries
  unfolding oldest
  oldest-Found [] name order u h = cc h
  oldest-Found (e ∷ entries) name order u h = elim (records-cases e.history.records) [
    | inl nil ↦
        let rest : oldest entries ≡ some (name, order) = (let shown = rw nil at h in shown) in
        Found-later name e entries u.0 (oldest-Found entries name order u.1 rest)
    | inr (r, more, starts) ↦ elim (Option-cases (oldest entries)) [
      | inl missing ↦
          let this : e.name ≡ name = (let shown = rw (starts, missing) at h in named shown) in
          subst (λ n. Found n (e ∷ entries)) this (Found-first e entries r more starts)
      | inr (o, present) ↦ elim (Bool-cases (leb r.order o.1)) [
        | inl here ↦
            let this : e.name ≡ name =
              (let shown = rw (starts, present, here) at h in named shown) in
            subst (λ n. Found n (e ∷ entries)) this (Found-first e entries r more starts)
        | inr there ↦
            let rest : o ≡ (name, order) =
              (let shown = rw (starts, present, there) at h in value shown) in
            Found-later name e entries u.0
              (oldest-Found entries name order u.1 (present ∙ ap some rest))
      ]
    ]
  ]

  -- Without an oldest record there are none.
  pub oldest-none :
      (bound : ℕ) (entries : List (Entry Sender))
      → All (λ e. IsHistory bound e.history) entries
      → oldest entries ≡ none
      → sum (λ h. h.bytes) entries ≡ 0
  unfolding oldest sum
  oldest-none bound [] all h = refl
  oldest-none bound (e ∷ entries) all h = elim (records-cases e.history.records) [
    | inl nil ↦
        let rest : oldest entries ≡ none = (let shown = rw nil at h in shown) in
        let none_here : total_size e.history.records ≡ 0 = rw nil refl in
        omega (arith, all.0.counted, none_here, oldest-none bound entries all.1 rest)
    | inr (r, more, starts) ↦ absurd (elim (Option-cases (oldest entries)) [
      | inl missing ↦ let shown = rw (starts, missing) at h in cc shown
      | inr (o, present) ↦ let shown = rw (starts, present) at h in cc shown
    ])
  ]

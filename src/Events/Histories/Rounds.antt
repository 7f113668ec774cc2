-- ===== src/Events/Histories/Rounds.antt =====
-- crates/machineemu/src/api/events.rs: the rounds of the loop over all histories, and what it leaves.
use machineemu.Prelude.{
  ℕ, zero, suc, ◌+◌, ◌-◌, ◌≤◌, ◌<◌, ◌≡◌, refl, sym, ap, subst, ◌∙◌, some, List, [], ◌∷◌, length,
  ltb, ltb→le, ltb→lt, inl, inr, All, Bool-cases, Option-cases, arith,
}
use machineemu.Events.Cursors.{u64_mod, same_text}
use machineemu.Events.Histories.{
  EventRecord, size, History, Entry, sub_u64, global_history_bytes, lookup, put, sum, oldest, pop,
  evict,
}
use machineemu.Events.Histories.Entries.{
  Unique, lookup-put, lookup-put_other, Unique-put, All-put, All-found, sum-found, sum-put_found,
  same_text-equal,
}
use machineemu.Events.Histories.Loops.{sub_u64_lem, total_size}
use machineemu.Events.Histories.Evicted.{
  Follow, IsHistory, Shrunk, Shrunk-refl, Shrunk-trans, Found, oldest-Found, oldest-none, value,
}

module _ {Sender : Type 0} where
  -- The history without its first record.
  abbrev pub without_first : History Sender → EventRecord → List EventRecord → History Sender
  without_first h r later = record h { records = later; bytes = sub_u64 h.bytes (size r) }

  pub pop_lem :
      (name : List ℕ) (entries : List (Entry Sender)) (total : ℕ) (f : Found name entries)
      → pop name entries total
        ≡ (put name (without_first f.history f.first f.later) entries, sub_u64 total (size f.first))
  unfolding pop
  pop_lem name entries total f = rw (f.found, f.starts) refl

  pub without_first-IsHistory :
      (bound : ℕ) (h : History Sender) (r : EventRecord) (later : List EventRecord)
      → h.records ≡ r ∷ later
      → IsHistory bound h
      → (sub_u64 h.bytes (size r) ≡ h.bytes - size r)
        × (size r ≤ h.bytes)
        × IsHistory bound (without_first h r later)
  without_first-IsHistory bound h r later starts v =
      let all_bytes : h.bytes ≡ size r + total_size later = v.counted ∙ ap total_size starts in
      let all_records : length h.records ≡ suc (length later) = ap length starts in
      let le : size r ≤ h.bytes = omega (arith, all_bytes) in
      let less : sub_u64 h.bytes (size r) ≡ h.bytes - size r =
        sub_u64_lem h.bytes (size r) le (omega (arith, v.bytes_le)) in
      let order : Follow v.before (r ∷ later) h.next_sequence =
        subst (λ l. Follow v.before l h.next_sequence) starts v.contiguous in
      (
        less,
        le,
        record {
          counted = omega (arith, less, all_bytes);
          bytes_le = omega (arith, less, v.bytes_le);
          few = omega (arith, all_records, v.few);
          before = r.sequence;
          contiguous = order.1;
          sequence_le = v.sequence_le;
          subscribers_le = v.subscribers_le;
          ordered = (subst (All (λ q. q.order ≤ bound)) starts v.ordered).1;
        },
      )

  -- What the second loop leaves.
  pub record Evicted (bound fuel : ℕ) (entries : List (Entry Sender)) (total : ℕ) : Type 0 where
    pub left : List (Entry Sender)
    pub left_total : ℕ
    pub ran : evict fuel entries total ≡ some (left, left_total)
    pub unique : Unique left
    pub each : All (λ e. IsHistory bound e.history) left
    pub counted : left_total ≡ sum (λ h. h.bytes) left
    pub within : left_total ≤ global_history_bytes
    pub same_subscribers :
        sum (λ h. length h.subscribers) left ≡ sum (λ h. length h.subscribers) entries
    pub shrunk :
        (name : List ℕ) (h : History Sender)
        → lookup name entries ≡ some h
        → (h' : History Sender) × (lookup name left ≡ some h') × Shrunk h h'

  Shrunk-after :
      (name : List ℕ) (entries left : List (Entry Sender)) (f : Found name entries)
      → ((n : List ℕ) (h : History Sender)
          → lookup n (put name (without_first f.history f.first f.later) entries) ≡ some h
          → (h' : History Sender) × (lookup n left ≡ some h') × Shrunk h h')
      → (n : List ℕ) (h : History Sender) → lookup n entries ≡ some h
      → (h' : History Sender) × (lookup n left ≡ some h') × Shrunk h h'
  Shrunk-after name entries left f later n h found = elim (Bool-cases (same_text name n)) [
    | inr other ↦ later n h (lookup-put_other name n _ entries other ∙ found)
    | inl same ↦
        let equal : name ≡ n = same_text-equal name n same in
        let this : f.history ≡ h = value (sym f.found ∙ ap (λ m. lookup m entries) equal ∙ found) in
        let (h', present, s) = later n _ (
          subst
            (λ m.
              lookup m (put name (without_first f.history f.first f.later) entries)
              ≡ some (without_first f.history f.first f.later))
            equal (lookup-put name _ entries)) in
        (
          h',
          present,
          subst (λ i. Shrunk i h') this
              (Shrunk-trans f.history _ h'
                (record {
                  dropped = f.first ∷ [];
                  parts = f.starts;
                  same_sequence = refl;
                  same_subscribers = refl;
                })
                s),
        )
  ]

  abbrev pub next :
      (name : List ℕ) (entries : List (Entry Sender)) → Found name entries → List (Entry Sender)
  next name entries f = put name (without_first f.history f.first f.later) entries

  -- One round: a record is gone, with its bytes.
  pub record Round (bound : ℕ) (name : List ℕ) (entries : List (Entry Sender)) (total : ℕ)
      (f : Found name entries) : Type 0 where
    pub each : All (λ e. IsHistory bound e.history) (next name entries f)
    pub counted : sub_u64 total (size f.first) ≡ sum (λ h. h.bytes) (next name entries f)
    pub less : sub_u64 total (size f.first) < u64_mod
    pub fewer :
        suc (sum (λ h. length h.records) (next name entries f))
        ≡ sum (λ h. length h.records) entries
    pub same_subscribers :
        sum (λ h. length h.subscribers) (next name entries f)
        ≡ sum (λ h. length h.subscribers) entries

  pub round_lem :
      (bound : ℕ) (name : List ℕ) (entries : List (Entry Sender)) (total : ℕ)
      (f : Found name entries)
      → All (λ e. IsHistory bound e.history) entries
      → total ≡ sum (λ h. h.bytes) entries
      → total < u64_mod
      → Round bound name entries total f
  round_lem bound name entries total f all c lt =
      let here = All-found (IsHistory bound) name f.history entries f.found all in
      let (bytes_less, fits, v) =
        without_first-IsHistory bound f.history f.first f.later f.starts here in
      let h' = without_first f.history f.first f.later in
      let bytes_sum = sum-put_found (λ h. h.bytes) name h' f.history entries refl f.found in
      let record_sum =
        sum-put_found (λ h. length h.records) name h' f.history entries refl f.found in
      let subscriber_sum =
        sum-put_found (λ h. length h.subscribers) name h' f.history entries refl f.found in
      let all_records : length f.history.records ≡ suc (length f.later) = ap length f.starts in
      let most : f.history.bytes ≤ sum (λ h. h.bytes) entries =
        sum-found (λ h. h.bytes) name f.history entries f.found in
      let less = sub_u64_lem total (size f.first) (omega (arith, fits, most, c)) lt in
      record {
        each = All-put (IsHistory bound) name h' entries v all;
        counted = omega (arith, less, bytes_sum, bytes_less, fits, most, c);
        less = omega (arith, less);
        fewer = omega (arith, record_sum, all_records);
        same_subscribers = omega (arith, subscriber_sum);
      }

  pub evict_lem :
      (bound fuel : ℕ) (entries : List (Entry Sender)) (total : ℕ)
      → Unique entries
      → All (λ e. IsHistory bound e.history) entries
      → total ≡ sum (λ h. h.bytes) entries
      → total < u64_mod
      → sum (λ h. length h.records) entries < fuel
      → Evicted bound fuel entries total
  unfolding evict
  evict_lem bound zero entries total u all c lt enough = absurd (omega arith)
  evict_lem bound (suc fuel) entries total u all c lt enough =
      elim (Bool-cases (ltb global_history_bytes total)) [
        | inr within ↦ record {
          left = entries;
          left_total = total;
          ran = rw (evict, within) refl;
          unique = u;
          each = all;
          counted = c;
          within = ltb→le global_history_bytes total within;
          same_subscribers = refl;
          shrunk = λ n h found. (h, found, Shrunk-refl h);
        }
        | inl over ↦ elim (Option-cases (oldest entries)) [
          | inl missing ↦ absurd (
              omega (
                arith,
                c,
                oldest-none bound entries all missing,
                ltb→lt global_history_bytes total over,
              ))
          | inr ((name, order), present) ↦
              let f = oldest-Found entries name order u present in
              let step = round_lem bound name entries total f all c lt in
              let e =
                evict_lem bound fuel (next name entries f) (sub_u64 total (size f.first))
                  (Unique-put name _ entries u) step.each step.counted step.less
                  (omega (arith, step.fewer)) in
              record {
                left = e.left;
                left_total = e.left_total;
                ran = rw (evict, over, present, pop_lem name entries total f) e.ran;
                unique = e.unique;
                each = e.each;
                counted = e.counted;
                within = e.within;
                same_subscribers = e.same_subscribers ∙ step.same_subscribers;
                shrunk = Shrunk-after name entries e.left f e.shrunk;
              }
        ]
      ]

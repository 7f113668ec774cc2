-- ===== src/Events/Histories/Lasting.antt =====
-- crates/machineemu/src/api/events.rs: the record that has just been published, in the loop over all
-- histories.
use machineemu.Prelude.{
  ℕ, zero, suc, ◌≤◌, ◌<◌, ◌≡◌, sym, ap, subst, ◌∙◌, false, some, List, [], ◌∷◌, ◌++◌, length, ◌||◌,
  ltb, ltb→lt, le→ltb, inl, inr, All, Bool-cases, Option-cases, arith,
}
use machineemu.Events.Cursors.{u64_mod, same_text}
use machineemu.Events.Histories.{
  EventRecord, size, History, Entry, sub_u64, global_history_bytes, trim, history_events,
  instance_history_bytes, lookup, put, sum, oldest, evict,
}
use machineemu.Events.Histories.Entries.{
  Unique, lookup-put, lookup-put_other, Unique-put, All-found, same_text-equal,
}
use machineemu.Events.Histories.Loops.{total_size, sub_u64_lem}
use machineemu.Events.Histories.Evicted.{IsHistory, Found, oldest-Found, records-cases, value}
use machineemu.Events.Histories.Rounds.{without_first, next, pop_lem, round_lem}
use machineemu.Events.Histories.Newest.{oldest-IsLeast, chosen_order, oldest-order, sum-only}

tail_of :
    (q s : EventRecord) (l rest more : List EventRecord) → l ≡ q ∷ rest → l ≡ s ∷ more → rest ≡ more
tail_of q s l rest more e f =
    let same : ◌≡◌ {A = List EventRecord} (q ∷ rest) (s ∷ more) = sym e ∙ f in cc same

-- The loop over the records of an instance leaves the last one.
pub trim-last :
    (earlier : List EventRecord) (r : EventRecord) (bytes total : ℕ)
    → bytes ≡ total_size (earlier ++ r ∷ [])
    → bytes < u64_mod
    → size r ≤ instance_history_bytes
    → {kept : List EventRecord} {kept_bytes left : ℕ}
    → trim (earlier ++ r ∷ []) bytes total ≡ some (kept, kept_bytes, left)
    → (e : List EventRecord) × (kept ≡ e ++ r ∷ [])
unfolding trim
trim-last [] r bytes total c lt small {kept} {kept_bytes} {left} ran =
    let within : ltb instance_history_bytes bytes ≡ false =
      le→ltb instance_history_bytes bytes (omega (arith, c, small)) in
    let same : (r ∷ [], bytes, total) ≡ (kept, kept_bytes, left) =
      (let shown = rw within at ran in value shown) in
    ([], sym (ap (λ p. p.0) same))
trim-last (q ∷ earlier) r bytes total c lt small {kept} {kept_bytes} {left} ran =
    elim (Bool-cases
      (ltb history_events (length (q ∷ (earlier ++ r ∷ []))) || ltb instance_history_bytes bytes)) [
        | inr within ↦
            let same : (q ∷ (earlier ++ r ∷ []), bytes, total) ≡ (kept, kept_bytes, left) =
              (let shown = rw within at ran in value shown) in
            (q ∷ earlier, sym (ap (λ p. p.0) same))
        | inl over ↦
            let less = sub_u64_lem bytes (size q) (omega (arith, c)) lt in
            let rest : trim (earlier ++ r ∷ []) (sub_u64 bytes (size q)) (sub_u64 total (size q))
                ≡ some (kept, kept_bytes, left) =
              (let shown = rw over at ran in shown) in
            trim-last earlier r (sub_u64 bytes (size q)) (sub_u64 total (size q))
              (omega (arith, less, c)) (omega (arith, less)) small rest
      ]

module _ {Sender : Type 0} where
  -- A history ends with the record, and the other histories have older records only.
  pub record IsNewest (name : List ℕ) (r : EventRecord) (entries : List (Entry Sender))
      : Type 0 where
    pub history : History Sender
    pub found : lookup name entries ≡ some history
    pub earlier : List EventRecord
    pub ends : history.records ≡ earlier ++ r ∷ []
    pub others :
        (m : List ℕ) (i : History Sender)
        → same_text name m ≡ false
        → lookup m entries ≡ some i
        → All (λ q. q.order < r.order) i.records

  -- If the record is the oldest of all, it is the only one.
  only_one :
      (bound : ℕ) (name : List ℕ) (order : ℕ) (r : EventRecord) (entries : List (Entry Sender))
      (n : IsNewest name r entries)
      → Unique entries
      → All (λ e. IsHistory bound e.history) entries
      → oldest entries ≡ some (name, order)
      → n.history.records ≡ r ∷ []
      → sum (λ h. h.bytes) entries ≡ size r
  only_one bound name order r entries n u all chosen alone =
      let least = oldest-IsLeast entries name order chosen in
      let same = chosen_order entries name order n.history r [] u chosen n.found alone in
      let own = All-found (IsHistory bound) name n.history entries n.found all in
      let total =
        sum-only (λ h. h.bytes) name n.history entries u n.found
          λ m i differs found. elim (records-cases i.records) [
            | inl nil ↦
                let v = All-found (IsHistory bound) m i entries found all in
                v.counted ∙ ap total_size nil
            | inr (q, rest, starts) ↦
                let older =
                  subst (All (λ x. x.order < r.order)) starts (n.others m i differs found) in
                let least_q = oldest-order entries m order i q rest least found starts in
                absurd (omega (arith, same, older.0, least_q))
          ] in
      omega (arith, total, own.counted, ap total_size alone)

  -- A round that drops a record of another history keeps it.
  other_round :
      (name n : List ℕ) (r : EventRecord) (entries : List (Entry Sender)) (f : Found n entries)
      → IsNewest name r entries
      → same_text n name ≡ false
      → IsNewest name r (next n entries f)
  other_round name n r entries f i differs =
      let h' = without_first f.history f.first f.later in
      record {
        history = i.history;
        found = lookup-put_other n name h' entries differs ∙ i.found;
        earlier = i.earlier;
        ends = i.ends;
        others = λ m j d found. elim (Bool-cases (same_text n m)) [
          | inr another ↦ i.others m j d (sym (lookup-put_other n m h' entries another) ∙ found)
          | inl same ↦
              let equal : n ≡ m = same_text-equal n m same in
              let this : h' ≡ j = value (
                sym (lookup-put n h' entries)
                ∙ ap (λ k. lookup k (put n h' entries)) equal
                ∙ found) in
              let old = i.others m f.history d (ap (λ k. lookup k entries) (sym equal) ∙ f.found) in
              let all = subst (All (λ q. q.order < r.order)) f.starts old in
              subst (λ k. All (λ q. q.order < r.order) k.records) this all.1
        ];
      }

  -- So does a round that drops an earlier record of its history.
  own_round :
      (n : List ℕ) (r q : EventRecord) (entries : List (Entry Sender)) (f : Found n entries)
      (i : IsNewest n r entries) (rest : List EventRecord)
      → i.earlier ≡ q ∷ rest
      → IsNewest n r (next n entries f)
  own_round n r q entries f i rest more =
      let h' = without_first f.history f.first f.later in
      let same : f.history ≡ i.history = value (sym f.found ∙ i.found) in
      let shape : f.history.records ≡ q ∷ (rest ++ r ∷ []) =
        ap (λ h. h.records) same ∙ i.ends ∙ ap (λ l. l ++ r ∷ []) more in
      record {
        history = h';
        found = lookup-put n h' entries;
        earlier = rest;
        ends = tail_of f.first q f.history.records f.later (rest ++ r ∷ []) f.starts shape;
        others = λ m j d found. i.others m j d (sym (lookup-put_other n m h' entries d) ∙ found);
      }

  round-IsNewest :
      (bound : ℕ) (name n : List ℕ) (order : ℕ) (r : EventRecord) (entries : List (Entry Sender))
      (f : Found n entries)
      → IsNewest name r entries
      → Unique entries
      → All (λ e. IsHistory bound e.history) entries
      → oldest entries ≡ some (n, order)
      → size r < sum (λ h. h.bytes) entries
      → IsNewest name r (next n entries f)
  round-IsNewest bound name n order r entries f i u all chosen more =
      elim (Bool-cases (same_text n name)) [
        | inr differs ↦ other_round name n r entries f i differs
        | inl same ↦
            let equal : n ≡ name = same_text-equal n name same in
            let i' : IsNewest n r entries = subst (λ k. IsNewest k r entries) (sym equal) i in
            subst (λ k. IsNewest k r (next n entries f)) equal
              (elim (records-cases i'.earlier) [
                | inr (q, rest, starts) ↦ own_round n r q entries f i' rest starts
                | inl nil ↦ absurd (
                    let alone = i'.ends ∙ ap (λ l. l ++ r ∷ []) nil in
                    omega (arith, more, only_one bound n order r entries i' u all chosen alone))
              ])
      ]

  -- The loop keeps a record that is newer than all others and takes up less than the bound.
  pub evict-IsNewest :
      (bound fuel : ℕ) (name : List ℕ) (r : EventRecord) (entries left : List (Entry Sender))
      (total left_total : ℕ)
      → size r ≤ global_history_bytes
      → Unique entries
      → All (λ e. IsHistory bound e.history) entries
      → total ≡ sum (λ h. h.bytes) entries
      → total < u64_mod
      → IsNewest name r entries
      → evict fuel entries total ≡ some (left, left_total)
      → IsNewest name r left
  unfolding evict
  evict-IsNewest bound zero name r entries left total left_total small u all c lt i ran = cc ran
  evict-IsNewest bound (suc fuel) name r entries left total left_total small u all c lt i ran =
      elim (Bool-cases (ltb global_history_bytes total)) [
        | inr within ↦
            let same : (entries, total) ≡ (left, left_total) =
              (let shown = rw within at ran in value shown) in
            subst (IsNewest name r) (ap (λ p. p.0) same) i
        | inl over ↦ elim (Option-cases (oldest entries)) [
          | inl missing ↦
              let same : (entries, total) ≡ (left, left_total) =
                (let shown = rw (over, missing) at ran in value shown) in
              subst (IsNewest name r) (ap (λ p. p.0) same) i
          | inr ((n, order), chosen) ↦
              let f = oldest-Found entries n order u chosen in
              let step = round_lem bound n entries total f all c lt in
              let rest : evict fuel (next n entries f) (sub_u64 total (size f.first))
                  ≡ some (left, left_total) =
                (let shown = rw (over, chosen, pop_lem n entries total f) at ran in shown) in
              evict-IsNewest bound fuel name r (next n entries f) left
                (sub_u64 total (size f.first)) left_total small (Unique-put n _ entries u) step.each
                step.counted step.less
                (round-IsNewest bound name n order r entries f i u all chosen
                  (omega (arith, small, c, ltb→lt global_history_bytes total over)))
                rest
        ]
      ]

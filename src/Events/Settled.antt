-- ===== src/Events/Settled.antt =====
-- crates/machineemu/src/api/events.rs: the two loops of `publish` and the hub that they leave.
use machineemu.Prelude.{
  ℕ, suc, ◌+◌, ◌≤◌, ◌<◌, ◌≡◌, refl, sym, ap, subst, ◌∙◌, Bool, true, false, Option, some, List, [],
  ◌∷◌, ◌++◌, length, All, All-append, arith,
}
use machineemu.Events.Cursors.{u64_mod, same_text}
use machineemu.Events.Histories.{
  EventRecord, size, History, Entry, EventHub, trim, evict, lookup, put, sum,
}
use machineemu.Events.Histories.Entries.{
  All-found, Unique-put, sum-put, All-put, lookup-put, lookup-put_other,
}
use machineemu.Events.Histories.Loops.{total_size, total_size-append, Trimmed, trim_lem}
use machineemu.Events.Histories.Evicted.{Follow, Follow-drop, IsHistory, Shrunk, Shrunk-trans}
use machineemu.Events.Histories.Rounds.{evict_lem}
use machineemu.Events.Histories.Lasting.{trim-last, IsNewest, evict-IsNewest}
use machineemu.Events.Kept.{
  IsHub, All-mono, history_of, history_of-IsHistory, history_bytes, retain-le, Follow-append,
  orders-le, IsNew,
}
use machineemu.Events.{append, settle, record_count}

All-drop_part :
    (P : EventRecord → Type 0) (dropped kept : List EventRecord)
    → All P (dropped ++ kept)
    → All P kept
All-drop_part P [] kept all = all
All-drop_part P (q ∷ dropped) kept all = All-drop_part P dropped kept all.1

orders-lt :
    (low top : ℕ) (records : List EventRecord)
    → top ≡ suc low
    → All (λ q. q.order ≤ low) records
    → All (λ q. q.order < top) records
orders-lt low top [] e all = tt
orders-lt low top (q ∷ records) e all = (omega (arith, e, all.0), orders-lt low top records e all.1)

module _ {Sender : Type 0} where
  pub subscribers_after :
      (try_send : Sender → EventRecord → Option Sender) (r : EventRecord) (broadcast : Bool)
      (h : History Sender)
      → length (append try_send r broadcast h).subscribers ≤ length h.subscribers
  unfolding append
  subscribers_after try_send r true h = retain-le (λ s. try_send s r) h.subscribers
  subscribers_after try_send r false h = omega arith

  -- The hub and the history of an instance, once a record has been added and counted.
  pub record IsAdded (hub : EventHub Sender) (instance_id : List ℕ) (r : EventRecord)
      (counted : EventHub Sender) (h : History Sender) : Type 0 where
    pub new : IsNew hub instance_id r
    pub order : counted.next_order ≡ suc hub.next_order
    pub same_generation : counted.generation ≡ hub.generation
    pub same_histories : counted.histories ≡ hub.histories
    pub total : counted.bytes ≡ hub.bytes + size r
    pub bytes : h.bytes ≡ (history_of hub instance_id).bytes + size r
    pub records : h.records ≡ (history_of hub instance_id).records ++ r ∷ []
    pub sequence : h.next_sequence ≡ r.sequence
    pub subscribers : length h.subscribers ≤ length (history_of hub instance_id).subscribers

  -- What both loops leave of it.
  pub record Settled (hub : EventHub Sender) (instance_id : List ℕ) (r : EventRecord)
      (h : History Sender) (out : Option (EventHub Sender)) : Type 0 where
    pub left : EventHub Sender
    pub ran : out ≡ some left
    pub is_sound : IsHub left
    pub one_more : left.next_order ≡ suc hub.next_order
    pub same_generation : left.generation ≡ hub.generation
    pub kept : History Sender
    pub found : lookup instance_id left.histories ≡ some kept
    pub shrunk : Shrunk h kept
    pub lasting : IsNewest instance_id r left.histories
    pub people :
        sum (λ i. length i.subscribers) left.histories
        ≤ sum (λ i. length i.subscribers) hub.histories
    pub others :
        (name : List ℕ) (i : History Sender)
        → same_text instance_id name ≡ false
        → lookup name hub.histories ≡ some i
        → (j : History Sender) × (lookup name left.histories ≡ some j) × Shrunk i j

  kept-IsHistory :
      (hub : EventHub Sender) (instance_id : List ℕ) (r : EventRecord) (counted : EventHub Sender)
      (h : History Sender)
      → IsHub hub
      → IsAdded hub instance_id r counted h
      → (t : Trimmed h.records h.bytes counted.bytes)
      → IsHistory (suc hub.next_order) (record h { records = t.kept; bytes = t.kept_bytes })
  kept-IsHistory hub instance_id r counted h v a t =
      let old = history_of-IsHistory hub instance_id v in
      let joined : Follow old.before h.records r.sequence =
        subst (λ l. Follow old.before l r.sequence) (sym a.records)
          (Follow-append old.before _ _ r old.contiguous a.new.numbered) in
      let (b, last_part) =
        Follow-drop old.before t.dropped t.kept r.sequence
          (subst (λ l. Follow old.before l r.sequence) t.parts joined) in
      record {
        counted = t.counted;
        bytes_le = t.bytes_le;
        few = t.few;
        before = b;
        contiguous = subst (λ n. Follow b t.kept n) (sym a.sequence) last_part;
        sequence_le = omega (arith, a.sequence, a.new.numbered, old.sequence_le);
        subscribers_le = omega (arith, a.subscribers, old.subscribers_le);
        ordered =
            All-drop_part (λ q. q.order ≤ suc hub.next_order) t.dropped t.kept
              (subst (All (λ q. q.order ≤ suc hub.next_order)) (sym a.records ∙ t.parts) (
                All-append (λ q. q.order ≤ suc hub.next_order) _ (r ∷ [])
                  (orders-le hub.next_order (suc hub.next_order) _ (omega arith) old.ordered)
                  (omega (arith, a.new.ordered), tt)));
      }

  all_counted :
      (hub : EventHub Sender) (instance_id : List ℕ) (r : EventRecord) (counted : EventHub Sender)
      (h : History Sender)
      → IsHub hub
      → IsAdded hub instance_id r counted h
      → h.bytes ≡ total_size h.records
  all_counted hub instance_id r counted h v a =
      let old = history_of-IsHistory hub instance_id v in
      let all : total_size h.records ≡ total_size (history_of hub instance_id).records + size r =
        ap total_size a.records
        ∙ omega (arith, total_size-append (history_of hub instance_id).records (r ∷ [])) in
      omega (arith, all, a.bytes, old.counted)

  trimmed :
      (hub : EventHub Sender) (instance_id : List ℕ) (r : EventRecord) (counted : EventHub Sender)
      (h : History Sender)
      → IsHub hub
      → IsAdded hub instance_id r counted h
      → Trimmed h.records h.bytes counted.bytes
  trimmed hub instance_id r counted h v a =
      let old = history_of-IsHistory hub instance_id v in
      trim_lem h.records h.bytes counted.bytes (all_counted hub instance_id r counted h v a)
        (omega (arith, a.bytes, a.total, history_bytes hub instance_id v))
        (omega (arith, a.total, a.new.small, v.within))

  -- Before the loop over all histories, the new record is the newest.
  new-IsNewest :
      (hub : EventHub Sender) (instance_id : List ℕ) (r : EventRecord) (counted : EventHub Sender)
      (h : History Sender) (v : IsHub hub) (a : IsAdded hub instance_id r counted h)
      (t : Trimmed h.records h.bytes counted.bytes)
      → h.bytes ≡ total_size h.records
      → IsNewest instance_id r
          (put instance_id (record h { records = t.kept; bytes = t.kept_bytes }) hub.histories)
  new-IsNewest hub instance_id r counted h v a t c =
      let old = history_of-IsHistory hub instance_id v in
      let before = (history_of hub instance_id).records in
      let (e, ends) =
        trim-last before r h.bytes counted.bytes (c ∙ ap total_size a.records)
          (omega (arith, a.bytes, old.bytes_le, a.new.small)) (omega (arith, a.new.small))
          (subst (λ l. trim l h.bytes counted.bytes ≡ some (t.kept, t.kept_bytes, t.left)) a.records
            t.ran) in
      record {
        history = record h { records = t.kept; bytes = t.kept_bytes };
        found = lookup-put instance_id _ hub.histories;
        earlier = e;
        ends = ends;
        others = λ m i d found.
            orders-lt hub.next_order r.order i.records a.new.ordered
              (All-found (IsHistory hub.next_order) m i hub.histories
                (sym (lookup-put_other instance_id m _ hub.histories d) ∙ found) v.each).ordered;
      }

  settle_run :
      (instance_id : List ℕ) (h : History Sender) (hub : EventHub Sender)
      (histories : List (Entry Sender))
      → hub.histories ≡ histories
      → {kept : List EventRecord} {bytes left total : ℕ} {entries : List (Entry Sender)}
      → trim h.records h.bytes hub.bytes ≡ some (kept, bytes, left)
      → evict
          (suc (
            sum record_count
              (put instance_id (record h { records = kept; bytes = bytes }) histories)))
          (put instance_id (record h { records = kept; bytes = bytes }) histories)
          left
        ≡ some (entries, total)
      → settle instance_id h hub ≡ some (record hub { histories = entries; bytes = total })
  unfolding settle
  settle_run instance_id h hub histories same t e = rw (settle, t, same, e) refl

  pub settle_lem :
      (hub : EventHub Sender) (instance_id : List ℕ) (r : EventRecord) (counted : EventHub Sender)
      (h : History Sender)
      → IsHub hub
      → IsAdded hub instance_id r counted h
      → Settled hub instance_id r h (settle instance_id h counted)
  settle_lem hub instance_id r counted h v a =
      let old = history_of-IsHistory hub instance_id v in
      let t = trimmed hub instance_id r counted h v a in
      let kept = record h { records = t.kept; bytes = t.kept_bytes } in
      let entries = put instance_id kept hub.histories in
      let byte_sum = sum-put (λ i. i.bytes) instance_id kept hub.histories refl in
      let people = sum-put (λ i. length i.subscribers) instance_id kept hub.histories refl in
      let each =
        All-put (IsHistory (suc hub.next_order)) instance_id kept hub.histories
          (kept-IsHistory hub instance_id r counted h v a t)
          (All-mono hub.next_order (suc hub.next_order) hub.histories (omega arith) v.each) in
      let c : t.left ≡ sum (λ i. i.bytes) entries =
        omega (arith, byte_sum, v.counted, t.rest, a.total, a.bytes) in
      let lt : t.left < u64_mod =
        omega (arith, t.rest, a.total, a.new.small, v.within, t.bytes_le) in
      let e =
        evict_lem (suc hub.next_order) (suc (sum record_count entries)) entries t.left
          (Unique-put instance_id kept hub.histories v.unique) each c lt (omega arith) in
      let (kept', present, s) =
        e.shrunk instance_id kept (lookup-put instance_id kept hub.histories) in
      record {
        left = record counted { histories = e.left; bytes = e.left_total };
        ran = settle_run instance_id h counted hub.histories a.same_histories t.ran e.ran;
        is_sound = record {
          generation_length = ap length a.same_generation ∙ v.generation_length;
          unique = e.unique;
          each = subst (λ n. All (λ i. IsHistory n i.history) e.left) (sym a.order) e.each;
          counted = e.counted;
          within = e.within;
          subscribers_le =
              omega (arith, e.same_subscribers, people, a.subscribers, v.subscribers_le);
        };
        one_more = a.order;
        same_generation = a.same_generation;
        kept = kept';
        found = present;
        shrunk =
            Shrunk-trans h kept kept'
              (record {
                dropped = t.dropped;
                parts = t.parts;
                same_sequence = refl;
                same_subscribers = refl;
              })
              s;
        lasting =
            evict-IsNewest (suc hub.next_order) (suc (sum record_count entries)) instance_id r
              entries e.left t.left e.left_total (omega (arith, a.new.small))
              (Unique-put instance_id kept hub.histories v.unique) each c lt
              (new-IsNewest hub instance_id r counted h v a t
                (all_counted hub instance_id r counted h v a))
              e.ran;
        people = omega (arith, e.same_subscribers, people, a.subscribers);
        others = λ name i other found.
            e.shrunk name i (lookup-put_other instance_id name kept hub.histories other ∙ found);
      }

-- ===== src/Protocol/Wire/Stream.antt =====
-- Reading a stream of records: `decode` with more bytes behind, and the record loop of
-- crates/display-stream/src/bin/probe.rs.
use machineemu.Prelude.{
  ℕ, zero, suc, ◌+◌, ◌≤◌, ◌<◌, ◌≡◌, ◌≢◌, refl, sym, ap, ◌∙◌, Bool-cases, inl, inr, List, [], ◌∷◌,
  ◌++◌, append_assoc, append-nil, Option, none, some, length, drop, length-append, length-drop,
  take-append_le, drop-append_le, All, false, ltb, le→ltb, ltb→le, arith,
}
use mathlib.Core.Option
use machineemu.Prelude.Result.{Result, ok, err, ◌>>=◌, bind-ok}
use machineemu.Protocol.{VideoError, Record, IsTyped, header_len, max_payload}
use machineemu.Protocol.Buf.{ByteBuf}
use machineemu.Protocol.Wire.{Header, header, encode, take_payload, finish, decode}
use machineemu.Protocol.Wire.RoundTrip.{length-header, encode-ok, decode-encode, decode_partial}
use machineemu.Protocol.Wire.Sound.{take_payload-some, decoded}

-- How `probe` ends: on a bad record, or on bytes left over.
pub data ProbeError : Type 0 where
  video : VideoError → ProbeError
  truncated_input : ProbeError

abbrev cons_record : Record → Result ProbeError (List Record) → Result ProbeError (List Record)
cons_record r (ok rs) = ok (r ∷ rs)
cons_record r (err e) = err e

-- The records of a list in front of an outcome.
abbrev prepend :
    List Record
    → Option (Result ProbeError (List Record))
    → Option (Result ProbeError (List Record))
prepend [] o = o
prepend (r ∷ rs) o = Option.map (cons_record r) (prepend rs o)

prepend-ok : (rs : List Record) → prepend rs (some (ok [])) ≡ some (ok rs)
prepend-ok [] = refl
prepend-ok (r ∷ rs) = ap (Option.map (cons_record r)) (prepend-ok rs)

prepend-err : (rs : List Record) (e : ProbeError) → prepend rs (some (err e)) ≡ some (err e)
prepend-err [] e = refl
prepend-err (r ∷ rs) e = ap (Option.map (cons_record r)) (prepend-err rs e)

-- One round of `while let Some(record) = decode(&mut input)?`, and what follows the loop.
unfoldable pub probe_round :
    (List ℕ → Option (Result ProbeError (List Record)))
    → Result VideoError (Option Record) × List ℕ
    → Option (Result ProbeError (List Record))
probe_round again (err e, rest) = some (err (video e))
probe_round again (ok none, []) = some (ok [])
probe_round again (ok none, b ∷ rest) = some (err truncated_input)
probe_round again (ok (some r), rest) = Option.map (cons_record r) (again rest)

ok-injective : {E A : Type 0} {a b : A} → ◌≡◌ {A = Result E A} (ok a) (ok b) → a ≡ b
ok-injective {E} h = cc h

map-ne-none : {A B : Type 0} (f : A → B) (o : Option A) → o ≢ none → Option.map f o ≢ none
map-ne-none f none h p = h refl
map-ne-none f (some a) h p = cc p

-- A payload that is there is the same with more bytes behind it.
take_payload_more :
    (h : Header) (input more rest : List ℕ) (r : Record)
    → take_payload h input ≡ (some r, rest)
    → take_payload h (input ++ more) ≡ (some r, rest ++ more)
unfolding take_payload
take_payload_more h input more rest r paid =
    let m = take_payload-some h input rest r paid in
    let n = h.payload_len in
    let body = drop header_len input in
    let here : ltb (length input) (header_len + n) ≡ false = le→ltb _ _ m.enough in
    let still : ltb (length (input ++ more)) (header_len + n) ≡ false =
      le→ltb _ _ (omega (arith, m.enough, length-append input more)) in
    let inside : n ≤ length body = omega (arith, m.enough, length-drop header_len input) in
    let paid' = rw here at paid in
    rw
      (
        still,
        drop-append_le header_len input more (omega (arith, m.enough)),
        take-append_le n body more inside,
        drop-append_le n body more inside,
      )
      (ap (λ (p : Option Record × List ℕ). (p.0, p.1 ++ more)) paid')

module _ (buf : ByteBuf) where
  -- The records that `probe` prints; `none` says that the fuel ran out.
  unfoldable pub probe : ℕ → List ℕ → Option (Result ProbeError (List Record))
  unfolding probe_round
  probe zero input = none
  probe (suc fuel) input = probe_round (probe fuel) (decode buf input)

  -- The writer's side: records encoded one after another into one buffer.
  unfoldable pub encode_all : List Record → List ℕ → Result VideoError (List ℕ)
  encode_all [] output = ok output
  encode_all (r ∷ rs) output = do output' ← encode buf r output; encode_all rs output'

  -- Every record takes its header at least, so the buffer gets shorter.
  decode-shorter :
      (input rest : List ℕ) (r : Record)
      → decode buf input ≡ (ok (some r), rest)
      → length rest < length input
  decode-shorter input rest r e =
      let (h, long, accepted, paid) = decoded buf input rest r e in
      let m = take_payload-some h input rest r paid in
      omega (
        arith,
        ap length m.left,
        m.enough,
        length-drop h.payload_len (drop header_len input),
        length-drop header_len input,
      )

  -- A round that decodes a record goes on with fewer bytes.
  probe_round_total :
      (again : List ℕ → Option (Result ProbeError (List Record)))
      (step : Result VideoError (Option Record) × List ℕ)
      → ((r : Record) (rest : List ℕ) → step ≡ (ok (some r), rest) → again rest ≢ none)
      → probe_round again step ≢ none
  unfolding probe_round
  probe_round_total again (err e, rest) h p = cc p
  probe_round_total again (ok none, []) h p = cc p
  probe_round_total again (ok none, b ∷ rest) h p = cc p
  probe_round_total again (ok (some r), rest) h p =
      map-ne-none (cons_record r) (again rest) (h r rest refl) p

  -- The loop ends: one round more than there are bytes is fuel enough.
  pub probe-ne-none : (fuel : ℕ) (input : List ℕ) → length input < fuel → probe fuel input ≢ none
  unfolding probe
  probe-ne-none zero input h = elim h [ ]
  probe-ne-none (suc fuel) input h =
      probe_round_total (probe fuel) (decode buf input)
        λ r rest e. probe-ne-none fuel rest (omega (arith, decode-shorter input rest r e))

  -- What was decoded stays decoded when more bytes arrive behind it.
  pub decode_more :
      (input more rest : List ℕ) (r : Record)
      → decode buf input ≡ (ok (some r), rest)
      → decode buf (input ++ more) ≡ (ok (some r), rest ++ more)
  decode_more input more rest r e =
      let (h, long, accepted, paid) = decoded buf input rest r e in
      let still : ltb (length (input ++ more)) header_len ≡ false =
        le→ltb _ _ (omega (arith, length-append input more)) in
      let same = take_payload_more h input more rest r paid in
      unfold decode finish in rw (still, take-append_le header_len input more long, accepted, same)

  finish-err :
      (outcome : Result VideoError Header) (input left : List ℕ) (e : VideoError)
      → finish outcome input ≡ (err e, left)
      → outcome ≡ err e
  unfolding finish
  finish-err (err e') input left e h = ground arith
  finish-err (ok h') input left e h = cc h

  -- A refused header stays refused, and the buffer is left alone.
  pub decode-err_more :
      (input more left : List ℕ) (e : VideoError)
      → decode buf input ≡ (err e, left)
      → decode buf (input ++ more) ≡ (err e, input ++ more)
  unfolding decode
  decode-err_more input more left e h = elim (Bool-cases (ltb (length input) header_len)) [
    | inl short ↦ absurd (let waits = rw short at h in cc waits)
    | inr long ↦
        let refused = finish-err _ input left e (rw long at h) in
        let still : ltb (length (input ++ more)) header_len ≡ false =
          le→ltb _ _ (omega (arith, ltb→le _ _ long, length-append input more)) in
        unfold finish in rw (still, take-append_le header_len input more (ltb→le _ _ long), refused)
  ]

  -- `encode` writes behind what is in the output already.
  encode-append :
      (r : Record) (output wire : List ℕ)
      → encode buf r output ≡ ok wire
      → (own : List ℕ) × (encode buf r [] ≡ ok own) × (wire ≡ output ++ own)
  unfolding encode
  encode-append r output wire h = elim (Bool-cases (ltb max_payload (length r.payload))) [
    | inl big ↦ absurd (let refused = rw big at h in cc refused)
    | inr fits ↦
        let wrote = rw fits at h in (header buf r ++ r.payload, rw fits, sym (ok-injective wrote))
  ]

  -- What `probe` does with an encoded list, whatever stands behind it.
  record Reads (rs : List Record) (own : List ℕ) : Type 0 where
    resumes :
        (tail : List ℕ) (fuel : ℕ)
        → length own + length tail < fuel
        → (left : ℕ) × (length tail < left)
          × (probe fuel (own ++ tail) ≡ prepend rs (probe left tail))

  Reads-round :
      (r : Record) (rs : List Record) (own own' tail : List ℕ) (fuel : ℕ)
      → IsTyped r
      → encode buf r [] ≡ ok own
      → Reads rs own'
      → length (own ++ own') + length tail < fuel
      → (left : ℕ) × (length tail < left)
        × (probe fuel ((own ++ own') ++ tail) ≡ prepend (r ∷ rs) (probe left tail))
  unfolding probe
  Reads-round r rs own own' tail zero t e h enough = elim enough [ ]
  Reads-round r rs own own' tail (suc fuel) t e h enough =
      let sizes = length-append own own' in
      let (fits, same) = encode-ok buf r own e in
      let own_len : length own ≡ header_len + length r.payload =
        ap length same
        ∙ length-append (header buf r) r.payload
        ∙ ap (λ n. n + length r.payload) (length-header buf r) in
      let (left, more, rest) = h.resumes tail fuel (omega arith) in
      (
        left,
        more,
        rw (append_assoc own own' tail, decode-encode buf r own (own' ++ tail) t e)
            (ap (Option.map (cons_record r)) rest),
      )

  Reads-cons :
      (r : Record) (rs : List Record) (own own' : List ℕ)
      → IsTyped r
      → encode buf r [] ≡ ok own
      → Reads rs own'
      → Reads (r ∷ rs) (own ++ own')
  Reads-cons r rs own own' t e h = record {
    resumes = λ tail fuel enough. Reads-round r rs own own' tail fuel t e h enough;
  }

  encode_all-Reads :
      (rs : List Record) (output wire : List ℕ)
      → All IsTyped rs
      → encode_all rs output ≡ ok wire
      → (own : List ℕ) × (wire ≡ output ++ own) × Reads rs own
  unfolding encode_all
  encode_all-Reads [] output wire t h = (
    [],
    rw append-nil (sym (ok-injective h)),
    record { resumes = λ tail fuel enough. (fuel, omega arith, refl) },
  )
  encode_all-Reads (r ∷ rs) output wire t h =
      let (output', first, others) = bind-ok (encode buf r output) _ h in
      let (own, alone, joined) = encode-append r output output' first in
      let (own', joined', reads) = encode_all-Reads rs output' wire t.1 others in
      (
        own ++ own',
        joined' ∙ ap (λ l. l ++ own') joined ∙ append_assoc output own own',
        Reads-cons r rs own own' t.0 alone reads,
      )

  probe-nil : (fuel : ℕ) → 0 < fuel → probe fuel [] ≡ some (ok [])
  unfolding probe decode
  probe-nil zero h = elim h [ ]
  probe-nil (suc fuel) h = refl

  probe_waiting :
      (fuel : ℕ) (got : List ℕ)
      → 0 < fuel
      → 0 < length got
      → decode buf got ≡ (ok none, got)
      → probe fuel got ≡ some (err truncated_input)
  unfolding probe
  probe_waiting zero got h more waits = elim h [ ]
  probe_waiting (suc fuel) [] h more waits = elim more [ ]
  probe_waiting (suc fuel) (b ∷ got) h more waits = rw waits

  -- The loop reads back the records that were encoded one after another, and nothing else.
  pub probe-encode_all :
      (rs : List Record) (wire : List ℕ)
      → All IsTyped rs
      → encode_all rs [] ≡ ok wire
      → probe (suc (length wire)) wire ≡ some (ok rs)
  probe-encode_all rs wire t h =
      let (own, joined, reads) = encode_all-Reads rs [] wire t h in
      let (left, more, same) =
        reads.resumes [] (suc (length wire)) (omega (arith, ap length joined)) in
      ap (probe (suc (length wire))) (joined ∙ sym (append-nil own))
      ∙ same
      ∙ ap (prepend rs) (probe-nil left more)
      ∙ prepend-ok rs

  -- If the last record is cut short, the loop reports a truncated input.
  pub probe_truncated :
      (rs : List Record) (r : Record) (wire own got missing : List ℕ)
      → All IsTyped rs
      → encode_all rs [] ≡ ok wire
      → IsTyped r
      → encode buf r [] ≡ ok own
      → got ++ missing ≡ own
      → 0 < length got
      → 0 < length missing
      → probe (suc (length (wire ++ got))) (wire ++ got) ≡ some (err truncated_input)
  probe_truncated rs r wire own got missing t h tr e split some_got some_missing =
      let (whole, joined, reads) = encode_all-Reads rs [] wire t h in
      let (left, more, same) =
        reads.resumes got (suc (length (wire ++ got)))
          (omega (arith, ap length joined, length-append wire got)) in
      let waits = decode_partial buf r own got missing tr e split some_missing in
      ap (λ l. probe (suc (length (wire ++ got))) (l ++ got)) joined
      ∙ same
      ∙ ap (prepend rs) (probe_waiting left got (omega arith) some_got waits)
      ∙ prepend-err rs truncated_input

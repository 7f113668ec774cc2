-- ===== src/Protocol/Wire/RoundTrip.antt =====
-- crates/display-stream-protocol/src/lib.rs: `decode` on what `Record::encode` wrote, whole or cut
-- short.
use machineemu.Prelude.{
  ℕ, ◌+◌, ◌%◌, ◌^◌, ◌≤◌, ◌<◌, ◌≡◌, refl, sym, ap, ◌∙◌, Bool-cases, inl, inr, List, [], ◌++◌,
  append_assoc, none, some, length, take, length-append, take-append, drop-append, false,
  take-append_eq, drop-append_eq, take-append_le, ltb, le→ltb, lt→ltb, ltb→le, arith,
}
use machineemu.Prelude.Result.{ok}
use machineemu.Protocol.{
  RecordType, config, Record, IsTyped, header_len, max_payload, to_u8, try_from,
}
use machineemu.Protocol.Buf.{ByteBuf}
use machineemu.Protocol.Wire.{Header, header, encode, read_header, take_payload, finish, decode}

-- Every record type survives its byte.
pub try_from-to_u8 : (k : RecordType) → try_from (to_u8 k) ≡ ok k
unfolding try_from to_u8
try_from-to_u8 config = refl
try_from-to_u8 k = refl

pub to_u8-lt : (k : RecordType) → to_u8 k < 256
unfolding to_u8
to_u8-lt config = omega arith
to_u8-lt k = omega arith

abbrev pub header_of : Record → Header
header_of r = record {
  kind = r.kind;
  flags = r.flags;
  payload_len = length r.payload;
  pts_us = r.pts_us;
}

pub take_payload-append :
    (head : List ℕ) (r : Record) (rest : List ℕ)
    → length head ≡ header_len
    → take_payload (header_of r) (head ++ (r.payload ++ rest)) ≡ (some r, rest)
unfolding take_payload
take_payload-append head r rest sized =
    let long : ltb (length (head ++ (r.payload ++ rest))) (header_len + length r.payload) ≡ false =
      le→ltb _ _
        (omega (arith, length-append head (r.payload ++ rest), length-append r.payload rest)) in
    rw (
      long,
      drop-append_eq header_len head (r.payload ++ rest) sized,
      take-append r.payload rest,
      drop-append r.payload rest,
    )

pub take_payload_short :
    (h : Header) (input : List ℕ)
    → length input < header_len + h.payload_len
    → take_payload h input ≡ (none, input)
unfolding take_payload
take_payload_short h input short = rw (lt→ltb _ _ short)

module _ (buf : ByteBuf) where
  open buf use {u8, u16, u32, u64}

  pub length-header : (r : Record) → length (header buf r) ≡ header_len
  unfolding header
  length-header r =
      simp (length-append, u8.length-put, u16.length-put, u32.length-put, u64.length-put)

  pub read_header-header :
      (r : Record)
      → IsTyped r
      → length r.payload ≤ max_payload
      → read_header buf (header buf r) ≡ ok (header_of r)
  unfolding header read_header
  read_header-header r t fits =
      let kept : length r.payload % 2 ^ 32 ≡ length r.payload = omega arith in
      let room : length r.payload < 256 ^ 4 = omega arith in
      rw (
        kept,
        u8.get-put (to_u8 r.kind) _ (to_u8-lt r.kind),
        u8.get-put r.flags _ t.flags_u8,
        u16.get-put 0 _ (omega arith),
        u32.get-put (length r.payload) _ room,
        u64.get-put r.pts_us [] t.pts_u64,
        try_from-to_u8,
        le→ltb max_payload (length r.payload) fits,
      )

  pub encode-ok :
      (r : Record) (wire : List ℕ)
      → encode buf r [] ≡ ok wire
      → (length r.payload ≤ max_payload) × (wire ≡ header buf r ++ r.payload)
  unfolding encode
  encode-ok r wire h = elim (Bool-cases (ltb max_payload (length r.payload))) [
    | inl big ↦ cc (h, big)
    | inr fits ↦ (ltb→le _ _ fits, let kept = rw fits at h in cc kept)
  ]

  -- With sixteen bytes in the buffer, `decode` reads the header and goes on.
  pub decode-append :
      (head body : List ℕ)
      → length head ≡ header_len
      → decode buf (head ++ body) ≡ finish (read_header buf head) (head ++ body)
  unfolding decode
  decode-append head body sized =
      let long : ltb (length (head ++ body)) header_len ≡ false =
        le→ltb _ _ (omega (arith, length-append head body)) in
      rw (long, take-append_eq header_len head body sized)

  -- A buffer that starts with an encoded record yields that record, and keeps what follows it.
  pub decode-encode :
      (r : Record) (wire rest : List ℕ)
      → IsTyped r
      → encode buf r [] ≡ ok wire
      → decode buf (wire ++ rest) ≡ (ok (some r), rest)
  unfolding encode finish
  decode-encode r wire rest t h =
      let (fits, same) = encode-ok r wire h in
      rw (
        same,
        append_assoc (header buf r) r.payload rest,
        decode-append (header buf r) (r.payload ++ rest) (length-header r),
        read_header-header r t fits,
        take_payload-append (header buf r) r rest (length-header r),
      )

  decode_partial_payload :
      (r : Record) (wire got missing : List ℕ)
      → IsTyped r
      → encode buf r [] ≡ ok wire
      → got ++ missing ≡ wire
      → 0 < length missing
      → header_len ≤ length got
      → decode buf got ≡ (ok none, got)
  unfolding decode
  decode_partial_payload r wire got missing t h split more long =
      let (fits, same) = encode-ok r wire h in
      let first : take header_len got ≡ header buf r =
        sym (take-append_le header_len got missing long)
        ∙ ap (take header_len) (split ∙ same)
        ∙ take-append_eq header_len (header buf r) r.payload (length-header r) in
      let sizes : length got + length missing ≡ header_len + length r.payload =
        sym (length-append got missing)
        ∙ ap length (split ∙ same)
        ∙ length-append (header buf r) r.payload
        ∙ ap (λ n. n + length r.payload) (length-header r) in
      rw (
        le→ltb (length got) header_len long,
        first,
        read_header-header r t fits,
        take_payload_short (header_of r) got (omega arith),
      )

  -- While bytes of an encoded record are missing, `decode` waits and keeps the buffer.
  pub decode_partial :
      (r : Record) (wire got missing : List ℕ)
      → IsTyped r
      → encode buf r [] ≡ ok wire
      → got ++ missing ≡ wire
      → 0 < length missing
      → decode buf got ≡ (ok none, got)
  decode_partial r wire got missing t h split more =
      elim (Bool-cases (ltb (length got) header_len)) [
        | inl short ↦ unfold decode in rw short
        | inr long ↦ decode_partial_payload r wire got missing t h split more (ltb→le _ _ long)
      ]

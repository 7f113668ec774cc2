-- ===== src/Protocol/Wire/Sound.antt =====
-- crates/display-stream-protocol/src/lib.rs: what `decode` accepts.
use machineemu.Prelude.{
  ℕ, ◌+◌, ◌%◌, ◌^◌, ◌≤◌, ◌<◌, ◌≡◌, refl, sym, ap, ap₂, subst, ◌∙◌, Bool-cases, inl, inr, List, [],
  ◌∷◌, ◌++◌, append_assoc, some, length, take, drop, length-take, length-drop, take-append-drop,
  All, All-take, All-drop, IsByte, ltb, le→ltb, ltb→le, arith,
}
use machineemu.Prelude.Result.{Result, ok, err, bind-ok}
use machineemu.Protocol.{
  RecordType, VideoError, Record, IsTyped, header_len, max_payload, to_u8, try_from,
}
use machineemu.Protocol.Buf.{ByteBuf, IntCodec}
use machineemu.Protocol.Wire.{
  Header, header, encode, check_header, read_header, take_payload, finish, decode,
}

pub to_u8-try_from : (v : ℕ) (k : RecordType) → try_from v ≡ ok k → to_u8 k ≡ v
unfolding try_from to_u8
to_u8-try_from v k h = ground arith

length-nil : (bs : List ℕ) → length bs ≡ 0 → bs ≡ []
length-nil [] h = refl
length-nil (b ∷ bs) h = absurd (omega arith)

rejoin :
    (head : List ℕ) {tail rest bs : List ℕ} → head ++ rest ≡ bs → tail ≡ rest → head ++ tail ≡ bs
rejoin head whole same = ap (λ l. head ++ l) same ∙ whole

module _ {w : ℕ} (c : IntCodec w) where
  -- A read inside the buffer, with what it says of the bytes read.
  read :
      (bs : List ℕ)
      → w ≤ length bs
      → All IsByte bs
      → (n : ℕ) × (c.get bs ≡ (n, drop w bs)) × (n < 256 ^ w) × (c.put n ++ drop w bs ≡ bs)
  read bs long typed =
      let sized : length (take w bs) ≡ w = omega (arith, length-take w bs) in
      let (n, got, less, same) =
        c.put-get (take w bs) (drop w bs) sized (All-take IsByte w bs typed) in
      (
        n,
        ap c.get (sym (take-append-drop w bs)) ∙ got,
        less,
        ap (λ l. l ++ drop w bs) same ∙ take-append-drop w bs,
      )

record Checked (kind flags spare len pts : ℕ) (h : Header) : Type 0 where
  same_kind : to_u8 h.kind ≡ kind
  same_flags : h.flags ≡ flags
  same_pts : h.pts_us ≡ pts
  same_len : h.payload_len ≡ len
  no_reserved : spare ≡ 0
  fits : len ≤ max_payload

check_header_sound :
    (kind flags spare len pts : ℕ) (h : Header)
    → check_header kind flags spare len pts ≡ ok h
    → Checked kind flags spare len pts h
unfolding check_header
check_header_sound kind flags spare len pts h accepted =
    let (k, known, checked) = bind-ok (try_from kind) _ accepted in
    let named = to_u8-try_from kind k known in ground (arith, named, checked)

-- The record that an accepted header and its payload make.
pub record Taken (h : Header) (input rest : List ℕ) (r : Record) : Type 0 where
  pub enough : header_len + h.payload_len ≤ length input
  pub kind : r.kind ≡ h.kind
  pub flags : r.flags ≡ h.flags
  pub pts_us : r.pts_us ≡ h.pts_us
  pub payload : r.payload ≡ take h.payload_len (drop header_len input)
  pub left : rest ≡ drop h.payload_len (drop header_len input)

pub take_payload-some :
    (h : Header) (input rest : List ℕ) (r : Record)
    → take_payload h input ≡ (some r, rest)
    → Taken h input rest r
unfolding take_payload
take_payload-some h input rest r e = ground arith

finish-some :
    (outcome : Result VideoError Header) (input rest : List ℕ) (r : Record)
    → finish outcome input ≡ (ok (some r), rest)
    → (h : Header) × (outcome ≡ ok h) × (take_payload h input ≡ (some r, rest))
unfolding finish
finish-some (err e) input rest r h = cc h
finish-some (ok h) input rest r e = (h, refl, ground arith)

split_input :
    (k : ℕ) (input rest payload : List ℕ) (n : ℕ)
    → payload ≡ take n (drop k input)
    → rest ≡ drop n (drop k input)
    → input ≡ (take k input ++ payload) ++ rest
split_input k input rest payload n p l =
    sym (take-append-drop k input)
    ∙ ap (λ b. take k input ++ b)
        (sym (take-append-drop n (drop k input)) ∙ ap₂ ◌++◌ (sym p) (sym l))
    ∙ sym (append_assoc (take k input) payload rest)

module _ (buf : ByteBuf) where
  open buf use {u8, u16, u32, u64}

  -- The sixteen bytes as five numbers.
  record Fields (bs : List ℕ) : Type 0 where
    kind : ℕ
    flags : ℕ
    spare : ℕ
    len : ℕ
    pts : ℕ
    flags_lt : flags < 256
    pts_lt : pts < 256 ^ 8
    checks : read_header buf bs ≡ check_header kind flags spare len pts
    bytes :
        u8.put kind ++ (u8.put flags ++ (u16.put spare ++ (u32.put len ++ (u64.put pts ++ []))))
        ≡ bs

  fields : (bs : List ℕ) → length bs ≡ header_len → All IsByte bs → Fields bs
  unfolding read_header
  fields bs sized typed =
      let (kind, got_kind, kind_lt, kind_bytes) = read u8 bs (omega arith) typed in
      let b1 = drop 1 bs in
      let n1 : length b1 ≡ 15 = omega (arith, length-drop 1 bs) in
      let t1 = All-drop IsByte 1 bs typed in
      let (flags, got_flags, flags_lt, flags_bytes) = read u8 b1 (omega arith) t1 in
      let b2 = drop 1 b1 in
      let n2 : length b2 ≡ 14 = omega (arith, length-drop 1 b1) in
      let t2 = All-drop IsByte 1 b1 t1 in
      let (spare, got_spare, spare_lt, spare_bytes) = read u16 b2 (omega arith) t2 in
      let b3 = drop 2 b2 in
      let n3 : length b3 ≡ 12 = omega (arith, length-drop 2 b2) in
      let t3 = All-drop IsByte 2 b2 t2 in
      let (len, got_len, len_lt, len_bytes) = read u32 b3 (omega arith) t3 in
      let b4 = drop 4 b3 in
      let n4 : length b4 ≡ 8 = omega (arith, length-drop 4 b3) in
      let t4 = All-drop IsByte 4 b3 t3 in
      let (pts, got_pts, pts_lt, pts_bytes) = read u64 b4 (omega arith) t4 in
      let done : drop 8 b4 ≡ [] = length-nil _ (omega (arith, length-drop 8 b4)) in
      record {
        kind = kind;
        flags = flags;
        spare = spare;
        len = len;
        pts = pts;
        flags_lt = flags_lt;
        pts_lt = pts_lt;
        checks = rw (got_kind, got_flags, got_spare, got_len, got_pts);
        bytes = rejoin (u8.put kind) kind_bytes (
            rejoin (u8.put flags) flags_bytes (
              rejoin (u16.put spare) spare_bytes
                (rejoin (u32.put len) len_bytes (rejoin (u64.put pts) pts_bytes (sym done)))));
      }

  -- A decoded record came from an accepted header and enough bytes.
  pub decoded :
      (input rest : List ℕ) (r : Record)
      → decode buf input ≡ (ok (some r), rest)
      → (h : Header) × (header_len ≤ length input)
        × (read_header buf (take header_len input) ≡ ok h)
        × (take_payload h input ≡ (some r, rest))
  unfolding decode
  decoded input rest r e = elim (Bool-cases (ltb (length input) header_len)) [
    | inl short ↦ absurd (let waits = rw short at e in cc waits)
    | inr long ↦
        let (h, ok_h, paid) =
          finish-some (read_header buf (take header_len input)) input rest r (rw long at e) in
        (h, ltb→le _ _ long, ok_h, paid)
  ]

  encode-fits :
      (r : Record)
      → length r.payload ≤ max_payload
      → encode buf r [] ≡ ok (header buf r ++ r.payload)
  unfolding encode
  encode-fits r fits = rw (le→ltb _ _ fits)

  header-Fields :
      (head : List ℕ) (f : Fields head) (h : Header) (r : Record)
      → Checked f.kind f.flags f.spare f.len f.pts h
      → r.kind ≡ h.kind
      → r.flags ≡ h.flags
      → r.pts_us ≡ h.pts_us
      → length r.payload ≡ h.payload_len
      → header buf r ≡ head
  unfolding header
  header-Fields head f h r c k fl p n =
      let kept : length r.payload % 2 ^ 32 ≡ f.len = omega (arith, c.fits, c.same_len) in
      let kind : to_u8 r.kind ≡ f.kind = ap to_u8 k ∙ c.same_kind in
      rw (kind, fl, c.same_flags, kept, p, c.same_pts, ← c.no_reserved) f.bytes

  -- What `decode` returns of bytes is a typed record, whose encoding is what it took from the buffer.
  pub decode_sound :
      (input rest : List ℕ) (r : Record)
      → All IsByte input
      → decode buf input ≡ (ok (some r), rest)
      → (wire : List ℕ) × IsTyped r × (encode buf r [] ≡ ok wire) × (input ≡ wire ++ rest)
  decode_sound input rest r typed e =
      let (h, long, accepted, paid) = decoded input rest r e in
      let head = take header_len input in
      let sized : length head ≡ header_len = omega (arith, length-take header_len input) in
      let f = fields head sized (All-take IsByte header_len input typed) in
      let c = check_header_sound f.kind f.flags f.spare f.len f.pts h (sym f.checks ∙ accepted) in
      let m = take_payload-some h input rest r paid in
      let body = drop header_len input in
      let same_len : length r.payload ≡ h.payload_len = omega (
        arith,
        m.enough,
        ap length m.payload,
        length-take h.payload_len body,
        length-drop header_len input,
      ) in
      let fits : length r.payload ≤ max_payload = omega (arith, c.fits, c.same_len) in
      let same_head : header buf r ≡ head =
        header-Fields head f h r c m.kind m.flags m.pts_us same_len in
      (
        header buf r ++ r.payload,
        record {
          flags_u8 = omega (arith, m.flags, c.same_flags, f.flags_lt);
          pts_u64 = omega (arith, m.pts_us, c.same_pts, f.pts_lt);
          payload_u8 =
              subst (All IsByte) (sym m.payload)
                (All-take IsByte h.payload_len body (All-drop IsByte header_len input typed));
        },
        encode-fits r fits,
        split_input header_len input rest r.payload h.payload_len m.payload m.left
            ∙ ap (λ l. (l ++ r.payload) ++ rest) (sym same_head),
      )

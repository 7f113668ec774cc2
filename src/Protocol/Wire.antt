-- ===== src/Protocol/Wire.antt =====
-- `Record::encode` and `decode`, over the integers of the `bytes` crate.
pub mod RoundTrip
pub mod Sound
pub mod Stream
use machineemu.Prelude.{
  ℕ, ◌+◌, ◌*◌, ◌%◌, ◌^◌, List, [], ◌++◌, Option, none, some, length, take, drop, ltb, ◌==◌, not,
  if◌then◌else◌,
}
use machineemu.Prelude.Result.{Result, ok, err, ◌>>=◌, ◌>>◌, ensure}
use machineemu.Protocol.{
  RecordType, VideoError, payload_too_large, reserved, Record, header_len, max_payload, to_u8,
  try_from,
}
use machineemu.Protocol.Buf.{ByteBuf, IntCodec}

-- What `decode` reads from the sixteen bytes.
pub record Header : Type 0 where
  pub kind : RecordType
  pub flags : ℕ
  pub payload_len : ℕ
  pub pts_us : ℕ

-- The checks of `decode`, in their order.
unfoldable pub check_header : ℕ → ℕ → ℕ → ℕ → ℕ → Result VideoError Header
unfolding try_from
check_header kind_byte flags spare len pts = do
  kind ← try_from kind_byte
  ensure (spare == 0) reserved
  ensure (not (ltb max_payload len)) payload_too_large
  ok (record { kind = kind; flags = flags; payload_len = len; pts_us = pts })

-- The payload is there or it is waited for.
unfoldable pub take_payload : Header → List ℕ → Option Record × List ℕ
take_payload h input =
    if ltb (length input) (header_len + h.payload_len)
    then (none, input)
    else let body = drop header_len input in
      (
        some (record {
          kind = h.kind;
          flags = h.flags;
          pts_us = h.pts_us;
          payload = take h.payload_len body;
        }),
        drop h.payload_len body,
      )

-- What follows the sixteen bytes: an error leaves the buffer alone.
unfoldable pub finish :
    Result VideoError Header → List ℕ → Result VideoError (Option Record) × List ℕ
finish (err e) input = (err e, input)
finish (ok h) input = let (found, rest) = take_payload h input in (ok found, rest)

module _ (buf : ByteBuf) where
  open buf use {u8, u16, u32, u64}

  -- The sixteen bytes before the payload. `payload.len() as u32` keeps the low 32 bits.
  unfoldable pub header : Record → List ℕ
  unfolding to_u8
  header r =
      u8.put (to_u8 r.kind)
      ++ (u8.put r.flags
          ++ (u16.put 0 ++ (u32.put (length r.payload % 2 ^ 32) ++ (u64.put r.pts_us ++ []))))

  -- The new contents of `output`, which an error leaves alone.
  unfoldable pub encode : Record → List ℕ → Result VideoError (List ℕ)
  unfolding header
  encode r output =
      if ltb max_payload (length r.payload)
      then err payload_too_large
      else ok (output ++ (header r ++ r.payload))

  -- The reads of `decode`, in their order.
  unfoldable pub read_header : List ℕ → Result VideoError Header
  unfolding check_header
  read_header bytes =
      let (kind_byte, after_kind) = u8.get bytes in
      let (flags, after_flags) = u8.get after_kind in
      let (spare, after_spare) = u16.get after_flags in
      let (len, after_len) = u32.get after_spare in
      let (pts, after_pts) = u64.get after_len in check_header kind_byte flags spare len pts

  -- The outcome, and the buffer that is left.
  unfoldable pub decode : List ℕ → Result VideoError (Option Record) × List ℕ
  unfolding finish
  decode input =
      if ltb (length input) header_len
      then (ok none, input)
      else finish (read_header (take header_len input)) input

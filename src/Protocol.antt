-- ===== src/Protocol.antt =====
-- The wire contract of the display stream, crates/display-stream-protocol/src/lib.rs: the record
-- types, the records and the errors of the framing. The child modules hold the `bytes` crate's
-- integer readers and writers as an interface (Buf) and the framing itself (Wire).
pub mod Buf
pub mod Wire
mod Examples
use machineemu.Prelude.{ℕ, ◌*◌, ◌^◌, ◌<◌, List, ◌==◌, if◌then◌else◌, All, IsByte}
use machineemu.Prelude.Result.{Result, ok, err}

abbrev pub header_len : ℕ
header_len = 16

abbrev pub max_payload : ℕ
max_payload = 16 * 1024 * 1024

pub data RecordType : Type 0 where
  config keyframe delta resize control audio_config audio_data : RecordType

pub data VideoError : Type 0 where
  unknown_type : ℕ → VideoError
  payload_too_large reserved truncated : VideoError

-- `kind as u8`.
unfoldable pub to_u8 : RecordType → ℕ
to_u8 config = 0
to_u8 keyframe = 1
to_u8 delta = 2
to_u8 resize = 3
to_u8 control = 4
to_u8 audio_config = 5
to_u8 audio_data = 6

-- `RecordType::try_from`.
unfoldable pub try_from : ℕ → Result VideoError RecordType
try_from value =
    if value == 0
    then ok config
    else if value == 1
    then ok keyframe
    else if value == 2
    then ok delta
    else if value == 3
    then ok resize
    else if value == 4
    then ok control
    else if value == 5
    then ok audio_config
    else if value == 6
    then ok audio_data
    else err (unknown_type value)

pub record Record : Type 0 where
  pub kind : RecordType
  pub flags : ℕ
  pub pts_us : ℕ
  pub payload : List ℕ

-- What the types `u8`, `u64` and `Bytes` of the fields give.
pub record IsTyped (r : Record) : Type 0 where
  pub flags_u8 : r.flags < 256
  pub pts_u64 : r.pts_us < 256 ^ 8
  pub payload_u8 : All IsByte r.payload

-- ===== src/Protocol/Examples.antt =====
-- Tests of the framing, and its theorems at concrete records, in the byte order of the network.
use machineemu.Prelude.{ℕ, ◌≡◌, refl, List, [], ◌∷◌, ◌++◌, some, none, arith}
use machineemu.Prelude.Result.{ok, err}
use machineemu.Protocol.{Record, IsTyped, keyframe, delta, unknown_type, reserved}
use machineemu.Protocol.Buf.{big_endian}
use machineemu.Protocol.Wire.{encode, read_header, take_payload, decode}
use machineemu.Protocol.Wire.RoundTrip.{decode-encode, decode_partial}
use machineemu.Protocol.Wire.Sound.{decode_sound}
use machineemu.Protocol.Wire.Stream.{
  encode_all, probe, truncated_input, probe-ne-none, decode_more, decode-err_more, probe-encode_all,
  probe_truncated,
}

abbrev frame_record : Record
frame_record = record { kind = keyframe; flags = 1; pts_us = 42; payload = 9 ∷ 255 ∷ [] }

abbrev small_record : Record
small_record = record { kind = delta; flags = 0; pts_us = 256; payload = 7 ∷ [] }

abbrev frame_wire : List ℕ
frame_wire = 1 ∷ 1 ∷ 0 ∷ 0 ∷ 0 ∷ 0 ∷ 0 ∷ 2 ∷ 0 ∷ 0 ∷ 0 ∷ 0 ∷ 0 ∷ 0 ∷ 0 ∷ 42 ∷ 9 ∷ 255 ∷ []

abbrev small_wire : List ℕ
small_wire = 2 ∷ 0 ∷ 0 ∷ 0 ∷ 0 ∷ 0 ∷ 0 ∷ 1 ∷ 0 ∷ 0 ∷ 0 ∷ 0 ∷ 0 ∷ 0 ∷ 1 ∷ 0 ∷ 7 ∷ []

frame_encoded : encode big_endian frame_record [] ≡ ok frame_wire
unfolding encode big_endian
frame_encoded = refl

small_encoded : encode big_endian small_record [] ≡ ok small_wire
unfolding encode big_endian
small_encoded = refl

both_encoded :
    encode_all big_endian (frame_record ∷ small_record ∷ []) [] ≡ ok (frame_wire ++ small_wire)
unfolding encode_all encode big_endian
both_encoded = refl

small_alone : encode_all big_endian (small_record ∷ []) [] ≡ ok small_wire
unfolding encode_all encode big_endian
small_alone = refl

frame_decoded : decode big_endian (frame_wire ++ 3 ∷ []) ≡ (ok (some frame_record), 3 ∷ [])
unfolding decode read_header take_payload big_endian
frame_decoded = refl

-- A byte in the reserved field, and an unknown type.
reserved_refused :
    (decode big_endian (1 ∷ 0 ∷ 0 ∷ 1 ∷ 0 ∷ 0 ∷ 0 ∷ 0 ∷ 0 ∷ 0 ∷ 0 ∷ 0 ∷ 0 ∷ 0 ∷ 0 ∷ 0 ∷ [])).0
    ≡ err reserved
unfolding decode read_header take_payload big_endian
reserved_refused = refl

abbrev unknown_wire : List ℕ
unknown_wire = 9 ∷ 0 ∷ 0 ∷ 1 ∷ 0 ∷ 0 ∷ 0 ∷ 0 ∷ 0 ∷ 0 ∷ 0 ∷ 0 ∷ 0 ∷ 0 ∷ 0 ∷ 0 ∷ []

unknown_refused : decode big_endian unknown_wire ≡ (err (unknown_type 9), unknown_wire)
unfolding decode read_header take_payload big_endian
unknown_refused = refl

frame_record-IsTyped : IsTyped frame_record
frame_record-IsTyped = omega arith

small_record-IsTyped : IsTyped small_record
small_record-IsTyped = omega arith

decode-encode_example : decode big_endian (frame_wire ++ 3 ∷ []) ≡ (ok (some frame_record), 3 ∷ [])
decode-encode_example =
    decode-encode big_endian frame_record frame_wire (3 ∷ []) frame_record-IsTyped frame_encoded

abbrev frame_start : List ℕ
frame_start = 1 ∷ 1 ∷ 0 ∷ 0 ∷ 0 ∷ 0 ∷ 0 ∷ 2 ∷ 0 ∷ 0 ∷ 0 ∷ 0 ∷ 0 ∷ 0 ∷ 0 ∷ 42 ∷ 9 ∷ []

decode_partial_example : decode big_endian frame_start ≡ (ok none, frame_start)
decode_partial_example =
    decode_partial big_endian frame_record frame_wire frame_start (255 ∷ []) frame_record-IsTyped
      frame_encoded refl (omega arith)

decode_sound_example :
    (wire : List ℕ) × IsTyped frame_record
    × (encode big_endian frame_record [] ≡ ok wire)
    × (frame_wire ++ 3 ∷ [] ≡ wire ++ 3 ∷ [])
decode_sound_example =
    decode_sound big_endian (frame_wire ++ 3 ∷ []) (3 ∷ []) frame_record (omega arith) frame_decoded

decode_more_example :
    decode big_endian ((frame_wire ++ 3 ∷ []) ++ 4 ∷ []) ≡ (ok (some frame_record), 3 ∷ 4 ∷ [])
decode_more_example =
    decode_more big_endian (frame_wire ++ 3 ∷ []) (4 ∷ []) (3 ∷ []) frame_record frame_decoded

decode-err_more_example :
    decode big_endian (unknown_wire ++ 4 ∷ []) ≡ (err (unknown_type 9), unknown_wire ++ 4 ∷ [])
decode-err_more_example =
    decode-err_more big_endian unknown_wire (4 ∷ []) unknown_wire (unknown_type 9) unknown_refused

probe-ne-none_example : ¬ (probe big_endian 19 frame_wire ≡ none)
probe-ne-none_example = probe-ne-none big_endian 19 frame_wire (omega arith)

probe-encode_all_example :
    probe big_endian 36 (frame_wire ++ small_wire) ≡ some (ok (frame_record ∷ small_record ∷ []))
probe-encode_all_example =
    probe-encode_all big_endian (frame_record ∷ small_record ∷ []) (frame_wire ++ small_wire)
      (frame_record-IsTyped, (small_record-IsTyped, tt)) both_encoded

probe_truncated_example :
    probe big_endian 35 (small_wire ++ frame_start) ≡ some (err truncated_input)
probe_truncated_example =
    probe_truncated big_endian (small_record ∷ []) frame_record small_wire frame_wire frame_start
      (255 ∷ []) (small_record-IsTyped, tt) small_alone frame_record-IsTyped frame_encoded refl
      (omega arith) (omega arith)

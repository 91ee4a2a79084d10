-- ===== src/Vpx/Examples.antt =====
-- Runs of content/vpx.py, and its theorems at concrete inputs.
use pure_webrtc_transport.Base.{
  ◌+◌, ◌*◌, ◌/◌, ◌%◌, ◌^◌, ◌≡◌, refl, true, not, ◌&&◌, some, none, [], ◌∷◌, ◌++◌, ◌==◌, arith,
}
use pure_webrtc_transport.Base.Bits.{bit}
use pure_webrtc_transport.Base.Result.{ok}
use pure_webrtc_transport.Struct.{Bytes}
use pure_webrtc_transport.Vpx.{
  Vp8PayloadDescriptor, parse_vp8, parse_vp9, read_vp9_picture_id, byte_at,
}
use pure_webrtc_transport.Vpx.RoundTrip.{
  IsDescriptor, write_vp8, parse_vp8-write_vp8, parse_vp9_lem,
}

-- With no picture id the layer indices stand in the second byte, 0x20; they are read from the third.
vp9_without_picture_id :
    parse_vp9 (0x28 ∷ 0x20 ∷ 0xe0 ∷ [])
    ≡ ok (record { picture_id = none; tid = some 7; sid = some 0; keyframe = true })
unfolding parse_vp9 read_vp9_picture_id byte_at
vp9_without_picture_id = refl

abbrev descriptor : Vp8PayloadDescriptor
descriptor = record {
  partition_start = 1;
  partition_id = 3;
  picture_id = some 4711;
  tl0picidx = none;
  tid = some (2, 1);
  keyidx = some 17;
}

fits : IsDescriptor descriptor
fits = record {
  start = omega arith;
  partition = omega arith;
  picture = omega arith;
  tl0 = tt;
  tid = (omega arith, omega arith);
  key = omega arith;
}

abbrev payload : Bytes
payload = 1 ∷ 2 ∷ []

parse_vp8-write_vp8_example : parse_vp8 (write_vp8 descriptor ++ payload) ≡ ok (descriptor, payload)
parse_vp8-write_vp8_example = parse_vp8-write_vp8 descriptor payload fits

parse_vp9_lem_example :
    parse_vp9
      (0xa8 ∷ (128 + 4711 / 2 ^ 8) ∷ (4711 % 2 ^ 8) ∷ (1 * 2 ^ 5 + 1 * 2 ^ 4 + 0 * 2 + 0) ∷ [])
    ≡ ok (record {
      picture_id = some 4711;
      tid = some 1;
      sid = some 0;
      keyframe = not (bit 0xa8 6 == 1) && (bit 0xa8 3 == 1 && 0 == 0);
    })
parse_vp9_lem_example =
    parse_vp9_lem 0xa8 4711 1 1 0 0 [] refl refl (omega arith) (omega arith) (omega arith)
      (omega arith) (omega arith)

-- ===== src/Rtp/Examples.antt =====
-- Theorems about RTP packets and their header extensions at concrete inputs.
use pure_webrtc_transport.Base.{
  ℕ, ◌+◌, ◌*◌, ◌%◌, ◌^◌, ◌≤◌, ◌<◌, ◌≡◌, ◌≢◌, refl, some, List, [], ◌∷◌, length, length-replicate,
  replicate, arith,
}
use pure_webrtc_transport.Base.Int.{pos}
use pure_webrtc_transport.Base.Result.{ok, raise, stuck, struct_error}
use pure_webrtc_transport.Struct.{Bytes}
use pure_webrtc_transport.Rtp.Extensions.{
  Extension, pack_header_extensions, unpack_header_extensions,
}
use pure_webrtc_transport.Rtp.Extensions.Total.{unpack_header_extensions-ne-stuck}
use pure_webrtc_transport.Rtp.Extensions.RoundTrip.{unpack-pack_header_extensions}
use pure_webrtc_transport.Rtp.ExtensionsMap.{
  HeaderExtensions, ExtensionIds, no_extensions, no_ids, get, set,
}
use pure_webrtc_transport.Rtp.ExtensionsMap.Entries.{IsConfigured, IsWritable, visible}
use pure_webrtc_transport.Rtp.ExtensionsMap.RoundTrip.{get-set}
use pure_webrtc_transport.Rtp.ExtensionsMap.Offset.{get-set_transmission_offset}
use pure_webrtc_transport.Rtp.Packet.{RtpPacket, new_packet, parse, serialize, wrap_rtx, unwrap_rtx}
use pure_webrtc_transport.Rtp.Packet.RoundTrip.{IsSendable, parse-serialize}
use pure_webrtc_transport.Rtp.Packet.Rtx.{unwrap_rtx-wrap_rtx}

abbrev two : List Extension
two = (1, 48 ∷ []) ∷ (20, []) ∷ []

unpack_header_extensions-ne-stuck_example : unpack_header_extensions 0xbede (16 ∷ []) ≢ stuck
unpack_header_extensions-ne-stuck_example = unpack_header_extensions-ne-stuck 0xbede (16 ∷ [])

unpack-pack_header_extensions_example :
    (profile : ℕ) × (value : Bytes) × (pack_header_extensions two ≡ ok (profile, value))
    × (length value % 4 ≡ 0)
    × (length value ≤ 257 * length two + 3)
    × (profile < 2 ^ 16)
    × (unpack_header_extensions profile value ≡ ok two)
unpack-pack_header_extensions_example =
    unpack-pack_header_extensions two
      ((omega arith, omega arith, omega arith), ((omega arith, omega arith, omega arith), tt))

abbrev ids : ExtensionIds
ids = record no_ids { mid = some 1; abs_send_time = some 2; transmission_offset = some 3 }

configured : IsConfigured ids
configured = record {
  mid = omega arith;
  repaired = tt;
  stream = tt;
  send_time = omega arith;
  offset = omega arith;
  level = tt;
  sequence = tt;
  repaired_differs = tt;
  stream_differs = (tt, tt);
  send_time_differs = (λ e. omega (arith, e), tt, tt);
  offset_differs = (λ e. omega (arith, e), tt, tt, λ e. omega (arith, e));
  level_differs = (tt, tt, tt, tt, tt);
  sequence_differs = (tt, tt, tt, tt, tt, tt);
}

abbrev values : HeaderExtensions
values = record no_extensions { mid = some (48 ∷ []); abs_send_time = some 0x123456 }

values-IsWritable : IsWritable values
values-IsWritable = record {
  mid = (((omega arith, refl), tt), omega arith);
  repaired = tt;
  stream = tt;
  send_time = omega arith;
  level = tt;
  sequence = tt;
}

get-set_example :
    (profile : ℕ) × (bytes : Bytes) × (set ids values ≡ ok (profile, bytes))
    × (length bytes % 4 ≡ 0)
    × (length bytes < 2 ^ 18)
    × (profile < 2 ^ 16)
    × (get ids profile bytes ≡ ok (visible ids values))
get-set_example = get-set ids values configured values-IsWritable refl

abbrev offset_values : HeaderExtensions
offset_values = record values { transmission_offset = some (pos 7) }

offset-IsWritable : IsWritable offset_values
offset-IsWritable = record {
  mid = (((omega arith, refl), tt), omega arith);
  repaired = tt;
  stream = tt;
  send_time = omega arith;
  level = tt;
  sequence = tt;
}

get-set_transmission_offset_example :
    (profile : ℕ) × (bytes : Bytes) × (set ids offset_values ≡ ok (profile, bytes))
    × (get ids profile bytes ≡ raise struct_error)
get-set_transmission_offset_example =
    get-set_transmission_offset ids offset_values 3 (pos 7) configured offset-IsWritable refl refl
      (λ e. omega (arith, e)) (omega arith) (omega arith)

abbrev packet : RtpPacket
packet = record (new_packet 96 1 0xffff 3000 1234 (1 ∷ 2 ∷ 3 ∷ [])) {
  csrc = 7 ∷ [];
  extensions = values;
  padding_size = 4;
}

sendable : IsSendable packet
sendable = record {
  version = refl;
  marker = omega arith;
  payload_type = omega arith;
  sequence_number = omega arith;
  timestamp = omega arith;
  ssrc = omega arith;
  few = omega arith;
  csrc = (omega arith, tt);
  padding_size = omega arith;
  extensions = values-IsWritable;
  no_offset = refl;
}

abbrev zeros : ℕ → Bytes
zeros n = replicate n 0

parse-serialize_example :
    (bytes : Bytes) × (serialize ids zeros packet
      ≡ ok (bytes, record packet { total_size = length bytes }))
    × (parse ids bytes
        ≡ ok (record packet {
          version = 2;
          extensions = visible ids packet.extensions;
          capture_ms = 0;
          send_ms = 0;
          total_size = 0;
        }))
parse-serialize_example =
    parse-serialize ids zeros packet configured (λ n. length-replicate n 0) sendable

unwrap_rtx-wrap_rtx_example :
    (rtx : RtpPacket) × (wrap_rtx packet 97 5 4321 ≡ ok rtx)
    × (rtx.payload_type ≡ 97)
    × (rtx.sequence_number ≡ 5)
    × (rtx.ssrc ≡ 4321)
    × (unwrap_rtx rtx 96 1234
        ≡ ok
            (record (new_packet 96 packet.marker packet.sequence_number packet.timestamp 1234
              packet.payload) { csrc = packet.csrc; extensions = packet.extensions }))
unwrap_rtx-wrap_rtx_example = unwrap_rtx-wrap_rtx packet 97 5 4321 96 1234 (omega arith)

-- ===== src/Rtcp/Examples.antt =====
-- Runs of the RTCP code, and its theorems at concrete inputs.
use pure_webrtc_transport.Base.{
  ℕ, ◌+◌, ◌-◌, ◌*◌, ◌%◌, ◌^◌, ◌≤◌, ◌≡◌, ◌≢◌, refl, true, some, none, List, [], ◌∷◌, length, map,
  All, arith,
}
use pure_webrtc_transport.Base.Int.{pos, negsuc, ◌+ℤ◌}
use pure_webrtc_transport.Base.Result.{ok, raise, stuck, struct_error, value_error}
use pure_webrtc_transport.Struct.{Bytes, read_longs, read_l, read_h}
use pure_webrtc_transport.Rtcp.Types.{
  RtcpPacket, RtcpSourceInfo, TwccPacketResult, bye, rr, rtpfb, sdes,
}
use pure_webrtc_transport.Rtcp.Report.RoundTrip.{IsReport}
use pure_webrtc_transport.Rtcp.Sdes.{write_sdes, read_chunks}
use pure_webrtc_transport.Rtcp.Sdes.RoundTrip.{IsSource, chunks_size, items_size, sdes_lem}
use pure_webrtc_transport.Rtcp.Nack.{write_lost, write_lost_loop, write_entry, read_lost}
use pure_webrtc_transport.Rtcp.Nack.RoundTrip.{read-write_lost, IsAscending, Ascending}
use pure_webrtc_transport.Rtcp.Remb.{pack_remb_fci, unpack_remb_fci}
use pure_webrtc_transport.Rtcp.Remb.RoundTrip.{unpack-pack_remb_fci}
use pure_webrtc_transport.Rtcp.Twcc.{parse_twcc}
use pure_webrtc_transport.Rtcp.Twcc.Sound.{Consecutive, parse_twcc-Consecutive}
use pure_webrtc_transport.Rtcp.Compound.{join_bytes, parse}
use pure_webrtc_transport.Rtcp.Compound.Total.{parse-ne-stuck}
use pure_webrtc_transport.Rtcp.Compound.RoundTrip.{IsPacket, parse-join_bytes}

-- Lost packets on both sides of the wrap: the shift by a negative number raises ValueError.
lost_across_wrap : write_lost (0xffff ∷ 0 ∷ []) ≡ raise value_error
unfolding write_lost write_lost_loop write_entry
lost_across_wrap = refl

-- A mask that reaches past 65535 names packet numbers that do not exist.
mask_past_wrap : read_lost (0xff ∷ 0xff ∷ 0 ∷ 1 ∷ []) ≡ ok (0xffff ∷ 0x10000 ∷ [])
unfolding read_lost
mask_past_wrap = refl

-- "REMB" with a count of 2 and one SSRC: struct.error, which is no ValueError.
short_remb :
    unpack_remb_fci (82 ∷ 69 ∷ 77 ∷ 66 ∷ 2 ∷ 0 ∷ 0 ∷ 1 ∷ 0 ∷ 0 ∷ 0 ∷ 9 ∷ []) ≡ raise struct_error
unfolding unpack_remb_fci read_longs read_l
short_remb = refl

abbrev chunks : List RtcpSourceInfo
chunks = record { ssrc = 1234; items = (1, 97 ∷ 98 ∷ []) ∷ [] } ∷ []

source : IsSource (record { ssrc = 1234; items = (1, 97 ∷ 98 ∷ []) ∷ [] })
source = record { ssrc = omega arith; items = ((omega arith, omega arith, omega arith), tt) }

sdes_lem_example :
    (bytes : Bytes) × (write_sdes chunks ≡ ok bytes)
    × (length bytes % 4 ≡ 0)
    × (length bytes ≤ chunks_size chunks + 3)
    × (read_chunks (length chunks) bytes ≡ ok chunks)
sdes_lem_example = sdes_lem chunks (source, tt)

abbrev lost : List ℕ
lost = 5 ∷ 6 ∷ 21 ∷ 22 ∷ 900 ∷ []

ascending : IsAscending lost
unfolding IsAscending Ascending
ascending = (omega arith, (omega arith, (omega arith, (omega arith, tt))))

read-write_lost_example :
    (bytes : Bytes) × (write_lost lost ≡ ok bytes)
    × (length bytes % 4 ≡ 0)
    × (length bytes ≤ 4 * length lost)
    × (read_lost bytes ≡ ok lost)
read-write_lost_example =
    read-write_lost lost
      (omega arith, (omega arith, (omega arith, (omega arith, (omega arith, tt))))) ascending

unpack-pack_remb_fci_example :
    (bytes : Bytes) × (estimate : ℕ) × (pack_remb_fci 2500001 (9 ∷ []) ≡ ok bytes)
    × (unpack_remb_fci bytes ≡ ok (estimate, 9 ∷ []))
    × (estimate ≤ 2500001)
    × ((2500001 - estimate) * 2 ^ 17 ≤ 2500001)
unpack-pack_remb_fci_example =
    unpack-pack_remb_fci 2500001 (9 ∷ []) (omega arith) (omega arith) (omega arith, tt)

parse-ne-stuck_example : parse (0x81 ∷ 203 ∷ 0 ∷ 1 ∷ []) ≢ stuck
parse-ne-stuck_example = parse-ne-stuck (0x81 ∷ 203 ∷ 0 ∷ 1 ∷ [])

abbrev packets : List RtcpPacket
packets =
    rr 1 (
      record {
        ssrc = 2;
        fraction_lost = 3;
        packets_lost = negsuc 0;
        highest_sequence = 70000;
        jitter = 5;
        lsr = 6;
        dlsr = 7;
      }
      ∷ [])
    ∷ sdes chunks
    ∷ rtpfb 1 1 2 (7 ∷ 9 ∷ []) []
    ∷ bye (1 ∷ [])
    ∷ []

report : IsReport (record {
  ssrc = 2;
  fraction_lost = 3;
  packets_lost = negsuc 0;
  highest_sequence = 70000;
  jitter = 5;
  lsr = 6;
  dlsr = 7;
})
report = record {
  ssrc = omega arith;
  fraction_lost = omega arith;
  lost_min = omega arith;
  lost_max = omega arith;
  highest_sequence = omega arith;
  jitter = omega arith;
  lsr = omega arith;
  dlsr = omega arith;
}

valid : All IsPacket packets
unfolding IsPacket IsAscending Ascending chunks_size items_size
valid = (
  (omega arith, omega arith, (report, tt)),
  (
    (omega arith, (source, tt), omega arith),
    (
      (
        refl,
        refl,
        omega arith,
        omega arith,
        omega arith,
        (omega arith, (omega arith, tt)),
        (omega arith, tt),
      ),
      ((omega arith, (omega arith, tt)), tt),
    ),
  ),
)

parse-join_bytes_example :
    (bytes : Bytes) × (join_bytes packets ≡ ok bytes) × (parse bytes ≡ ok (map some packets))
parse-join_bytes_example = parse-join_bytes packets valid

-- Two packets from number 16 on, with small deltas of 1 ms and 2 ms after 64 ms.
abbrev feedback : Bytes
feedback = 0 ∷ 2 ∷ 0 ∷ 0 ∷ 1 ∷ 0 ∷ 0x20 ∷ 2 ∷ 4 ∷ 8 ∷ []

abbrev arrivals : List TwccPacketResult
arrivals =
    record { t_seq = 16; receive_ms = pos 65; received = true; payload_size = none; send_ms = none }
    ∷ record {
      t_seq = 17;
      receive_ms = pos 67;
      received = true;
      payload_size = none;
      send_ms = none;
    }
    ∷ []

feedback_read : parse_twcc (0 ∷ 16 ∷ feedback) ≡ ok arrivals
unfolding parse_twcc read_h ◌+ℤ◌
feedback_read = refl

parse_twcc-Consecutive_example : Consecutive (0 * 2 ^ 8 + 16) arrivals
parse_twcc-Consecutive_example = parse_twcc-Consecutive 0 16 feedback arrivals feedback_read

-- ===== src/Rtcp/Compound/Classes.antt =====
-- transport/rtp.py: each class of RTCP packet is read back from its bytes, whatever follows them.
use Prim.Native.Nat.{bit_or}
use pure_webrtc_transport.Base.{
  ℕ, suc, ◌+◌, ◌*◌, ◌/◌, ◌%◌, ◌^◌, ◌<◌, ◌≡◌, refl, true, false, Option, some, List, [], ◌∷◌, ◌++◌,
  length, length-append, take-append, drop-append, append-nil, All, arith, leb, ◌==◌, le→leb,
  ==_iff,
}
use pure_webrtc_transport.Base.Bits.{bit, low_bits, shr, bit_or-high_low}
use pure_webrtc_transport.Base.Result.{Result, ok}
use pure_webrtc_transport.Struct.{Bytes, be16, be32}
use pure_webrtc_transport.Struct.Laws.{
  pack_b_lem, pack_h_lem, pack_l_lem, read_l-be32, length-be32, read-pack_longs,
}
use pure_webrtc_transport.Rtcp.Types.{
  RtcpPacket, RtcpReceiverInfo, RtcpSenderInfo, RtcpSourceInfo, bye, psfb, rr, rtpfb, sdes, sr,
}
use pure_webrtc_transport.Rtcp.Report.RoundTrip.{
  IsReport, IsSenderInfo, reports-Reads, sender_info-Reads,
}
use pure_webrtc_transport.Rtcp.Sdes.RoundTrip.{IsSource, chunks_size, sdes_lem}
use pure_webrtc_transport.Rtcp.Nack.RoundTrip.{IsAscending, read-write_lost}
use pure_webrtc_transport.Rtcp.Compound.{
  pack_rtcp_packet, to_bytes, parse_bye, parse_psfb, parse_rr, parse_rtpfb, parse_sdes, parse_sr,
  parse_payload, remove_padding, parse_loop,
}

-- Bytes were written from which one round of the loop reads `p`.
unfoldable pub Sent : Result Bytes → RtcpPacket → Type 0
Sent written p =
    (bytes : Bytes) × (written ≡ ok bytes)
    × (0 < length bytes)
    × ((rest : Bytes) (packets : List (Option RtcpPacket)) (fuel : ℕ)
        → parse_loop fuel rest ≡ ok packets
        → parse_loop (suc fuel) (bytes ++ rest) ≡ ok (some p ∷ packets))

frame_lem :
    (packet_type count : ℕ) (payload : Bytes) (p : RtcpPacket)
    → packet_type < 256
    → count < 32
    → length payload % 4 ≡ 0
    → length payload < 2 ^ 18
    → parse_payload packet_type count payload ≡ ok (some p ∷ [])
    → Sent (pack_rtcp_packet packet_type count payload) p
unfolding pack_rtcp_packet parse_loop Sent be16 remove_padding
frame_lem t count payload p ht hc words small read =
    let n : ℕ = length payload / 4 in
    let first : bit_or (2 * 2 ^ 6) count ≡ 128 + count = bit_or-high_low 5 4 count hc in
    let whole : (length payload % 4 == 0) ≡ true = (==_iff _ 0).1 words in
    let size : (n / 2 ^ 8 * 2 ^ 8 + n % 2 ^ 8) * 4 ≡ length payload = omega arith in
    let version : (shr (128 + count) 6 == 2) ≡ true = (==_iff _ 2).1 (omega arith) in
    let plain : (bit (128 + count) 5 == 1) ≡ false =
      let zero_bit : bit (128 + count) 5 ≡ 0 = omega arith in rw zero_bit refl in
    let same : low_bits (128 + count) 5 ≡ count = omega arith in
    (
      (128 + count) ∷ t ∷ (n / 2 ^ 8) ∷ (n % 2 ^ 8) ∷ payload,
      rw
          (
            whole,
            first,
            pack_b_lem (128 + count) (omega arith),
            pack_b_lem t ht,
            pack_h_lem n (omega arith),
          )
          refl,
      omega arith,
      λ rest packets fuel more.
          let fits : leb (length payload) (length (payload ++ rest)) ≡ true =
            le→leb _ _ (omega (arith, length-append payload rest)) in
          rw
            (
              version,
              size,
              fits,
              plain,
              take-append payload rest,
              drop-append payload rest,
              same,
              read,
              more,
            )
            refl,
    )

pub bye-Sent :
    (sources : List ℕ)
    → length sources < 32
    → All (λ ssrc. ssrc < 2 ^ 32) sources
    → Sent (to_bytes (bye sources)) (bye sources)
unfolding to_bytes parse_payload parse_bye
bye-Sent sources n h =
    let (payload, written, size, read) = read-pack_longs sources h in
    let fits : leb (4 * length sources) (length payload) ≡ true =
      le→leb _ _ (omega (arith, size)) in
    rw written (
      frame_lem 203 (length sources) payload (bye sources) (omega arith) n (omega (arith, size))
        (omega (arith, size)) (rw (fits, rw (append-nil payload) at (read [])) refl))

pub psfb-Sent :
    (fmt ssrc media_ssrc : ℕ) (fci : Bytes)
    → fmt < 32
    → ssrc < 2 ^ 32
    → media_ssrc < 2 ^ 32
    → length fci % 4 ≡ 0
    → length fci + 8 < 2 ^ 18
    → Sent (to_bytes (psfb fmt ssrc media_ssrc fci)) (psfb fmt ssrc media_ssrc fci)
unfolding to_bytes parse_payload parse_psfb
psfb-Sent fmt ssrc media_ssrc fci f s m words small =
    let payload : Bytes = be32 ssrc ++ (be32 media_ssrc ++ fci) in
    let size : length payload ≡ 8 + length fci = omega (
      arith,
      length-append (be32 ssrc) (be32 media_ssrc ++ fci),
      length-append (be32 media_ssrc) fci,
      length-be32 ssrc,
      length-be32 media_ssrc,
    ) in
    let fits : leb 8 (length payload) ≡ true = le→leb _ _ (omega (arith, size)) in
    rw (pack_l_lem ssrc s, pack_l_lem media_ssrc m)
      (frame_lem 206 fmt payload (psfb fmt ssrc media_ssrc fci) (omega arith) f
        (omega (arith, size)) (omega (arith, size)) (rw (fits, read_l-be32, read_l-be32) refl))

pub rr-Sent :
    (ssrc : ℕ) (reports : List RtcpReceiverInfo)
    → ssrc < 2 ^ 32
    → length reports < 32
    → All IsReport reports
    → Sent (to_bytes (rr ssrc reports)) (rr ssrc reports)
unfolding to_bytes parse_payload parse_rr
rr-Sent ssrc reports s n h =
    let (bytes, written, size, read) = reports-Reads reports h in
    let total : length (be32 ssrc ++ bytes) ≡ 4 + 24 * length reports =
      omega (arith, length-append (be32 ssrc) bytes, length-be32 ssrc, size) in
    let fits : (length (be32 ssrc ++ bytes) == 4 + 24 * length reports) ≡ true =
      (==_iff _ _).1 total in
    rw (pack_l_lem ssrc s, written)
      (frame_lem 201 (length reports) (be32 ssrc ++ bytes) (rr ssrc reports) (omega arith) n
        (omega (arith, total)) (omega (arith, total))
        (rw (fits, read_l-be32, rw (append-nil bytes) at (read [])) refl))

pub nack-Sent :
    (ssrc media_ssrc : ℕ) (lost : List ℕ)
    → ssrc < 2 ^ 32
    → media_ssrc < 2 ^ 32
    → length lost + 2 < 2 ^ 16
    → All (λ p. p < 2 ^ 16) lost
    → IsAscending lost
    → Sent (to_bytes (rtpfb 1 ssrc media_ssrc lost [])) (rtpfb 1 ssrc media_ssrc lost [])
unfolding to_bytes parse_payload parse_rtpfb
nack-Sent ssrc media_ssrc lost s m n h up =
    let (bytes, written, words, few, read) = read-write_lost lost h up in
    let payload : Bytes = be32 ssrc ++ (be32 media_ssrc ++ bytes) in
    let size : length payload ≡ 8 + length bytes = omega (
      arith,
      length-append (be32 ssrc) (be32 media_ssrc ++ bytes),
      length-append (be32 media_ssrc) bytes,
      length-be32 ssrc,
      length-be32 media_ssrc,
    ) in
    let fits : leb 8 (length payload) ≡ true = le→leb _ _ (omega (arith, size)) in
    rw (pack_l_lem ssrc s, pack_l_lem media_ssrc m, written)
      (frame_lem 205 1 payload (rtpfb 1 ssrc media_ssrc lost []) (omega arith) (omega arith)
        (omega (arith, size, words)) (omega (arith, size, few))
        (rw (fits, read_l-be32, read_l-be32, read) refl))

pub sdes-Sent :
    (chunks : List RtcpSourceInfo)
    → length chunks < 32
    → All IsSource chunks
    → chunks_size chunks + 3 < 2 ^ 18
    → Sent (to_bytes (sdes chunks)) (sdes chunks)
unfolding to_bytes parse_payload parse_sdes
sdes-Sent chunks n h small =
    let (payload, written, words, few, read) = sdes_lem chunks h in
    rw written (
      frame_lem 202 (length chunks) payload (sdes chunks) (omega arith) n words (omega (arith, few))
        (rw read refl))

pub sr-Sent :
    (ssrc : ℕ) (info : RtcpSenderInfo) (reports : List RtcpReceiverInfo)
    → ssrc < 2 ^ 32
    → IsSenderInfo info
    → length reports < 32
    → All IsReport reports
    → Sent (to_bytes (sr ssrc info reports)) (sr ssrc info reports)
unfolding to_bytes parse_payload parse_sr
sr-Sent ssrc info reports s i n h =
    let (head, written, size, read) = sender_info-Reads info i in
    let (bytes, written', size', read') = reports-Reads reports h in
    let payload : Bytes = be32 ssrc ++ (head ++ bytes) in
    let total : length payload ≡ 24 + 24 * length reports = omega (
      arith,
      length-append (be32 ssrc) (head ++ bytes),
      length-append head bytes,
      length-be32 ssrc,
      size,
      size',
    ) in
    let fits : (length payload == 24 + 24 * length reports) ≡ true = (==_iff _ _).1 total in
    rw (pack_l_lem ssrc s, written, written')
      (frame_lem 200 (length reports) payload (sr ssrc info reports) (omega arith) n
        (omega (arith, total)) (omega (arith, total))
        (rw (fits, read_l-be32, read bytes, rw (append-nil bytes) at (read' [])) refl))

-- ===== src/Rtcp/Compound/RoundTrip.antt =====
-- transport/rtp.py: a compound packet survives its encoding.
use pure_webrtc_transport.Base.{
  ℕ, zero, suc, ◌+◌, ◌%◌, ◌^◌, ◌≤◌, ◌<◌, ◌≡◌, refl, Option, some, List, [], ◌∷◌, ◌++◌, length,
  length-append, map, All, arith,
}
use pure_webrtc_transport.Base.Result.{ok}
use pure_webrtc_transport.Struct.{Bytes}
use pure_webrtc_transport.Rtcp.Types.{RtcpPacket, bye, psfb, rr, rtpfb, sdes, sr}
use pure_webrtc_transport.Rtcp.Report.RoundTrip.{IsReport, IsSenderInfo}
use pure_webrtc_transport.Rtcp.Sdes.RoundTrip.{IsSource, chunks_size}
use pure_webrtc_transport.Rtcp.Nack.RoundTrip.{IsAscending}
use pure_webrtc_transport.Rtcp.Compound.{to_bytes, join_bytes, parse_loop, parse}
use pure_webrtc_transport.Rtcp.Compound.Classes.{
  Sent, bye-Sent, psfb-Sent, rr-Sent, nack-Sent, sdes-Sent, sr-Sent,
}

-- Fields in their ranges, at most 31 parts, and a size that the header can count. Of the generic
-- feedback only the NACK has bytes of its own; its numbers ascend.
unfoldable pub IsPacket : RtcpPacket → Type 0
IsPacket (bye sources) = (length sources < 32) × All (λ ssrc. ssrc < 2 ^ 32) sources
IsPacket (psfb fmt ssrc media_ssrc fci) =
    (fmt < 32)
    × (ssrc < 2 ^ 32)
    × (media_ssrc < 2 ^ 32)
    × (length fci % 4 ≡ 0)
    × (length fci + 8 < 2 ^ 18)
IsPacket (rr ssrc reports) = (ssrc < 2 ^ 32) × (length reports < 32) × All IsReport reports
IsPacket (rtpfb fmt ssrc media_ssrc lost twcc) =
    (fmt ≡ 1)
    × (twcc ≡ [])
    × (ssrc < 2 ^ 32)
    × (media_ssrc < 2 ^ 32)
    × (length lost + 2 < 2 ^ 16)
    × All (λ p. p < 2 ^ 16) lost
    × IsAscending lost
IsPacket (sdes chunks) =
    (length chunks < 32) × All IsSource chunks × (chunks_size chunks + 3 < 2 ^ 18)
IsPacket (sr ssrc info reports) =
    (ssrc < 2 ^ 32) × IsSenderInfo info × (length reports < 32) × All IsReport reports

packet-Sent : (p : RtcpPacket) → IsPacket p → Sent (to_bytes p) p
unfolding IsPacket
packet-Sent (bye sources) (n, h) = bye-Sent sources n h
packet-Sent (psfb fmt ssrc media_ssrc fci) (f, s, m, words, small) =
    psfb-Sent fmt ssrc media_ssrc fci f s m words small
packet-Sent (rr ssrc reports) (s, n, h) = rr-Sent ssrc reports s n h
packet-Sent (rtpfb fmt ssrc media_ssrc lost twcc) (f, t, s, m, n, h, up) =
    rw (f, t) (nack-Sent ssrc media_ssrc lost s m n h up)
packet-Sent (sdes chunks) (n, h, small) = sdes-Sent chunks n h small
packet-Sent (sr ssrc info reports) (s, i, n, h) = sr-Sent ssrc info reports s i n h

join_lem :
    (packets : List RtcpPacket)
    → All IsPacket packets
    → (bytes : Bytes) × (join_bytes packets ≡ ok bytes)
      × (length packets ≤ length bytes)
      × ((fuel : ℕ) → length packets ≤ fuel → parse_loop fuel bytes ≡ ok (map some packets))
unfolding join_bytes parse_loop Sent
join_lem [] h = ([], refl, omega arith, λ fuel le. refl)
join_lem (p ∷ packets) (h, hs) =
    let (first, written, some_bytes, read) = packet-Sent p h in
    let (others, written', many, read') = join_lem packets hs in
    (
      first ++ others,
      rw (written, written') refl,
      omega (arith, length-append first others, some_bytes, many),
      λ fuel. step first others read read' fuel,
    )
  where
    step :
        (first others : Bytes)
        → ((rest : Bytes) (ps : List (Option RtcpPacket)) (fuel : ℕ)
            → parse_loop fuel rest ≡ ok ps
            → parse_loop (suc fuel) (first ++ rest) ≡ ok (some p ∷ ps))
        → ((fuel : ℕ) → length packets ≤ fuel → parse_loop fuel others ≡ ok (map some packets))
        → (fuel : ℕ) → suc (length packets) ≤ fuel
        → parse_loop fuel (first ++ others) ≡ ok (some p ∷ map some packets)
    step first others read read' zero le = absurd (omega arith)
    step first others read read' (suc fuel) le =
        read others (map some packets) fuel (read' fuel (omega arith))

-- Any number of packets, each with its fields in range, at most 31 parts and a size that the length
-- field can count, have bytes, and `RtcpPacket.parse` of these bytes joined gives the packets back in
-- order. Of the generic feedback these are the NACKs alone (fmt 1, no transport-wide results), whose
-- lost packets are in strictly ascending order and so do not cross the wrap of the sequence numbers.
pub parse-join_bytes :
    (packets : List RtcpPacket)
    → All IsPacket packets
    → (bytes : Bytes) × (join_bytes packets ≡ ok bytes) × (parse bytes ≡ ok (map some packets))
unfolding parse
parse-join_bytes packets h =
    let (bytes, written, many, read) = join_lem packets h in
    (bytes, written, read (length bytes) many)

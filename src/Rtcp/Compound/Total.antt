-- ===== src/Rtcp/Compound/Total.antt =====
-- transport/rtp.py: parsing a compound packet ends on every input.
use pure_webrtc_transport.Base.{
  ℕ, zero, suc, ◌+◌, ◌*◌, ◌%◌, ◌^◌, ◌≤◌, ◌≢◌, not, ◌&&◌, [], ◌∷◌, length, length-drop, drop, take,
  arith, leb, ◌==◌,
}
use pure_webrtc_transport.Base.Bits.{bit, low_bits, shr}
use pure_webrtc_transport.Base.Result.{Result, stuck, >>=-ne-stuck, guard, value_error}
use pure_webrtc_transport.Struct.{Bytes, read_l, read_longs}
use pure_webrtc_transport.Struct.Laws.{read_l-ne-stuck, read_longs-ne-stuck}
use pure_webrtc_transport.Rtp.Packet.{last}
use pure_webrtc_transport.Rtcp.Types.{RtcpPacket}
use pure_webrtc_transport.Rtcp.Report.{read_sender_info, read_reports}
use pure_webrtc_transport.Rtcp.Sdes.{read_chunks}
use pure_webrtc_transport.Rtcp.Sdes.Total.{guard-ne-stuck, read_chunks-ne-stuck}
use pure_webrtc_transport.Rtcp.Nack.{read_lost}
use pure_webrtc_transport.Rtcp.Twcc.{parse_twcc}
use pure_webrtc_transport.Rtcp.Compound.{
  parse_bye, parse_psfb, parse_rr, parse_rtpfb, parse_sdes, parse_sr, one_packet, parse_payload,
  remove_padding, parse_loop, parse,
}
use pure_webrtc_transport.Rtcp.Compound.Readers.{
  if-ne-stuck, ok-ne-stuck, read_sender_info-ne-stuck, read_reports-ne-stuck,
  read_lost_loop-ne-stuck, parse_twcc-ne-stuck,
}

one_packet-ne-stuck : (m : Result RtcpPacket) → m ≢ stuck → one_packet m ≢ stuck
one_packet-ne-stuck m h = >>=-ne-stuck m _ h λ _ _. ok-ne-stuck _

parse_bye-ne-stuck : (count : ℕ) (bytes : Bytes) → parse_bye count bytes ≢ stuck
unfolding parse_bye
parse_bye-ne-stuck count bytes =
    >>=-ne-stuck (guard (leb (4 * count) (length bytes)) value_error) _ (guard-ne-stuck _) λ _ _.
      >>=-ne-stuck (read_longs count bytes) _ (read_longs-ne-stuck count bytes) λ _ _. ok-ne-stuck _

parse_psfb-ne-stuck : (fmt : ℕ) (bytes : Bytes) → parse_psfb fmt bytes ≢ stuck
unfolding parse_psfb
parse_psfb-ne-stuck fmt bytes =
    >>=-ne-stuck (guard (leb 8 (length bytes)) value_error) _ (guard-ne-stuck _) λ _ _.
      >>=-ne-stuck (read_l bytes) _ (read_l-ne-stuck bytes)
        λ (ssrc, r₁) _. >>=-ne-stuck (read_l r₁) _ (read_l-ne-stuck r₁) λ _ _. ok-ne-stuck _

parse_rr-ne-stuck : (count : ℕ) (bytes : Bytes) → parse_rr count bytes ≢ stuck
unfolding parse_rr
parse_rr-ne-stuck count bytes =
    >>=-ne-stuck (guard (length bytes == 4 + 24 * count) value_error) _ (guard-ne-stuck _) λ _ _.
      >>=-ne-stuck (read_l bytes) _ (read_l-ne-stuck bytes) λ (ssrc, r₁) _.
        >>=-ne-stuck (read_reports count r₁) _ (read_reports-ne-stuck count r₁) λ _ _. ok-ne-stuck _

parse_sr-ne-stuck : (count : ℕ) (bytes : Bytes) → parse_sr count bytes ≢ stuck
unfolding parse_sr
parse_sr-ne-stuck count bytes =
    >>=-ne-stuck (guard (length bytes == 24 + 24 * count) value_error) _ (guard-ne-stuck _) λ _ _.
      >>=-ne-stuck (read_l bytes) _ (read_l-ne-stuck bytes) λ (ssrc, r₁) _.
        >>=-ne-stuck (read_sender_info r₁) _ (read_sender_info-ne-stuck r₁) λ (info, r₂) _.
          >>=-ne-stuck (read_reports count r₂) _ (read_reports-ne-stuck count r₂)
            λ _ _. ok-ne-stuck _

parse_rtpfb-ne-stuck : (fmt : ℕ) (bytes : Bytes) → parse_rtpfb fmt bytes ≢ stuck
unfolding parse_rtpfb read_lost
parse_rtpfb-ne-stuck fmt bytes =
    >>=-ne-stuck (guard (leb 8 (length bytes)) value_error) _ (guard-ne-stuck _) λ _ _.
      >>=-ne-stuck (read_l bytes) _ (read_l-ne-stuck bytes) λ (ssrc, r₁) _.
        >>=-ne-stuck (read_l r₁) _ (read_l-ne-stuck r₁) λ (media_ssrc, r₂) _.
          if-ne-stuck (fmt == 1) _ _
            (>>=-ne-stuck (read_lost r₂) _
              (if-ne-stuck (length r₂ % 4 == 0) _ _ (read_lost_loop-ne-stuck r₂) (λ e. cc))
              λ _ _. ok-ne-stuck _)
            (if-ne-stuck (fmt == 15) _ _
              (>>=-ne-stuck (parse_twcc r₂) _ (parse_twcc-ne-stuck r₂) λ _ _. ok-ne-stuck _)
              (ok-ne-stuck _))

parse_payload-ne-stuck :
    (packet_type count : ℕ) (payload : Bytes) → parse_payload packet_type count payload ≢ stuck
unfolding parse_payload parse_sdes
parse_payload-ne-stuck t count payload =
    if-ne-stuck (t == 203) _ _ (one_packet-ne-stuck _ (parse_bye-ne-stuck count payload)) (
      if-ne-stuck (t == 202) _ _
        (one_packet-ne-stuck (parse_sdes count payload) (
          >>=-ne-stuck (read_chunks count payload) _ (read_chunks-ne-stuck count payload)
            λ _ _. ok-ne-stuck _))
        (if-ne-stuck (t == 200) _ _ (one_packet-ne-stuck _ (parse_sr-ne-stuck count payload)) (
          if-ne-stuck (t == 201) _ _ (one_packet-ne-stuck _ (parse_rr-ne-stuck count payload)) (
            if-ne-stuck (t == 205) _ _
              (>>=-ne-stuck (parse_rtpfb count payload) _ (parse_rtpfb-ne-stuck count payload)
                λ _ _. ok-ne-stuck _)
              (if-ne-stuck (t == 206) _ _
                (one_packet-ne-stuck _ (parse_psfb-ne-stuck count payload)) (ok-ne-stuck []))))))

remove_padding-ne-stuck : (padding : ℕ) (payload : Bytes) → remove_padding padding payload ≢ stuck
unfolding remove_padding
remove_padding-ne-stuck padding payload =
    if-ne-stuck (padding == 1) _ _
      (>>=-ne-stuck
        (guard (not (last payload == 0) && leb (last payload) (length payload)) value_error) _
        (guard-ne-stuck _) λ _ _. ok-ne-stuck _)
      (ok-ne-stuck _)

parse_loop-ne-stuck :
    (fuel : ℕ) (bytes : Bytes) → length bytes ≤ fuel → parse_loop fuel bytes ≢ stuck
unfolding parse_loop
parse_loop-ne-stuck fuel [] h = λ e. cc
parse_loop-ne-stuck fuel (a ∷ []) h = λ e. cc
parse_loop-ne-stuck fuel (a ∷ b ∷ []) h = λ e. cc
parse_loop-ne-stuck fuel (a ∷ b ∷ c ∷ []) h = λ e. cc
parse_loop-ne-stuck zero (a ∷ b ∷ c ∷ d ∷ rest) h = absurd (omega arith)
parse_loop-ne-stuck (suc fuel) (a ∷ b ∷ c ∷ d ∷ rest) h =
    let size : ℕ = (c * 2 ^ 8 + d) * 4 in
    >>=-ne-stuck (guard (shr a 6 == 2) value_error) _ (guard-ne-stuck _) λ _ _.
      >>=-ne-stuck (guard (leb size (length rest)) value_error) _ (guard-ne-stuck _) λ _ _.
        >>=-ne-stuck (remove_padding (bit a 5) (take size rest)) _
          (remove_padding-ne-stuck (bit a 5) (take size rest))
          λ payload _.
            >>=-ne-stuck (parse_payload b (low_bits a 5) payload) _
              (parse_payload-ne-stuck b (low_bits a 5) payload)
              λ packets _.
                >>=-ne-stuck (parse_loop fuel (drop size rest)) _
                  (parse_loop-ne-stuck fuel (drop size rest) (omega (arith, length-drop size rest)))
                  λ _ _. ok-ne-stuck _

-- `RtcpPacket.parse` ends on every list of bytes, with a list of packets or an exception.
pub parse-ne-stuck : (bytes : Bytes) → parse bytes ≢ stuck
unfolding parse
parse-ne-stuck bytes = parse_loop-ne-stuck (length bytes) bytes (omega arith)

-- ===== src/Rtcp/Compound/Readers.antt =====
-- transport/rtp.py: the readers of the parts of RTCP packets end on every input.
use pure_webrtc_transport.Base.{
  ℕ, zero, suc, ◌+◌, ◌-◌, ◌≢◌, Bool, true, false, List, [], ◌∷◌, length, drop, take, ltb, leb, ◌==◌,
  if◌then◌else◌,
}
use pure_webrtc_transport.Base.Bits.{bit}
use pure_webrtc_transport.Base.Result.{Result, ok, stuck, >>=-ne-stuck}
use pure_webrtc_transport.Struct.{Bytes, read_b, read_h, read_l, read_q}
use pure_webrtc_transport.Struct.Laws.{read_l-ne-stuck}
use pure_webrtc_transport.Rtcp.Report.{
  read_packets_lost, read_receiver_info, read_sender_info, read_reports,
}
use pure_webrtc_transport.Rtcp.Nack.{read_lost_loop}
use pure_webrtc_transport.Rtcp.Twcc.{
  parse_twcc, parse_signed_bytes, read_statuses, read_deltas, content_from, parse_chunk,
  ChunkStatus, not_received, reserved, small_delta, large_delta,
}

pub if-ne-stuck {ℓ} :
    {A : Type ℓ} (b : Bool) (x y : Result A) → x ≢ stuck → y ≢ stuck → (if b then x else y) ≢ stuck
if-ne-stuck true x y h k = h
if-ne-stuck false x y h k = k

pub ok-ne-stuck {ℓ} : {A : Type ℓ} (a : A) → ok a ≢ stuck
ok-ne-stuck a = λ e. cc

pub read_b-ne-stuck : (bytes : Bytes) → read_b bytes ≢ stuck
unfolding read_b
read_b-ne-stuck [] = λ e. cc
read_b-ne-stuck (a ∷ rest) = λ e. cc

pub read_h-ne-stuck : (bytes : Bytes) → read_h bytes ≢ stuck
unfolding read_h
read_h-ne-stuck [] = λ e. cc
read_h-ne-stuck (a ∷ []) = λ e. cc
read_h-ne-stuck (a ∷ b ∷ rest) = λ e. cc

pub read_q-ne-stuck : (bytes : Bytes) → read_q bytes ≢ stuck
unfolding read_q
read_q-ne-stuck bytes =
    >>=-ne-stuck (read_l bytes) _ (read_l-ne-stuck bytes)
      λ (n, rest) _. >>=-ne-stuck (read_l rest) _ (read_l-ne-stuck rest) λ _ _. ok-ne-stuck _

pub read_packets_lost-ne-stuck : (bytes : Bytes) → read_packets_lost bytes ≢ stuck
unfolding read_packets_lost
read_packets_lost-ne-stuck [] = λ e. cc
read_packets_lost-ne-stuck (a ∷ rest) =
    >>=-ne-stuck (read_l ((if leb 0x80 a then 0xff else 0) ∷ a ∷ rest)) _ (read_l-ne-stuck _)
      λ _ _. ok-ne-stuck _

pub read_receiver_info-ne-stuck : (bytes : Bytes) → read_receiver_info bytes ≢ stuck
unfolding read_receiver_info
read_receiver_info-ne-stuck bytes =
    >>=-ne-stuck (read_l bytes) _ (read_l-ne-stuck bytes) λ (ssrc, r₁) _.
      >>=-ne-stuck (read_b r₁) _ (read_b-ne-stuck r₁) λ (fraction_lost, r₂) _.
        >>=-ne-stuck (read_packets_lost r₂) _ (read_packets_lost-ne-stuck r₂)
          λ (packets_lost, r₃) _.
            >>=-ne-stuck (read_l r₃) _ (read_l-ne-stuck r₃) λ (highest_sequence, r₄) _.
              >>=-ne-stuck (read_l r₄) _ (read_l-ne-stuck r₄) λ (jitter, r₅) _.
                >>=-ne-stuck (read_l r₅) _ (read_l-ne-stuck r₅) λ (lsr, r₆) _.
                  >>=-ne-stuck (read_l r₆) _ (read_l-ne-stuck r₆) λ _ _. ok-ne-stuck _

pub read_sender_info-ne-stuck : (bytes : Bytes) → read_sender_info bytes ≢ stuck
unfolding read_sender_info
read_sender_info-ne-stuck bytes =
    >>=-ne-stuck (read_q bytes) _ (read_q-ne-stuck bytes) λ (ntp_timestamp, r₁) _.
      >>=-ne-stuck (read_l r₁) _ (read_l-ne-stuck r₁) λ (rtp_timestamp, r₂) _.
        >>=-ne-stuck (read_l r₂) _ (read_l-ne-stuck r₂) λ (packet_count, r₃) _.
          >>=-ne-stuck (read_l r₃) _ (read_l-ne-stuck r₃) λ _ _. ok-ne-stuck _

pub read_reports-ne-stuck : (count : ℕ) (bytes : Bytes) → read_reports count bytes ≢ stuck
unfolding read_reports
read_reports-ne-stuck zero bytes = λ e. cc
read_reports-ne-stuck (suc count) bytes =
    >>=-ne-stuck (read_receiver_info bytes) _ (read_receiver_info-ne-stuck bytes) λ (r, rest) _.
      >>=-ne-stuck (read_reports count rest) _ (read_reports-ne-stuck count rest)
        λ _ _. ok-ne-stuck _

pub read_lost_loop-ne-stuck : (bytes : Bytes) → read_lost_loop bytes ≢ stuck
unfolding read_lost_loop
read_lost_loop-ne-stuck [] = λ e. cc
read_lost_loop-ne-stuck (a ∷ []) = λ e. cc
read_lost_loop-ne-stuck (a ∷ b ∷ []) = λ e. cc
read_lost_loop-ne-stuck (a ∷ b ∷ c ∷ []) = λ e. cc
read_lost_loop-ne-stuck (a ∷ b ∷ c ∷ d ∷ rest) =
    >>=-ne-stuck (read_lost_loop rest) _ (read_lost_loop-ne-stuck rest) λ _ _. ok-ne-stuck _

pub parse_signed_bytes-ne-stuck : (bytes : Bytes) → parse_signed_bytes bytes ≢ stuck
unfolding parse_signed_bytes
parse_signed_bytes-ne-stuck [] = λ e. cc
parse_signed_bytes-ne-stuck (d ∷ rest) =
    if-ne-stuck (bit d 7 == 1) _ _ (ok-ne-stuck _) (ok-ne-stuck _)

pub read_statuses-ne-stuck :
    (total count : ℕ) (bytes : Bytes) → read_statuses total count bytes ≢ stuck
unfolding read_statuses
read_statuses-ne-stuck total count [] = λ e. cc
read_statuses-ne-stuck total count (d₀ ∷ []) =
    if-ne-stuck (ltb count total) _ _ (λ e. cc) (ok-ne-stuck _)
read_statuses-ne-stuck total count (d₀ ∷ d₁ ∷ rest) =
    let next : ℕ = count + length (parse_chunk d₀ d₁ (total - count)) in
    if-ne-stuck (ltb count total) _ _
      (>>=-ne-stuck (read_statuses total next rest) _ (read_statuses-ne-stuck total next rest)
        λ _ _. ok-ne-stuck _)
      (ok-ne-stuck _)

pub read_deltas-ne-stuck :
    (statuses : List ChunkStatus) (seq : ℕ) (bytes : Bytes) → read_deltas statuses seq bytes ≢ stuck
unfolding read_deltas
read_deltas-ne-stuck [] seq bytes = λ e. cc
read_deltas-ne-stuck (not_received ∷ statuses) seq bytes =
    >>=-ne-stuck (read_deltas statuses (seq + 1) bytes) _
      (read_deltas-ne-stuck statuses (seq + 1) bytes) λ _ _. ok-ne-stuck _
read_deltas-ne-stuck (reserved ∷ statuses) seq bytes =
    >>=-ne-stuck (read_deltas statuses (seq + 1) bytes) _
      (read_deltas-ne-stuck statuses (seq + 1) bytes) λ _ _. ok-ne-stuck _
read_deltas-ne-stuck (small_delta ∷ statuses) seq [] = λ e. cc
read_deltas-ne-stuck (small_delta ∷ statuses) seq (d ∷ bytes) =
    >>=-ne-stuck (read_deltas statuses (seq + 1) bytes) _
      (read_deltas-ne-stuck statuses (seq + 1) bytes) λ _ _. ok-ne-stuck _
read_deltas-ne-stuck (large_delta ∷ statuses) seq bytes =
    >>=-ne-stuck (parse_signed_bytes (take 2 bytes)) _ (parse_signed_bytes-ne-stuck (take 2 bytes))
      λ _ _.
        >>=-ne-stuck (read_deltas statuses (seq + 1) (drop 2 bytes)) _
          (read_deltas-ne-stuck statuses (seq + 1) (drop 2 bytes)) λ _ _. ok-ne-stuck _

pub content_from-ne-stuck : (bytes : Bytes) → content_from bytes ≢ stuck
unfolding content_from
content_from-ne-stuck [] = λ e. cc
content_from-ne-stuck (a ∷ rest) = λ e. cc

pub parse_twcc-ne-stuck : (bytes : Bytes) → parse_twcc bytes ≢ stuck
unfolding parse_twcc
parse_twcc-ne-stuck bytes = >>=-ne-stuck (read_h bytes) _ (read_h-ne-stuck bytes) λ (base, r₁) _.
    >>=-ne-stuck (read_h r₁) _ (read_h-ne-stuck r₁) λ (total, r₂) _.
      >>=-ne-stuck (parse_signed_bytes (take 3 r₂)) _ (parse_signed_bytes-ne-stuck (take 3 r₂))
        λ reference _.
          >>=-ne-stuck (content_from (drop 3 r₂)) _ (content_from-ne-stuck (drop 3 r₂)) λ content _.
            >>=-ne-stuck (read_statuses total 0 content) _ (read_statuses-ne-stuck total 0 content)
              λ (statuses, rest) _.
                >>=-ne-stuck (read_deltas statuses base rest) _
                  (read_deltas-ne-stuck statuses base rest) λ _ _. ok-ne-stuck _

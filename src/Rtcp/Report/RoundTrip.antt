-- ===== src/Rtcp/Report/RoundTrip.antt =====
-- transport/rtp.py: reports are read back from their bytes.
use pure_webrtc_transport.Base.{
  ℕ, ◌-◌, ◌*◌, ◌^◌, ◌<◌, ◌≡◌, refl, List, [], ◌∷◌, ◌++◌, length, length-append, arith, All,
  append_assoc, ◌⊎◌, inl, inr, Bool-cases,
}
use pure_webrtc_transport.Base.Int.{ℤ, pos, negsuc, ◌≤ℤ◌, ◌+ℤ◌, ltb_ℤ}
use pure_webrtc_transport.Base.Result.{Result, ok}
use pure_webrtc_transport.Struct.{Bytes, be24, be32, be64, pack_signed, read_b, read_l}
use pure_webrtc_transport.Struct.Laws.{pack_b_lem, pack_l_lem, pack_q_lem, read_l-be32, read_q-be64}
use pure_webrtc_transport.Rtcp.Types.{RtcpReceiverInfo, RtcpSenderInfo}
use pure_webrtc_transport.Rtcp.Report.{
  packets_lost_min, packets_lost_max, clamp_packets_lost, pack_packets_lost, read_packets_lost,
  write_receiver_info, read_receiver_info, write_sender_info, read_sender_info, write_reports,
  read_reports,
}

-- Clamping leaves a count in the signed 24-bit range as it is, and takes one below it to the least
-- and one above it to the greatest value of the range.
pub clamp_packets_lost_lem :
    (count : ℤ)
    → ((packets_lost_min ≤ℤ count)
        × (count ≤ℤ packets_lost_max)
        × (clamp_packets_lost count ≡ count))
      ⊎ ((count +ℤ pos 1 ≤ℤ packets_lost_min) × (clamp_packets_lost count ≡ packets_lost_min))
      ⊎ ((packets_lost_max +ℤ pos 1 ≤ℤ count) × (clamp_packets_lost count ≡ packets_lost_max))
unfolding clamp_packets_lost ◌+ℤ◌
clamp_packets_lost_lem count = elim (Bool-cases (ltb_ℤ count packets_lost_min)) [
  | inl below ↦ inr (inl (ground arith, ground arith))
  | inr e ↦ elim (Bool-cases (ltb_ℤ packets_lost_max count)) [
    | inl above ↦ inr (inr (ground arith, ground arith))
    | inr f ↦ inl (ground arith, ground arith, ground arith)
  ]
]

-- The 24 bits of a count.
abbrev pub lost_bits : ℤ → ℕ
lost_bits (pos n) = n
lost_bits (negsuc n) = 2 ^ 24 - 1 - n

-- A count in the signed 24-bit range is written in three bytes and read back from them, whatever
-- follows.
pub read-pack_packets_lost :
    (count : ℤ)
    → packets_lost_min ≤ℤ count
    → count ≤ℤ packets_lost_max
    → (pack_packets_lost count ≡ ok (be24 (lost_bits count)))
      × ((rest : Bytes) → read_packets_lost (be24 (lost_bits count) ++ rest) ≡ ok (count, rest))
unfolding pack_packets_lost read_packets_lost pack_signed read_l be24
read-pack_packets_lost (pos n) l h = (ground arith, λ rest. ground arith)
read-pack_packets_lost (negsuc n) l h = (ground arith, λ rest. ground arith)

-- What the fields of a receiver report hold.
pub record IsReport (r : RtcpReceiverInfo) : Type 0 where
  pub ssrc : r.ssrc < 2 ^ 32
  pub fraction_lost : r.fraction_lost < 2 ^ 8
  pub lost_min : packets_lost_min ≤ℤ r.packets_lost
  pub lost_max : r.packets_lost ≤ℤ packets_lost_max
  pub highest_sequence : r.highest_sequence < 2 ^ 32
  pub jitter : r.jitter < 2 ^ 32
  pub lsr : r.lsr < 2 ^ 32
  pub dlsr : r.dlsr < 2 ^ 32

pub record IsSenderInfo (s : RtcpSenderInfo) : Type 0 where
  pub ntp_timestamp : s.ntp_timestamp < 2 ^ 64
  pub rtp_timestamp : s.rtp_timestamp < 2 ^ 32
  pub packet_count : s.packet_count < 2 ^ 32
  pub octet_count : s.octet_count < 2 ^ 32

-- The bytes of a part: so many, and with any others behind them the reader returns the part.
abbrev pub Reads {ℓ} : {A : Type ℓ} → Result Bytes → (Bytes → Result (A × Bytes)) → ℕ → A → Type ℓ
Reads written read size a =
    (bytes : Bytes) × (written ≡ ok bytes)
    × (length bytes ≡ size)
    × ((rest : Bytes) → read (bytes ++ rest) ≡ ok (a, rest))

pub receiver_info-Reads :
    (r : RtcpReceiverInfo) → IsReport r → Reads (write_receiver_info r) read_receiver_info 24 r
unfolding write_receiver_info read_receiver_info read_b
receiver_info-Reads r v =
    let (written, read) = read-pack_packets_lost r.packets_lost v.lost_min v.lost_max in
    let d = be32 r.dlsr in
    let c = be32 r.lsr ++ d in
    let b = be32 r.jitter ++ c in
    let a = be32 r.highest_sequence ++ b in
    let lost = be24 (lost_bits r.packets_lost) ++ a in
    (
      be32 r.ssrc ++ (r.fraction_lost ∷ lost),
      rw (
        pack_l_lem r.ssrc v.ssrc,
        pack_b_lem r.fraction_lost v.fraction_lost,
        written,
        pack_l_lem r.highest_sequence v.highest_sequence,
        pack_l_lem r.jitter v.jitter,
        pack_l_lem r.lsr v.lsr,
        pack_l_lem r.dlsr v.dlsr,
      ),
      unfold be32 be24 in omega arith,
      λ rest. simp (append_assoc, read_l-be32, read),
    )

pub sender_info-Reads :
    (s : RtcpSenderInfo) → IsSenderInfo s → Reads (write_sender_info s) read_sender_info 20 s
unfolding write_sender_info read_sender_info
sender_info-Reads s v = (
  be64 s.ntp_timestamp ++ (be32 s.rtp_timestamp ++ (be32 s.packet_count ++ be32 s.octet_count)),
  rw (
    pack_q_lem s.ntp_timestamp v.ntp_timestamp,
    pack_l_lem s.rtp_timestamp v.rtp_timestamp,
    pack_l_lem s.packet_count v.packet_count,
    pack_l_lem s.octet_count v.octet_count,
  ),
  unfold be64 in omega arith,
  λ rest. simp (append_assoc, read_q-be64, read_l-be32),
)

pub reports-Reads :
    (rs : List RtcpReceiverInfo)
    → All IsReport rs
    → Reads (write_reports rs) (read_reports (length rs)) (24 * length rs) rs
unfolding write_reports read_reports
reports-Reads [] h = ([], refl, refl, λ rest. refl)
reports-Reads (r ∷ rs) (h, hs) =
    let (first, written, size, read) = receiver_info-Reads r h in
    let (others, written', size', read') = reports-Reads rs hs in
    (
      first ++ others,
      rw (written, written'),
      omega (arith, length-append first others, size, size'),
      λ rest. rw (append_assoc first others rest, read (others ++ rest), read' rest),
    )

-- ===== src/Sender/Feedback.antt =====
-- transport/rtcrtpsender.py: feedback finds the packet that it is about.
use pure_webrtc_transport.Base.{
  ℕ, suc, ◌+◌, ◌%◌, ◌^◌, ◌<◌, ◌≤◌, ◌≡◌, refl, ◌∙◌, true, false, none, some, List, [], ◌∷◌, length,
  ◌==◌, ==_iff, arith, Bool-cases, inl, inr,
}
use pure_webrtc_transport.Base.Dict.{Dict, lookup, nat_key, lookup-insert, lookup-insert_other}
use pure_webrtc_transport.Utils.{uint16_add}
use pure_webrtc_transport.Rtp.Packet.{RtpPacket}
use pure_webrtc_transport.Sender.{
  RtpSender, set_transport_sequence_number, get_packet_by_transport_sequence_number, send_packet,
  send_packets, delete,
}

lookup-delete : (k : ℕ) (d : Dict ℕ RtpPacket) → lookup k (delete k d) ≡ none
lookup-delete k [] = refl
lookup-delete k ((a, p) ∷ d) = elim (Bool-cases (k == a)) [
  | inl e ↦ rw e (lookup-delete k d)
  | inr e ↦ rw (e, e) (lookup-delete k d)
]

-- `i` packets after the one numbered `a`, the history still has it.
record IsKept (s : RtpSender) (a i : ℕ) (p : RtpPacket) : Type 0 where
  found : lookup (a % 1024) s.tcc_history ≡ some p
  number : s.transport_sequence_number ≡ (a + i) % 2 ^ 16

apart : (a i : ℕ) → 0 < i → i < 1024 → (a % 1024 == (a + i) % 2 ^ 16 % 1024) ≡ false
apart a i l h = ground arith

send_packets-IsKept :
    (rest : List (ℕ × ℕ × RtpPacket)) (s : RtpSender) (a i : ℕ) (p : RtpPacket)
    → 0 < i
    → i + length rest ≤ 1024
    → IsKept s a i p
    → lookup (a % 1024) ((send_packets rest s).tcc_history) ≡ some p
unfolding send_packets send_packet set_transport_sequence_number uint16_add
send_packets-IsKept [] s a i p l h k = k.found
send_packets-IsKept ((now, time, packet) ∷ rest) s a i p l h k =
    let other : (a % 1024 == s.transport_sequence_number % 1024) ≡ false =
      rw (k.number) (apart a i l (omega arith)) in
    send_packets-IsKept rest ((send_packet now time packet s).1) a (suc i) p (omega arith)
      (omega arith)
      record {
        found =
            lookup-insert_other (a % 1024) (s.transport_sequence_number % 1024) _ s.tcc_history
              other
            ∙ k.found;
        number = omega (arith, k.number);
      }

-- The send loop sends a packet, and after it fewer than 1024 others. Feedback about its transport sequence number
-- then finds it, as it was sent, and removes it: asking again finds nothing.
pub get_packet-send_packet :
    (s : RtpSender) (now abs_send_time : ℕ) (packet : RtpPacket) (rest : List (ℕ × ℕ × RtpPacket))
    → s.transport_sequence_number < 2 ^ 16
    → length rest < 1024
    → let sent = send_packet now abs_send_time packet s in
      let asked =
        get_packet_by_transport_sequence_number s.transport_sequence_number
          (send_packets rest sent.1) in
      (asked.0 ≡ some sent.0)
      × ((get_packet_by_transport_sequence_number s.transport_sequence_number asked.1).0 ≡ none)
unfolding get_packet_by_transport_sequence_number send_packet set_transport_sequence_number
    uint16_add
get_packet-send_packet s now time packet rest b few =
    let a : ℕ = s.transport_sequence_number in
    let sent = send_packet now time packet s in
    let kept : IsKept (sent.1) a 1 (sent.0) = record {
      found = lookup-insert (a % 1024) (sent.0) s.tcc_history;
      number = refl;
    } in
    let found = send_packets-IsKept rest (sent.1) a 1 (sent.0) (omega arith) (omega arith) kept in
    let same : (a == a) ≡ true = (==_iff a a).1 refl in
    let gone = lookup-delete (a % 1024) ((send_packets rest (sent.1)).tcc_history) in
    (rw (found, same) refl, rw (found, same) (rw gone refl))

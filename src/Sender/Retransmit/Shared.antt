-- ===== src/Sender/Retransmit/Shared.antt =====
-- `RTCRtpSender._retransmit`: what feedback finds after a retransmission.
use pure_webrtc_transport.Base.{
  ℕ, ◌%◌, ◌^◌, ◌<◌, ◌≡◌, ◌≢◌, refl, ◌∙◌, ap, true, false, Bool-cases, inl, inr, Option, none, some,
  ◌++◌, ◌==◌, ==_iff, if◌then◌else◌, arith,
}
use pure_webrtc_transport.Base.Dict.{lookup, nat_key, lookup-insert, lookup-insert_other}
use pure_webrtc_transport.Base.Result.{ok, ◌>>=◌}
use pure_webrtc_transport.Struct.{Bytes, be16}
use pure_webrtc_transport.Struct.Laws.{pack_h_lem}
use pure_webrtc_transport.Utils.{uint16_add}
use pure_webrtc_transport.Rtp.Packet.{RtpPacket, new_packet, serialize, wrap_rtx}
use pure_webrtc_transport.Sender.Retransmit.{
  SharedPacket, SharingSender, object_of, view, number_shared, take_shared, get_shared, wrap_if_rtx,
  retransmit_found, retransmit,
}

-- What a packet holds whose object carries the number t.
take_other :
    (a t : ℕ) (o : Option SharedPacket) (q : SharedPacket) (s : SharingSender)
    → o ≡ some q
    → (object_of q s).transport_sequence_number ≡ some t
    → a ≢ t
    → (take_shared a o s).0 ≡ none
take_other a t o q s e numbered other =
    let test : (t == a) ≡ false = ground (arith, other) in rw (e, numbered, test) refl

take_same :
    (t : ℕ) (o : Option SharedPacket) (q : SharedPacket) (s : SharingSender)
    → o ≡ some q
    → (object_of q s).transport_sequence_number ≡ some t
    → (take_shared t o s).0 ≡ some (view q s)
take_same t o q s e numbered =
    let test : (t == t) ≡ true = (==_iff t t).1 refl in rw (e, numbered, test) refl

-- A packet with the object of the one that is numbered has the new number too.
number_shared-object :
    (now : ℕ) (rtx q : SharedPacket) (s : SharingSender)
    → q.extensions ≡ rtx.extensions
    → (object_of q (number_shared now rtx s).1).transport_sequence_number
      ≡ some s.transport_sequence_number
unfolding number_shared
number_shared-object now rtx q s same =
    rw
      (
        same,
        lookup-insert rtx.extensions
            (record (object_of rtx s) {
              transport_sequence_number = some s.transport_sequence_number;
            })
            s.objects,
      )
      refl

number_shared-forgets :
    (now a : ℕ) (rtx old : SharedPacket) (s : SharingSender)
    → lookup (a % 1024) s.tcc_history ≡ some old
    → old.extensions ≡ rtx.extensions
    → a ≢ s.transport_sequence_number
    → (get_shared a (number_shared now rtx s).1).0 ≡ none
unfolding get_shared number_shared
number_shared-forgets now a rtx old s found same other =
    let t = s.transport_sequence_number in
    let next = (number_shared now rtx s).1 in
    let stamped = (number_shared now rtx s).0 in
    elim (Bool-cases (a % 1024 == t % 1024)) [
      | inl e ↦
          let slot : a % 1024 ≡ t % 1024 = (==_iff (a % 1024) (t % 1024)).0 e in
          let there : lookup (a % 1024) next.tcc_history ≡ some stamped =
            rw slot (lookup-insert (t % 1024) stamped s.tcc_history) in
          take_other a t (lookup (a % 1024) next.tcc_history) stamped next there
            (number_shared-object now rtx stamped s refl) other
      | inr e ↦
          let there : lookup (a % 1024) next.tcc_history ≡ some old =
            lookup-insert_other (a % 1024) (t % 1024) stamped s.tcc_history e ∙ found in
          take_other a t (lookup (a % 1024) next.tcc_history) old next there
            (number_shared-object now rtx old s same) other
    ]

number_shared-found :
    (now : ℕ) (rtx : SharedPacket) (s : SharingSender)
    → (get_shared s.transport_sequence_number (number_shared now rtx s).1).0
      ≡ some (view (number_shared now rtx s).0 (number_shared now rtx s).1)
unfolding get_shared number_shared
number_shared-found now rtx s =
    let t = s.transport_sequence_number in
    let next = (number_shared now rtx s).1 in
    let stamped = (number_shared now rtx s).0 in
    take_same t (lookup (t % 1024) next.tcc_history) stamped next
      (lookup-insert (t % 1024) stamped s.tcc_history) (number_shared-object now rtx stamped s refl)

-- The packet that carries the retransmission, before it is numbered.
abbrev wrapped : SharedPacket → ℕ → SharingSender → SharedPacket
wrapped shared payload_type s =
    let p = shared.packet in
    record {
      packet =
          record (new_packet payload_type p.marker s.rtx_sequence_number p.timestamp s.rtx_ssrc
            (be16 p.sequence_number ++ p.payload)) {
              csrc = p.csrc;
              extensions = object_of shared s;
            };
      extensions = shared.extensions;
    }

wrap_if_rtx-eq :
    (now payload_type : ℕ) (shared : SharedPacket) (s : SharingSender)
    → shared.packet.sequence_number < 2 ^ 16
    → wrap_if_rtx (some payload_type) now shared s
      ≡ ok (
          number_shared now
            (wrapped shared payload_type s)
            (record s { rtx_sequence_number = uint16_add s.rtx_sequence_number 1 }))
unfolding wrap_rtx
wrap_if_rtx-eq now payload_type shared s small =
    rw (pack_h_lem shared.packet.sequence_number small) refl

-- A lost packet that is in the history is retransmitted by a sender with an RTX payload type: what goes
-- out is what `serialize` makes of a packet of the RTX payload type, SSRC and sequence number with the
-- bytes of the original sequence number and payload, under the next transport sequence number; an
-- exception is one of `serialize`. Feedback about that number finds this packet. But the number is
-- written into the extensions that the two packets share: feedback about the number under which the lost
-- packet was first sent then finds nothing.
pub retransmit-get_shared :
    (random : ℕ → Bytes) (now sequence_number payload_type a : ℕ) (shared : SharedPacket)
    (s : SharingSender)
    → sequence_number < 2 ^ 16
    → s.rtx_payload_type ≡ some payload_type
    → lookup (sequence_number % 128) s.rtp_history ≡ some shared
    → shared.packet.sequence_number ≡ sequence_number
    → lookup (a % 1024) s.tcc_history ≡ some shared
    → a ≢ s.transport_sequence_number
    → (sent : RtpPacket) × (next : SharingSender) × (retransmit random now sequence_number s
        ≡ (serialize s.ids random sent >>= λ b. ok (some (b.0), next)))
      × ((sent.payload ≡ be16 sequence_number ++ shared.packet.payload)
          × (sent.payload_type ≡ payload_type)
          × (sent.ssrc ≡ s.rtx_ssrc)
          × (sent.sequence_number ≡ s.rtx_sequence_number)
          × (sent.extensions.transport_sequence_number ≡ some s.transport_sequence_number))
      × (next.rtx_sequence_number ≡ uint16_add s.rtx_sequence_number 1)
      × ((get_shared s.transport_sequence_number next).0 ≡ some sent)
      × ((get_shared a next).0 ≡ none)
unfolding number_shared retransmit
retransmit-get_shared random now sequence_number payload_type a shared s small rtx stored number
      first other =
    let fresh = wrapped shared payload_type s in
    let moved : SharingSender = record s {
      rtx_sequence_number = uint16_add s.rtx_sequence_number 1;
    } in
    let result = (number_shared now fresh moved).1 in
    let sent = view (number_shared now fresh moved).0 result in
    let test : (shared.packet.sequence_number == sequence_number) ≡ true = (==_iff _ _).1 number in
    let send = λ (r : SharedPacket × SharingSender).
      (serialize s.ids random (view (r.0) (r.1)) >>= λ b. ok (some (b.0), r.1)) in
    let steps : retransmit random now sequence_number s
        ≡ (serialize s.ids random sent >>= λ b. ok (some (b.0), result)) =
      ap (λ o. retransmit_found random now sequence_number o s) stored
      ∙ ap (λ b. if b then (wrap_if_rtx s.rtx_payload_type now shared s >>= send) else ok (none, s))
          test
      ∙ ap (λ o. wrap_if_rtx o now shared s >>= send) rtx
      ∙ ap (λ m. m >>= send) (wrap_if_rtx-eq now payload_type shared s (rw number small)) in
    (
      sent,
      result,
      steps,
      (
        ap (λ n. be16 n ++ shared.packet.payload) number,
        refl,
        refl,
        refl,
        number_shared-object now fresh (number_shared now fresh moved).0 moved refl,
      ),
      refl,
      number_shared-found now fresh moved,
      number_shared-forgets now a fresh shared moved first refl other,
    )

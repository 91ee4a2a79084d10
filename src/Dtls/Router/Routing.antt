-- ===== src/Dtls/Router/Routing.antt =====
-- transport/rtcdtlstransport.py: whom `RtpRouter.route_rtp` gives a packet.
use pure_webrtc_transport.Base.{
  ℕ, true, false, Option, none, some, List, [], ◌∷◌, ◌==◌, ==_iff, ◌≡◌, refl, ◌∙◌, Bool-cases, inl,
  inr,
}
use pure_webrtc_transport.Base.Dict.{
  Dict, lookup, insert, nat_key, member, add, lookup-insert, lookup-insert_other, member-add,
  member-add_mono,
}
use pure_webrtc_transport.Text.{Str}
use pure_webrtc_transport.Rtp.Packet.{RtpPacket}
use pure_webrtc_transport.Dtls.Router.{
  RtpRouter, or_empty, add_ssrcs, add_payload_types, register_receiver, route_by, route_rtp,
}

-- The set of receivers of a payload type.
abbrev pub takers : ℕ → RtpRouter → List ℕ
takers pt s = or_empty (lookup pt s.payload_type_table)

pub add_ssrcs_kept :
    (ssrc : ℕ) (ssrcs : List ℕ) (r : ℕ) (d : Dict ℕ ℕ)
    → lookup ssrc d ≡ some r
    → lookup ssrc (add_ssrcs ssrcs r d) ≡ some r
add_ssrcs_kept ssrc [] r d h = h
add_ssrcs_kept ssrc (t ∷ ssrcs) r d h =
    add_ssrcs_kept ssrc ssrcs r (insert t r d) (elim (Bool-cases (ssrc == t)) [
      | inl e ↦ let same : ssrc ≡ t = (==_iff ssrc t).0 e in rw same (lookup-insert t r d)
      | inr e ↦ lookup-insert_other ssrc t r d e ∙ h
    ])

lookup-add_ssrcs :
    (ssrc : ℕ) (ssrcs : List ℕ) (r : ℕ) (d : Dict ℕ ℕ)
    → member ssrc ssrcs ≡ true
    → lookup ssrc (add_ssrcs ssrcs r d) ≡ some r
lookup-add_ssrcs ssrc [] r d h = cc
lookup-add_ssrcs ssrc (t ∷ ssrcs) r d h = elim (Bool-cases (ssrc == t)) [
  | inl e ↦
      let same : ssrc ≡ t = (==_iff ssrc t).0 e in
      add_ssrcs_kept ssrc ssrcs r (insert t r d) (rw same (lookup-insert t r d))
  | inr e ↦ lookup-add_ssrcs ssrc ssrcs r (insert t r d) (rw e at h)
]

pub lookup-add_ssrcs_other :
    (ssrc : ℕ) (ssrcs : List ℕ) (r : ℕ) (d : Dict ℕ ℕ)
    → member ssrc ssrcs ≡ false
    → lookup ssrc (add_ssrcs ssrcs r d) ≡ lookup ssrc d
lookup-add_ssrcs_other ssrc [] r d h = refl
lookup-add_ssrcs_other ssrc (t ∷ ssrcs) r d h = elim (Bool-cases (ssrc == t)) [
  | inl e ↦ let never : true ≡ false = rw e at h in cc
  | inr e ↦
      lookup-add_ssrcs_other ssrc ssrcs r (insert t r d) (rw e at h)
      ∙ lookup-insert_other ssrc t r d e
]

-- The set of a payload type after one more registration.
add_one :
    (pt t r x : ℕ) (d : Dict ℕ (List ℕ))
    → member x (or_empty (lookup pt d)) ≡ true
    → member x (or_empty (lookup pt (insert t (add r (or_empty (lookup t d))) d))) ≡ true
add_one pt t r x d h = elim (Bool-cases (pt == t)) [
  | inl e ↦
      let same : pt ≡ t = (==_iff pt t).0 e in
      rw (same, lookup-insert t (add r (or_empty (lookup t d))) d)
        (member-add_mono x r (or_empty (lookup t d)) (rw same at h))
  | inr e ↦ rw (lookup-insert_other pt t (add r (or_empty (lookup t d))) d e) h
]

pub add_payload_types_kept :
    (pt : ℕ) (pts : List ℕ) (r x : ℕ) (d : Dict ℕ (List ℕ))
    → member x (or_empty (lookup pt d)) ≡ true
    → member x (or_empty (lookup pt (add_payload_types pts r d))) ≡ true
add_payload_types_kept pt [] r x d h = h
add_payload_types_kept pt (t ∷ pts) r x d h =
    add_payload_types_kept pt pts r x (insert t (add r (or_empty (lookup t d))) d)
      (add_one pt t r x d h)

member-add_payload_types :
    (pt : ℕ) (pts : List ℕ) (r : ℕ) (d : Dict ℕ (List ℕ))
    → member pt pts ≡ true
    → member r (or_empty (lookup pt (add_payload_types pts r d))) ≡ true
member-add_payload_types pt [] r d h = cc
member-add_payload_types pt (t ∷ pts) r d h =
    let set : List ℕ = add r (or_empty (lookup t d)) in
    elim (Bool-cases (pt == t)) [
      | inl e ↦
          let same : pt ≡ t = (==_iff pt t).0 e in
          add_payload_types_kept pt pts r r (insert t set d)
            (rw (same, lookup-insert t set d) (member-add r (or_empty (lookup t d))))
      | inr e ↦ member-add_payload_types pt pts r (insert t set d) (rw e at h)
    ]

-- A packet with one of the SSRCs and one of the payload types that a receiver was just registered
-- with goes to that receiver, and the router stays as it is.
pub route_rtp-register_receiver :
    (r : ℕ) (ssrcs pts : List ℕ) (mid : Option Str) (s : RtpRouter) (packet : RtpPacket)
    → member packet.ssrc ssrcs ≡ true
    → member packet.payload_type pts ≡ true
    → route_rtp packet (register_receiver r ssrcs pts mid s)
      ≡ (some r, register_receiver r ssrcs pts mid s)
unfolding route_rtp register_receiver
route_rtp-register_receiver r ssrcs pts mid s packet h k =
    rw
      (
        lookup-add_ssrcs packet.ssrc ssrcs r s.ssrc_table h,
        member-add_payload_types packet.payload_type pts r s.payload_type_table k,
      )
      refl

-- Where the tables give a receiver, it takes the payload type, and the table has it for the SSRC.
pub route_by-given :
    (o : Option ℕ) (rs : List ℕ) (ssrc : ℕ) (s : RtpRouter) (r : ℕ)
    → lookup ssrc s.ssrc_table ≡ o
    → (route_by o rs ssrc s).0 ≡ some r
    → (member r rs ≡ true)
      × (lookup ssrc ((route_by o rs ssrc s).1.ssrc_table) ≡ some r)
      × ((route_by o rs ssrc s).1.payload_type_table ≡ s.payload_type_table)
route_by-given (some x) rs ssrc s r l h = elim (Bool-cases (member x rs)) [
  | inl t ↦
      let same : some x ≡ some r = rw t at h in
      let found : x ≡ r = cc in rw t (rw found at t, l ∙ same, refl)
  | inr t ↦ let never : none ≡ some r = rw t at h in cc
]
route_by-given none [] ssrc s r l h = cc
route_by-given none (a ∷ b ∷ rs) ssrc s r l h = cc
route_by-given none (a ∷ []) ssrc s r l h =
    let found : a ≡ r = cc in
    rw found (rw ((==_iff r r).1 refl) refl, lookup-insert ssrc r s.ssrc_table, refl)

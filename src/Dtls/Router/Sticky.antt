-- ===== src/Dtls/Router/Sticky.antt =====
-- transport/rtcdtlstransport.py: a stream stays with its receiver.
use pure_webrtc_transport.Base.{
  ℕ, true, false, Option, none, some, List, [], ◌∷◌, ◌==◌, ==_iff, ◌≡◌, ◌≢◌, ◌⊎◌, refl, sym, ◌∙◌,
  All, Bool-cases, inl, inr, arith,
}
use pure_webrtc_transport.Base.Dict.{
  Dict, lookup, discard, nat_key, member, remove, lookup-insert_other,
}
use pure_webrtc_transport.Rtp.Packet.{RtpPacket}
use pure_webrtc_transport.Dtls.Router.{
  RtpRouter, or_empty, register_receiver, register_sender, remove_from_sets, unregister_receiver,
  unregister_sender, route_by, route_rtp, Event, registers_receiver, registers_sender,
  unregisters_receiver, unregisters_sender, routes_rtp, step, run,
}
use pure_webrtc_transport.Dtls.Router.Routing.{
  takers, add_ssrcs_kept, lookup-add_ssrcs_other, add_payload_types_kept, route_by-given,
}

-- The tables lead from the SSRC and the payload type to the receiver.
abbrev pub Leads : (ssrc pt r : ℕ) → RtpRouter → Type 0
Leads ssrc pt r s = (lookup ssrc s.ssrc_table ≡ some r) × (member r (takers pt s) ≡ true)

-- A call that neither unregisters the receiver nor registers another one with the SSRC.
unfoldable pub Keeps : (ssrc r : ℕ) → Event → Type 0
Keeps ssrc r (registers_receiver x ssrcs pts mid) = (x ≡ r) ⊎ (member ssrc ssrcs ≡ false)
Keeps ssrc r (unregisters_receiver x) = x ≢ r
Keeps ssrc r _ = Unit {0}

ne-test : (a b : ℕ) → a ≢ b → (a == b) ≡ false
ne-test a b h = ground (arith, h)

lookup-discard :
    (k x r : ℕ) (d : Dict ℕ ℕ)
    → x ≢ r
    → lookup k d ≡ some r
    → lookup k (discard (λ v. v == x) d) ≡ some r
lookup-discard k x r [] ne h = h
lookup-discard k x r ((a, v) ∷ d) ne h = elim (Bool-cases (k == a)) [
  | inl e ↦
      let same : some v ≡ some r = rw e at h in
      let value : v ≡ r = cc in
      let stays : (v == x) ≡ false = ne-test v x (λ q. ne (sym q ∙ value)) in rw (stays, e) same
  | inr e ↦
      let later = lookup-discard k x r d ne (rw e at h) in
      elim (Bool-cases (v == x)) [ inl t ↦ rw t later | inr t ↦ rw (t, e) later ]
]

member-remove : (x r : ℕ) (xs : List ℕ) → x ≢ r → member r xs ≡ true → member r (remove x xs) ≡ true
member-remove x r [] ne h = h
member-remove x r (y ∷ ys) ne h = elim (Bool-cases (r == y)) [
  | inl e ↦
      let same : r ≡ y = (==_iff r y).0 e in
      let stays : (x == y) ≡ false = ne-test x y (λ q. ne (q ∙ sym same)) in rw (stays, e) refl
  | inr e ↦
      let later = member-remove x r ys ne (rw e at h) in
      elim (Bool-cases (x == y)) [ inl t ↦ rw t later | inr t ↦ rw (t, e) later ]
]

member-remove_from_sets :
    (pt x r : ℕ) (d : Dict ℕ (List ℕ))
    → x ≢ r
    → member r (or_empty (lookup pt d)) ≡ true
    → member r (or_empty (lookup pt (remove_from_sets x d))) ≡ true
member-remove_from_sets pt x r [] ne h = h
member-remove_from_sets pt x r ((a, rs) ∷ d) ne h = elim (Bool-cases (pt == a)) [
  | inl e ↦ rw e (member-remove x r rs ne (rw e at h))
  | inr e ↦ rw e (member-remove_from_sets pt x r d ne (rw e at h))
]

route_by-Leads :
    (o : Option ℕ) (rs : List ℕ) (q ssrc pt r : ℕ) (s : RtpRouter)
    → lookup q s.ssrc_table ≡ o
    → Leads ssrc pt r s
    → Leads ssrc pt r ((route_by o rs q s).1)
route_by-Leads (some x) rs q ssrc pt r s e h = elim (Bool-cases (member x rs)) [
  | inl t ↦ rw t h
  | inr t ↦ rw t h
]
route_by-Leads none [] q ssrc pt r s e h = h
route_by-Leads none (a ∷ b ∷ rs) q ssrc pt r s e h = h
route_by-Leads none (a ∷ []) q ssrc pt r s e (known, takes) =
    let other : (ssrc == q) ≡ false =
      ne-test ssrc q (λ same. let never : none ≡ some r = sym e ∙ rw (← same) known in cc) in
    (lookup-insert_other ssrc q a s.ssrc_table other ∙ known, takes)

step-Leads :
    (ssrc pt r : ℕ) (e : Event) (s : RtpRouter)
    → Keeps ssrc r e
    → Leads ssrc pt r s
    → Leads ssrc pt r (step e s)
unfolding Keeps step register_receiver register_sender unregister_receiver unregister_sender
    route_rtp
step-Leads ssrc pt r (registers_receiver x ssrcs pts mid) s (inl same) (known, takes) = (
  rw same (add_ssrcs_kept ssrc ssrcs r s.ssrc_table known),
  add_payload_types_kept pt pts x r s.payload_type_table takes,
)
step-Leads ssrc pt r (registers_receiver x ssrcs pts mid) s (inr absent) (known, takes) = (
  lookup-add_ssrcs_other ssrc ssrcs x s.ssrc_table absent ∙ known,
  add_payload_types_kept pt pts x r s.payload_type_table takes,
)
step-Leads ssrc pt r (registers_sender sender q) s k h = h
step-Leads ssrc pt r (unregisters_receiver x) s ne (known, takes) = (
  lookup-discard ssrc x r s.ssrc_table ne known,
  member-remove_from_sets pt x r s.payload_type_table ne takes,
)
step-Leads ssrc pt r (unregisters_sender sender) s k h = h
step-Leads ssrc pt r (routes_rtp p) s k h =
    route_by-Leads (lookup p.ssrc s.ssrc_table) (takers p.payload_type s) p.ssrc ssrc pt r s refl h

run-Leads :
    (ssrc pt r : ℕ) (events : List Event) (s : RtpRouter)
    → All (Keeps ssrc r) events
    → Leads ssrc pt r s
    → Leads ssrc pt r (run events s)
unfolding run
run-Leads ssrc pt r [] s k h = h
run-Leads ssrc pt r (e ∷ events) s (k, ks) h =
    run-Leads ssrc pt r events (step e s) ks (step-Leads ssrc pt r e s k h)

-- A packet is routed only to a receiver that takes its payload type. After any calls that neither
-- unregister this receiver nor register another one with the packet's SSRC, packets of other streams
-- among them, a packet with the same SSRC and payload type goes to the same receiver, and the router
-- stays as it is.
pub route_rtp-sticky :
    (s : RtpRouter) (packet next : RtpPacket) (r : ℕ) (events : List Event)
    → (route_rtp packet s).0 ≡ some r
    → next.ssrc ≡ packet.ssrc
    → next.payload_type ≡ packet.payload_type
    → All (Keeps packet.ssrc r) events
    → let after = run events (route_rtp packet s).1 in
      (member r (takers packet.payload_type s) ≡ true) × (route_rtp next after ≡ (some r, after))
unfolding route_rtp
route_rtp-sticky s packet next r events h e₁ e₂ keeps =
    let (takes, known, table) =
      route_by-given (lookup packet.ssrc s.ssrc_table) (takers packet.payload_type s) packet.ssrc s
        r refl h in
    let (knows, still) =
      run-Leads packet.ssrc packet.payload_type r events (route_rtp packet s).1 keeps
        (known, rw table takes) in
    (takes, rw (e₁, e₂, knows, still) refl)

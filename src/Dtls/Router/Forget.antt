-- ===== src/Dtls/Router/Forget.antt =====
-- transport/rtcdtlstransport.py: the router holds no receiver that is not registered.
use pure_webrtc_transport.Base.{
  ℕ, Option, none, some, List, [], ◌∷◌, ◌==◌, ◌≡◌, ◌≢◌, refl, subst, All, Bool-cases, inl, inr,
}
use pure_webrtc_transport.Base.Dict.{
  Dict, lookup, insert, nat_key, string_key, member, add, lookup-All, insert-All, discard-All,
  discard-ne, add-All, remove-All, remove-not,
}
use pure_webrtc_transport.Text.{Str}
use pure_webrtc_transport.Rtp.Packet.{RtpPacket}
use pure_webrtc_transport.Dtls.Router.{
  RtpRouter, or_empty, add_mid, add_ssrcs, add_payload_types, register_receiver, register_sender,
  remove_from_sets, unregister_receiver, unregister_sender, route_by, route_rtp, Event,
  registers_receiver, registers_sender, unregisters_receiver, unregisters_sender, routes_rtp, step,
  run,
}

-- Every receiver that the tables hold has P.
pub record Within (P : ℕ → Type 0) (s : RtpRouter) : Type 0 where
  pub receivers : All P s.receivers
  pub mids : All (λ e. P (e.1)) s.mid_table
  pub ssrcs : All (λ e. P (e.1)) s.ssrc_table
  pub payload_types : All (λ e. All P (e.1)) s.payload_type_table

module _ (P : ℕ → Type 0) where
  or_empty-All :
      (pt : ℕ) (d : Dict ℕ (List ℕ)) → All (λ e. All P (e.1)) d → All P (or_empty (lookup pt d))
  or_empty-All pt d h = go (lookup pt d) refl
    where
      go : (o : Option (List ℕ)) → lookup pt d ≡ o → All P (or_empty o)
      go none e = tt
      go (some rs) e = lookup-All (All P) pt d h e

  add_ssrcs-All :
      (ssrcs : List ℕ) (r : ℕ) (d : Dict ℕ ℕ)
      → P r
      → All (λ e. P (e.1)) d
      → All (λ e. P (e.1)) (add_ssrcs ssrcs r d)
  add_ssrcs-All [] r d p h = h
  add_ssrcs-All (ssrc ∷ ssrcs) r d p h =
      add_ssrcs-All ssrcs r (insert ssrc r d) p (insert-All P ssrc r d p h)

  add_payload_types-All :
      (pts : List ℕ) (r : ℕ) (d : Dict ℕ (List ℕ))
      → P r
      → All (λ e. All P (e.1)) d
      → All (λ e. All P (e.1)) (add_payload_types pts r d)
  add_payload_types-All [] r d p h = h
  add_payload_types-All (pt ∷ pts) r d p h =
      let set : List ℕ = add r (or_empty (lookup pt d)) in
      add_payload_types-All pts r (insert pt set d) p (
        insert-All (All P) pt set d (add-All P r (or_empty (lookup pt d)) p (or_empty-All pt d h))
          h)

  add_mid-All :
      (mid : Option Str) (r : ℕ) (d : Dict Str ℕ)
      → P r
      → All (λ e. P (e.1)) d
      → All (λ e. P (e.1)) (add_mid mid r d)
  add_mid-All none r d p h = h
  add_mid-All (some mid) r d p h = insert-All P mid r d p h

  remove_from_sets-All :
      (r : ℕ) (d : Dict ℕ (List ℕ))
      → All (λ e. All P (e.1)) d
      → All (λ e. All P (e.1)) (remove_from_sets r d)
  remove_from_sets-All r [] h = tt
  remove_from_sets-All r ((pt, rs) ∷ d) (h, hs) = (remove-All P r rs h, remove_from_sets-All r d hs)

  register_receiver-Within :
      (r : ℕ) (ssrcs pts : List ℕ) (mid : Option Str) (s : RtpRouter)
      → P r
      → Within P s
      → Within P (register_receiver r ssrcs pts mid s)
  unfolding register_receiver
  register_receiver-Within r ssrcs pts mid s p w = record {
    receivers = add-All P r s.receivers p w.receivers;
    mids = add_mid-All mid r s.mid_table p w.mids;
    ssrcs = add_ssrcs-All ssrcs r s.ssrc_table p w.ssrcs;
    payload_types = add_payload_types-All pts r s.payload_type_table p w.payload_types;
  }

  unregister_receiver-Within :
      (r : ℕ) (s : RtpRouter) → Within P s → Within P (unregister_receiver r s)
  unfolding unregister_receiver
  unregister_receiver-Within r s w = record {
    receivers = remove-All P r s.receivers w.receivers;
    mids = discard-All P (λ v. v == r) s.mid_table w.mids;
    ssrcs = discard-All P (λ v. v == r) s.ssrc_table w.ssrcs;
    payload_types = remove_from_sets-All r s.payload_type_table w.payload_types;
  }

  -- Whom the tables give, and the tables after it.
  route_by-Within :
      (o : Option ℕ) (rs : List ℕ) (ssrc : ℕ) (s : RtpRouter)
      → Within P s
      → ((r : ℕ) → o ≡ some r → P r)
      → All P rs
      → Within P ((route_by o rs ssrc s).1) × ((r : ℕ) → (route_by o rs ssrc s).0 ≡ some r → P r)
  route_by-Within (some r) rs ssrc s w h hs = elim (Bool-cases (member r rs)) [
    | inl t ↦ rw t (w, h)
    | inr t ↦ rw t (w, λ r e. cc)
  ]
  route_by-Within none [] ssrc s w h hs = (w, λ r e. cc)
  route_by-Within none (a ∷ b ∷ rs) ssrc s w h hs = (w, λ r e. cc)
  route_by-Within none (a ∷ []) ssrc s w h (p, hs) = (
    record {
      receivers = w.receivers;
      mids = w.mids;
      ssrcs = insert-All P ssrc a s.ssrc_table p w.ssrcs;
      payload_types = w.payload_types;
    },
    λ r e. let same : a ≡ r = cc in subst P same p,
  )

  pub route_rtp-Within :
      (packet : RtpPacket) (s : RtpRouter)
      → Within P s
      → Within P ((route_rtp packet s).1) × ((r : ℕ) → (route_rtp packet s).0 ≡ some r → P r)
  unfolding route_rtp
  route_rtp-Within packet s w =
      route_by-Within (lookup packet.ssrc s.ssrc_table)
        (or_empty (lookup packet.payload_type s.payload_type_table)) packet.ssrc s w
        (λ r e. lookup-All P packet.ssrc s.ssrc_table w.ssrcs e)
        (or_empty-All packet.payload_type s.payload_type_table w.payload_types)

  -- What an event registers has P.
  unfoldable pub Registers : Event → Type 0
  Registers (registers_receiver r ssrcs pts mid) = P r
  Registers _ = Unit {0}

  step-Within : (e : Event) (s : RtpRouter) → Registers e → Within P s → Within P (step e s)
  unfolding Registers step register_sender unregister_sender
  step-Within (registers_receiver r ssrcs pts mid) s p w =
      register_receiver-Within r ssrcs pts mid s p w
  step-Within (registers_sender sender ssrc) s p w = record {
    receivers = w.receivers;
    mids = w.mids;
    ssrcs = w.ssrcs;
    payload_types = w.payload_types;
  }
  step-Within (unregisters_receiver r) s p w = unregister_receiver-Within r s w
  step-Within (unregisters_sender sender) s p w = record {
    receivers = w.receivers;
    mids = w.mids;
    ssrcs = w.ssrcs;
    payload_types = w.payload_types;
  }
  step-Within (routes_rtp packet) s p w = (route_rtp-Within packet s w).0

  pub run-Within :
      (es : List Event) (s : RtpRouter) → All Registers es → Within P s → Within P (run es s)
  unfolding run
  run-Within [] s h w = w
  run-Within (e ∷ es) s (h, hs) w = run-Within es (step e s) hs (step-Within e s h w)

sets-ne : (r : ℕ) (d : Dict ℕ (List ℕ)) → All (λ e. All (λ x. x ≢ r) (e.1)) (remove_from_sets r d)
sets-ne r [] = tt
sets-ne r ((pt, rs) ∷ d) = (remove-not r rs, sets-ne r d)

unregistered-Within : (r : ℕ) (s : RtpRouter) → Within (λ x. x ≢ r) (unregister_receiver r s)
unfolding unregister_receiver
unregistered-Within r s = record {
  receivers = remove-not r s.receivers;
  mids = discard-ne r s.mid_table;
  ssrcs = discard-ne r s.ssrc_table;
  payload_types = sets-ne r s.payload_type_table;
}

-- Once a receiver is unregistered, no packet is routed to it, whatever calls come in between, as
-- long as none of them registers it again.
pub unregister_receiver-not_routed :
    (r : ℕ) (s : RtpRouter) (events : List Event) (packet : RtpPacket)
    → All (Registers (λ x. x ≢ r)) events
    → (route_rtp packet (run events (unregister_receiver r s))).0 ≢ some r
unregister_receiver-not_routed r s events packet h =
    let P : ℕ → Type 0 = λ x. x ≢ r in
    let within = run-Within P events (unregister_receiver r s) h (unregistered-Within r s) in
    λ e. (route_rtp-Within P packet (run events (unregister_receiver r s)) within).1 r e refl

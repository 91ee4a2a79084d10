-- ===== src/Ice/Phases.antt =====
-- The states of RTCIceTransport along the steps.
use pure_webrtc_transport.Base.{
  Bool, true, false, Bool-cases, inl, inr, ◌≡◌, subst, ◌≢◌, refl, sym, if◌then◌else◌,
}
use pure_webrtc_transport.Base.Result.{ok, raise, invalid_state_error}
use pure_webrtc_transport.Peer.States.{
  IceState, ice_new, ice_checking, ice_completed, ice_failed, ice_closed, same_ice,
}
use pure_webrtc_transport.Peer.States.Tests.{same_ice-eq}
use pure_webrtc_transport.Ice.{
  Progress, IceTransport, Step, Steps, not_started, connecting, ended, new_ice_transport,
  set_ice_state, proceed, begin_start, end_start, stop_ice, on_connection_closed, starts, connects,
  stops, loses, stay, next,
}

-- The states that go with what `start` has done.
abbrev pub fits : Progress → IceState → Bool
fits not_started ice_new = true
fits connecting ice_checking = true
fits ended ice_completed = true
fits ended ice_failed = true
fits _ ice_closed = true
fits _ _ = false

set_ice_state-state : (state : IceState) (s : IceTransport) → (set_ice_state state s).state ≡ state
set_ice_state-state state s = elim (Bool-cases (same_ice state s.state)) [
  | inl e ↦ rw e (sym (same_ice-eq state s.state e))
  | inr e ↦ rw e refl
]

set_ice_state-progress :
    (state : IceState) (s : IceTransport) → (set_ice_state state s).progress ≡ s.progress
set_ice_state-progress state s = elim (Bool-cases (same_ice state s.state)) [
  | inl e ↦ rw e refl
  | inr e ↦ rw e refl
]

fits_closed : (p : Progress) → fits p ice_closed ≡ true
fits_closed not_started = refl
fits_closed connecting = refl
fits_closed ended = refl

-- Whether it connects or not, the state goes with the end of `start`.
fits_outcome :
    (connected : Bool) → fits ended (if connected then ice_completed else ice_failed) ≡ true
fits_outcome true = refl
fits_outcome false = refl

proceed-fits :
    (p : Progress) (s : IceTransport)
    → s.progress ≡ p
    → fits s.progress s.state ≡ true
    → fits (proceed p s).progress (proceed p s).state ≡ true
proceed-fits not_started s e h =
    let s1 = record s { progress = connecting; monitoring = true } in
    rw (set_ice_state-state ice_checking s1, set_ice_state-progress ice_checking s1) refl
proceed-fits connecting s e h = h
proceed-fits ended s e h = h

begin_start-fits :
    (s t : IceTransport)
    → begin_start s ≡ ok t
    → fits s.progress s.state ≡ true
    → fits t.progress t.state ≡ true
unfolding begin_start
begin_start-fits s t e h = elim (Bool-cases (same_ice s.state ice_closed)) [
  | inl c ↦ let never : raise invalid_state_error ≡ ok t = rw c at e in cc
  | inr c ↦
      let begun : ok (proceed s.progress s) ≡ ok t = rw c at e in
      let same : proceed s.progress s ≡ t = cc in
      subst (λ x. fits x.progress x.state ≡ true) same (proceed-fits s.progress s refl h)
]

-- A transport that has completed is at the end of `start`.
completed_ended : (p : Progress) → fits p ice_completed ≡ true → fits p ice_failed ≡ true
completed_ended not_started h = cc
completed_ended connecting h = cc
completed_ended ended h = refl

fits-Step :
    (s t : IceTransport)
    → Step s t
    → fits s.progress s.state ≡ true
    → fits t.progress t.state ≡ true
unfolding end_start stop_ice on_connection_closed
fits-Step s t (starts _ _ e) h = begin_start-fits s t e h
fits-Step s _ (connects _ c e) h =
    rw (set_ice_state-state (if c then ice_completed else ice_failed) s) (fits_outcome c)
fits-Step s _ (stops _) h =
    rw (set_ice_state-state ice_closed s) (fits_closed (set_ice_state ice_closed s).progress)
fits-Step s _ (loses _ e) h = elim (Bool-cases (same_ice s.state ice_completed)) [
  | inl c ↦
      let completed = same_ice-eq s.state ice_completed c in
      rw (c, set_ice_state-state ice_failed s, set_ice_state-progress ice_failed s)
        (completed_ended s.progress (rw completed at h))
  | inr c ↦ rw c h
]

-- Along any steps from a new transport, the state goes with what `start` has done: before it, new or
-- closed; while it connects, checking or closed; after it, completed, failed or closed.
pub fits-Steps : (s : IceTransport) → Steps new_ice_transport s → fits s.progress s.state ≡ true
unfolding new_ice_transport
fits-Steps s steps = go new_ice_transport s steps fits_new
  where
    fits_new : fits new_ice_transport.progress new_ice_transport.state ≡ true
    fits_new = refl

    go :
        (s t : IceTransport)
        → Steps s t
        → fits s.progress s.state ≡ true
        → fits t.progress t.state ≡ true
    go s _ (stay _) h = h
    go s _ (next _ t u before step) h = fits-Step t u step (go s t before h)

closed-Step :
    (s t : IceTransport)
    → Step s t
    → s.state ≡ ice_closed
    → s.progress ≢ connecting
    → (t.state ≡ ice_closed) × (t.progress ≢ connecting)
unfolding begin_start stop_ice on_connection_closed
closed-Step s t (starts _ _ e) h idle =
    let never : raise invalid_state_error ≡ ok t = rw h at e in cc
closed-Step s _ (connects _ c e) h idle = absurd (idle e)
closed-Step s _ (stops _) h idle =
    (set_ice_state-state ice_closed s, rw (set_ice_state-progress ice_closed s) idle)
closed-Step s _ (loses _ e) h idle = rw h (refl, idle)

-- A closed transport that is not in `connect` stays closed, whatever steps follow.
pub closed-Steps :
    (s t : IceTransport)
    → Steps s t
    → s.state ≡ ice_closed
    → s.progress ≢ connecting
    → (t.state ≡ ice_closed) × (t.progress ≢ connecting)
closed-Steps s _ (stay _) h idle = (h, idle)
closed-Steps s _ (next _ t u before step) h idle =
    let (closed, still) = closed-Steps s t before h idle in closed-Step t u step closed still

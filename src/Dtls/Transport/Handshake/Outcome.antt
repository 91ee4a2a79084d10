-- ===== src/Dtls/Transport/Handshake/Outcome.antt =====
-- `RTCDtlsTransport.start`: the states that it can leave.
use pure_webrtc_transport.Base.{
  ℕ, zero, suc, Bool, true, false, not, ◌&&◌, Bool-cases, ◌⊎◌, inl, inr, some, List, ◌∷◌, ◌≡◌, ◌≢◌,
  refl, ap, sym, subst, ◌∙◌, if◌then◌else◌,
}
use pure_webrtc_transport.Base.Int.{pos, ltb_ℤ}
use pure_webrtc_transport.Base.Result.{
  Result, ok, raise, stuck, is_connection_error, assertion_error,
}
use pure_webrtc_transport.Struct.{Bytes}
use pure_webrtc_transport.Dtls.Action.{◌>>=◌, continue_with, modify, Preserves}
use pure_webrtc_transport.Dtls.Transport.{
  Library, Transport, State, new, connecting, connected, failed, same_state, set_state, set_role,
  write_ssl,
}
use pure_webrtc_transport.Dtls.Transport.Receive.{Act, recv_next}
use pure_webrtc_transport.Dtls.Transport.Receive.Preserved.{
  Control, control, write_ssl-Keeps, recv_next-Keeps,
}
use pure_webrtc_transport.Dtls.Transport.Handshake.{
  Fingerprint, fingerprint_is_valid, srtp_keys, role_for, is_new, handshake_loop, fail_if_lost,
  handshake, connect, check_peer, after_handshake, is_empty, start,
}

module _ (L : Library) where
  -- `_set_state` on the view.
  move : State → Control L → Control L
  move state c =
      if same_state state c.state
      then c
      else record c { state = state; changes = state ∷ c.changes }

  control-set_state :
      (state : State) (s : Transport L) → control L (set_state L state s) ≡ move state (control L s)
  unfolding set_state move
  control-set_state state s = elim (Bool-cases (same_state state s.state)) [
    | inl e ↦ rw e refl
    | inr e ↦ rw e refl
  ]

  -- How the handshake ends, by its answer.
  Ends : Control L → Result Bool × Transport L → Type 0
  Ends c (ok true, s) = control L s ≡ c
  Ends c (ok false, s) = control L s ≡ move failed c
  Ends c (raise e, s) = control L s ≡ c
  Ends c (stuck, s) = control L s ≡ c

  continue-Ends :
      {A : Type 0} (c : Control L) (r : Result A) (next : A → Act L Bool) (s : Transport L)
      → control L s ≡ c
      → ((a : A) (t : Transport L) → control L t ≡ c → Ends c (next a t))
      → Ends c (continue_with r next s)
  unfolding Ends
  continue-Ends c (ok a) next s h k = k a s h
  continue-Ends c (raise e) next s h k = h
  continue-Ends c stuck next s h k = h

  Ends-if :
      (c : Control L) (b : Bool) (m n : Result Bool × Transport L)
      → Ends c m
      → Ends c n
      → Ends c (if b then m else n)
  Ends-if c true m n h k = h
  Ends-if c false m n h k = k

  fails-Ends :
      (c : Control L) (s : Transport L) → control L s ≡ c → Ends c (ok false, set_state L failed s)
  unfolding Ends
  fails-Ends c s h = control-set_state failed s ∙ ap (move failed) h

  handshake_loop-Ends :
      (fuel : ℕ) (c : Control L) (s : Transport L)
      → control L s ≡ c
      → Ends c (handshake_loop L fuel s)
  unfolding Ends Preserves
  handshake_loop-Ends zero c s h = h
  handshake_loop-Ends (suc fuel) c s h =
      let result = (L.do_handshake s.world).0 in
      let stepped : Transport L = record s { world = (L.do_handshake s.world).1 } in
      Ends-if c s.encrypted (ok true, s) _ h
        (continue-Ends c ((write_ssl L stepped).0) _ ((write_ssl L stepped).1)
          (write_ssl-Keeps L stepped ∙ h)
          (λ done t k.
            Ends-if c (ltb_ℤ (pos 0) result) (ok true, record t { encrypted = true }) _ k
              (Ends-if c (L.wants_read result t.world) _ (ok false, set_state L failed t)
                (continue-Ends c ((recv_next L t).0) (λ d. handshake_loop L fuel)
                  ((recv_next L t).1) (recv_next-Keeps L t ∙ k)
                  (λ d u l. handshake_loop-Ends fuel c u l))
                (fails-Ends c t k))))

  handshake-Ends :
      (fuel : ℕ) (c : Control L) (s : Transport L) → control L s ≡ c → Ends c (handshake L fuel s)
  unfolding handshake Ends
  handshake-Ends fuel c s h = lost (handshake_loop L fuel s) (handshake_loop-Ends fuel c s h)
    where
      lost : (o : Result Bool × Transport L) → Ends c o → Ends c (fail_if_lost L o)
      lost (ok b, t) k = k
      lost (stuck, t) k = k
      lost (raise e, t) k =
          Ends-if c (is_connection_error e) (ok false, set_state L failed t) (raise e, t)
            (fails-Ends c t k) k

  -- The parts of the transport that `start` decides, once it has set the role and the first state.
  unfoldable pub begun : Transport L → Control L
  begun self = record (control L self) {
    state = connecting;
    changes = connecting ∷ self.changes;
    role = role_for self.role self.is_controlling;
  }

  -- `start` waits on, or was left by an exception.
  pub record Waits (self : Transport L) (o : Result (Unit {0}) × Transport L) : Type 0 where
    pub open_end : o.0 ≢ ok tt
    pub control_eq : control L o.1 ≡ begun self

  -- `start` returns after a failure: no keys, no task.
  pub record Fails (self : Transport L) (o : Result (Unit {0}) × Transport L) : Type 0 where
    pub returns : o.0 ≡ ok tt
    pub control_eq :
        control L o.1
        ≡ record (begun self) { state = failed; changes = failed ∷ connecting ∷ self.changes }

  -- `start` returns with the keys of the role and the data pump as a task.
  pub record Connects (fingerprints : List Fingerprint) (self : Transport L)
      (o : Result (Unit {0}) × Transport L) : Type 0 where
    pub returns : o.0 ≡ ok tt
    pub peer_eq : fingerprint_is_valid fingerprints (L.peer_digest o.1.world) ≡ true
    pub view : Bytes
    pub view_eq : L.export o.1.world ≡ ok view
    pub control_eq : control L o.1 ≡ record (begun self) {
      state = connected;
      changes = connected ∷ connecting ∷ self.changes;
      has_task = true;
      rx_srtp = some (srtp_keys (role_for self.role self.is_controlling) view).1;
      tx_srtp = some (srtp_keys (role_for self.role self.is_controlling) view).0;
    }

  abbrev pub Started : List Fingerprint → Transport L → Result (Unit {0}) × Transport L → Type 0
  Started fingerprints self o = Waits self o ⊎ (Fails self o ⊎ Connects fingerprints self o)

  with_task : Control L → Control L
  with_task c = record c { has_task = true }

  connect_control : Bytes → Control L → Control L
  connect_control view c =
      let keys = srtp_keys c.role view in
      with_task (move connected (record c { rx_srtp = some (keys.1); tx_srtp = some (keys.0) }))

  control-connect :
      (view : Bytes) (s : Transport L)
      → control L (connect L view s) ≡ connect_control view (control L s)
  unfolding connect connect_control with_task
  control-connect view s =
      let keys = srtp_keys s.role view in
      ap with_task (
        control-set_state connected (record s { rx_srtp = some (keys.1); tx_srtp = some (keys.0) }))

  connect_world : (view : Bytes) (s : Transport L) → (connect L view s).world ≡ s.world
  unfolding connect set_state
  connect_world view s = elim (Bool-cases (same_state connected s.state)) [
    | inl e ↦ rw e refl
    | inr e ↦ rw e refl
  ]

  exported-Started :
      (fingerprints : List Fingerprint) (self s : Transport L) (r : Result Bytes)
      → control L s ≡ begun self
      → fingerprint_is_valid fingerprints (L.peer_digest s.world) ≡ true
      → L.export s.world ≡ r
      → Started fingerprints self (continue_with r (λ view. modify (connect L view)) s)
  unfolding begun connect_control with_task move
  exported-Started fingerprints self s (ok view) h p e = inr (
      inr record {
        returns = refl;
        peer_eq = rw (connect_world view s) p;
        view = view;
        view_eq = rw (connect_world view s) e;
        control_eq = control-connect view s ∙ ap (connect_control view) h;
      })
  exported-Started fingerprints self s (raise x) h p e =
      inl record { open_end = λ q. cc; control_eq = h }
  exported-Started fingerprints self s stuck h p e =
      inl record { open_end = λ q. cc; control_eq = h }

  check_peer-Started :
      (fingerprints : List Fingerprint) (self s : Transport L)
      → control L s ≡ begun self
      → Started fingerprints self (check_peer L fingerprints s)
  unfolding check_peer begun move
  check_peer-Started fingerprints self s h =
      elim (Bool-cases (fingerprint_is_valid fingerprints (L.peer_digest s.world))) [
        | inl e ↦ rw e (exported-Started fingerprints self s (L.export s.world) h e refl)
        | inr e ↦ rw e (
            inr (
              inl record {
                returns = refl;
                control_eq = control-set_state failed s ∙ ap (move failed) h;
              }))
      ]

  after-Started :
      (fingerprints : List Fingerprint) (self : Transport L) (o : Result Bool × Transport L)
      → Ends (begun self) o
      → Started fingerprints self (continue_with (o.0) (after_handshake L fingerprints) (o.1))
  unfolding Ends begun move
  after-Started fingerprints self (ok true, s) h = check_peer-Started fingerprints self s h
  after-Started fingerprints self (ok false, s) h =
      inr (inl record { returns = refl; control_eq = h })
  after-Started fingerprints self (raise e, s) h = inl record { open_end = λ q. cc; control_eq = h }
  after-Started fingerprints self (stuck, s) h = inl record { open_end = λ q. cc; control_eq = h }

  -- From the state NEW and with a fingerprint to expect, `start` has three ends, however long the
  -- handshake takes. It waits on, or is left by an exception, in the state CONNECTING; or it returns in
  -- the state FAILED, with neither keys nor a task; or it returns in the state CONNECTED with the data
  -- pump as its task, which it does only if one of the fingerprints is that of the peer's certificate,
  -- and then the keys to send and to receive with are those of its role in the exported material.
  -- The events "statechange" are CONNECTING and then FAILED or CONNECTED, each once.
  pub start-Started :
      (fuel : ℕ) (fingerprints : List Fingerprint) (self : Transport L)
      → self.state ≡ new
      → is_empty L fingerprints ≡ false
      → Started fingerprints self (start L fuel fingerprints self)
  unfolding start begun set_role move
  start-Started fuel fingerprints self h e =
      let role = role_for self.role self.is_controlling in
      let first = set_state L connecting (set_role L role self) in
      let first_control : control L first ≡ begun self =
        control-set_state connecting (set_role L role self) ∙ rw h refl in
      let allowed : (is_new self.state && not (is_empty L fingerprints)) ≡ true = rw (h, e) refl in
      let run : start L fuel fingerprints self
          ≡ (handshake L fuel >>= after_handshake L fingerprints) first =
        ap
          (λ b.
            if b
            then (handshake L fuel >>= after_handshake L fingerprints) first
            else (raise assertion_error, self))
          allowed in
      subst (λ o. Started fingerprints self o) (sym run)
        (after-Started fingerprints self (handshake L fuel first)
          (handshake-Ends fuel (begun self) first first_control))

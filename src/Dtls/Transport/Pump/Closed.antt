-- ===== src/Dtls/Transport/Pump/Closed.antt =====
-- `RTCDtlsTransport.__run`: how the data pump ends.
use pure_webrtc_transport.Base.{
  ℕ, zero, suc, ◌≤◌, ◌≡◌, ◌≢◌, refl, ap, ◌∙◌, Bool-cases, inl, inr, List, [], ◌∷◌, arith,
}
use pure_webrtc_transport.Base.Result.{Result, ok, raise, stuck, Exception, is_connection_error}
use pure_webrtc_transport.Dtls.Action.{continue_with, Preserves, >>=-Preserves}
use pure_webrtc_transport.Dtls.Transport.{
  Library, Transport, connected, closed, to_disconnect, Delivery, set_state,
}
use pure_webrtc_transport.Dtls.Transport.Receive.{Act, recv_next}
use pure_webrtc_transport.Dtls.Transport.Receive.Preserved.{control, recv_next-Keeps}
use pure_webrtc_transport.Dtls.Transport.Pump.{pump, disconnect_all, on_disconnect, close, run}

module _ (L : Library) where
  continue_mono :
      (m n : Unit {0} → Act L (Unit {0})) (r : Result (Unit {0})) (t : Transport L) (e : Exception)
      → ((u : Transport L) → (n tt u).0 ≡ raise e → m tt u ≡ n tt u)
      → (continue_with r n t).0 ≡ raise e
      → continue_with r m t ≡ continue_with r n t
  continue_mono m n (ok done) t e k h = k t h
  continue_mono m n (raise x) t e k h = refl
  continue_mono m n stuck t e k h = refl

  -- More fuel does not change a pump that an exception has ended.
  pump_mono :
      (n m : ℕ) (s : Transport L) (e : Exception)
      → (pump L n s).0 ≡ raise e
      → n ≤ m
      → pump L m s ≡ pump L n s
  pump_mono zero m s e h k = cc
  pump_mono (suc n) zero s e h k = absurd (omega arith)
  pump_mono (suc n) (suc m) s e h k =
      continue_mono (λ done. pump L m) (λ done. pump L n) ((recv_next L s).0) ((recv_next L s).1) e
        (λ u p. pump_mono n m u e p (omega arith)) h

  pump-Preserves : (n : ℕ) → Preserves (control L) (pump L n)
  unfolding Preserves
  pump-Preserves zero = λ s. refl
  pump-Preserves (suc n) =
      >>=-Preserves (control L) (recv_next L) (λ done. pump L n) (recv_next-Keeps L)
        (λ done. pump-Preserves n)

  module _ (returns : (d : Delivery) (w : L.World) → (L.deliver d w).0 ≢ stuck) where
    -- An outcome that is not stuck, with the state and its events as they were.
    Ended : Transport L → Result (Unit {0}) × Transport L → Type 0
    Ended s o = (o.0 ≢ stuck) × (control L (o.1) ≡ control L s)

    continue-Ended :
        (s : Transport L) (r : Result (Unit {0})) (next : Unit {0} → Act L (Unit {0}))
        (t : Transport L)
        → r ≢ stuck
        → control L t ≡ control L s
        → Ended s (next tt t)
        → Ended s (continue_with r next t)
    unfolding Ended
    continue-Ended s (ok done) next t p h k = k
    continue-Ended s (raise x) next t p h k = (λ e. cc, h)
    continue-Ended s stuck next t p h k = absurd (p refl)

    disconnect_all-Ended :
        (receivers : List ℕ) (s t : Transport L)
        → control L t ≡ control L s
        → Ended s (disconnect_all L receivers t)
    unfolding Ended
    disconnect_all-Ended [] s t h = (λ e. cc, h)
    disconnect_all-Ended (receiver ∷ receivers) s t h =
        let told = L.deliver (to_disconnect receiver) t.world in
        let next : Transport L = record t { world = told.1 } in
        continue-Ended s (told.0) (λ done. disconnect_all L receivers) next
          (returns (to_disconnect receiver) t.world) h (disconnect_all-Ended receivers s next h)

    on_disconnect-Ended :
        (s : Transport L) (e : Exception) (o : Result (Unit {0}) × Transport L)
        → o.0 ≡ raise e
        → control L (o.1) ≡ control L s
        → Ended s (on_disconnect L o)
    unfolding Ended
    on_disconnect-Ended s e (ok done, t) h k = cc
    on_disconnect-Ended s e (stuck, t) h k = cc
    on_disconnect-Ended s e (raise x, t) h k = elim (Bool-cases (is_connection_error x)) [
      | inl b ↦ rw b (disconnect_all-Ended t.router.receivers s t k)
      | inr b ↦ rw b (λ p. cc, k)
    ]

    close_state :
        (s : Transport L) (o : Result (Unit {0}) × Transport L)
        → Ended s o
        → s.state ≡ connected
        → ((close L o).0 ≢ stuck)
          × ((close L o).1.state ≡ closed)
          × ((close L o).1.changes ≡ closed ∷ s.changes)
    unfolding Ended set_state
    close_state s (stuck, t) (p, h) c = absurd (p refl)
    close_state s (ok done, t) (p, h) c =
        let now : t.state ≡ connected = ap (λ v. v.state) h ∙ c in
        rw now (λ e. cc, refl, ap (λ v. closed ∷ v.changes) h)
    close_state s (raise e, t) (p, h) c =
        let now : t.state ≡ connected = ap (λ v. v.state) h ∙ c in
        rw now (λ e. cc, refl, ap (λ v. closed ∷ v.changes) h)

    -- Where the pump meets an exception within n rounds, of whatever kind, with as many rounds or
    -- more `__run` ends, the transport is CLOSED, and that is the only change of state since it was
    -- CONNECTED. The handlers of the receivers return or raise.
    pub run_closed :
        (n m : ℕ) (s : Transport L) (e : Exception)
        → (pump L n s).0 ≡ raise e
        → n ≤ m
        → s.state ≡ connected
        → ((run L m s).0 ≢ stuck)
          × ((run L m s).1.state ≡ closed)
          × ((run L m s).1.changes ≡ closed ∷ s.changes)
    unfolding run Preserves
    run_closed n m s e h k c =
        let same = pump_mono n m s e h k in
        let raises : (pump L m s).0 ≡ raise e = rw same h in
        close_state s (on_disconnect L (pump L m s))
          (on_disconnect-Ended s e (pump L m s) raises (pump-Preserves m s)) c

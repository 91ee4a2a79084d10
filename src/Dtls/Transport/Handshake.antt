-- ===== src/Dtls/Transport/Handshake.antt =====
-- `RTCDtlsTransport.start`: the handshake, the check of the fingerprint and the keys.
pub mod Outcome
use pure_webrtc_transport.Base.{
  ℕ, zero, suc, ◌+◌, Bool, true, false, ◌&&◌, ◌||◌, not, Option, none, some, List, [], ◌∷◌, ltb,
  leb, if◌then◌else◌, map,
}
use pure_webrtc_transport.Base.Int.{ℤ, pos, ltb_ℤ}
use pure_webrtc_transport.Base.Dict.{Key, string_key}
use pure_webrtc_transport.Base.Result.{
  Result, ok, raise, stuck, Exception, is_connection_error, assertion_error,
}
use pure_webrtc_transport.Struct.{Bytes}
use pure_webrtc_transport.Text.{Str}
use pure_webrtc_transport.Dtls.Action.{Action, ◌>>=◌, return, fail, lift, modify}
use pure_webrtc_transport.Dtls.Transport.{
  Library, Transport, State, new, connecting, connected, failed, same_state, Role, auto, server,
  client, call, write_ssl, set_state, set_role, get_srtp_key_salt,
}
use pure_webrtc_transport.Dtls.Transport.Receive.{Act, recv_next}

-- `RTCDtlsFingerprint`
pub record Fingerprint : Type 0 where
  pub algorithm : Str
  pub value : Str

-- `str.lower()`, of ASCII.
abbrev pub lower : Str → Str
lower = map (λ c. if leb 65 c && leb c 90 then c + 32 else c)

abbrev pub sha_256 : Str
sha_256 = 115 ∷ 104 ∷ 97 ∷ 45 ∷ 50 ∷ 53 ∷ 54 ∷ []

unfoldable pub fingerprint_is_valid : List Fingerprint → Str → Bool
fingerprint_is_valid [] digest = false
fingerprint_is_valid (f ∷ fingerprints) digest =
    string_key.test (lower f.algorithm) sha_256 && string_key.test (lower f.value) (lower digest)
    || fingerprint_is_valid fingerprints digest

-- The keys to send and to receive with.
unfoldable pub srtp_keys : Role → Bytes → Bytes × Bytes
srtp_keys server view = (get_srtp_key_salt view 1, get_srtp_key_salt view 0)
srtp_keys _ view = (get_srtp_key_salt view 0, get_srtp_key_salt view 1)

abbrev pub role_for : Role → Bool → Role
role_for auto true = server
role_for auto false = client
role_for role is_controlling = role

abbrev pub is_new : State → Bool
is_new state = same_state state new

module _ (L : Library) where
  -- The loop of `start`, on fuel: it goes on for as long as OpenSSL wants to read. It answers whether
  -- the transport is encrypted.
  abbrev pub handshake_loop : ℕ → Act L Bool
  handshake_loop zero self = (stuck, self)
  handshake_loop (suc fuel) self =
      let result = (L.do_handshake self.world).0 in
      let again : Act L Bool = recv_next L >>= λ done. handshake_loop fuel in
      let decide : Act L Bool = λ s.
        if ltb_ℤ (pos 0) result
        then (ok true, record s { encrypted = true })
        else if L.wants_read result s.world
        then again s
        else (ok false, set_state L failed s) in
      if self.encrypted
      then (ok true, self)
      else (write_ssl L >>= λ done. decide) (record self { world = (L.do_handshake self.world).1 })

  -- `except ConnectionError`
  abbrev pub fail_if_lost : Result Bool × Transport L → Result Bool × Transport L
  fail_if_lost (raise e, self) =
      if is_connection_error e then (ok false, set_state L failed self) else (raise e, self)
  fail_if_lost (ok encrypted, self) = (ok encrypted, self)
  fail_if_lost (stuck, self) = (stuck, self)

  unfoldable pub handshake : ℕ → Act L Bool
  handshake fuel self = fail_if_lost (handshake_loop fuel self)

  -- The sessions, and the task of the data pump.
  unfoldable pub connect : Bytes → Transport L → Transport L
  connect view self =
      let keys = srtp_keys self.role view in
      let ready =
        set_state L connected (record self { rx_srtp = some (keys.1); tx_srtp = some (keys.0) }) in
      record ready { has_task = true }

  -- `start` after the handshake; `_openssl_assert` raises if the export fails.
  unfoldable pub check_peer : List Fingerprint → Act L (Unit {0})
  check_peer fingerprints self =
      if fingerprint_is_valid fingerprints (L.peer_digest self.world)
      then (lift (L.export self.world) >>= λ view. modify (connect view)) self
      else (ok tt, set_state L failed self)

  abbrev pub after_handshake : List Fingerprint → Bool → Act L (Unit {0})
  after_handshake fingerprints true = check_peer fingerprints
  after_handshake fingerprints false = return tt

  abbrev pub is_empty : List Fingerprint → Bool
  is_empty [] = true
  is_empty (f ∷ fs) = false

  unfoldable pub start : ℕ → List Fingerprint → Act L (Unit {0})
  start fuel fingerprints self =
      let role = role_for self.role self.is_controlling in
      if is_new self.state && not (is_empty fingerprints)
      then (handshake fuel >>= after_handshake fingerprints)
          (set_state L connecting (set_role L role self))
      else (raise assertion_error, self)

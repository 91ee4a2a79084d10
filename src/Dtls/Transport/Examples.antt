-- ===== src/Dtls/Transport/Examples.antt =====
-- Theorems about the DTLS transport at concrete inputs, with the datagrams to come as the world.
use pure_webrtc_transport.Base.{
  ℕ, ◌≡◌, ◌≢◌, refl, true, false, Option, some, List, [], ◌∷◌, replicate, arith,
}
use pure_webrtc_transport.Base.Int.{pos}
use pure_webrtc_transport.Base.Result.{Result, ok, raise, stuck, connection_error}
use pure_webrtc_transport.Struct.{Bytes}
use pure_webrtc_transport.Dtls.Transport.{Library, Transport, connected, closed, new_transport}
use pure_webrtc_transport.Dtls.Transport.Receive.{recv_next, dispatch}
use pure_webrtc_transport.Dtls.Transport.Handshake.{Fingerprint, start, sha_256}
use pure_webrtc_transport.Dtls.Transport.Handshake.Outcome.{Started, start-Started}
use pure_webrtc_transport.Dtls.Transport.Pump.{pump, run}
use pure_webrtc_transport.Dtls.Transport.Pump.Closed.{run_closed}

-- The connection is lost once the inbox is empty; packets are not protected.
abbrev read_inbox : List Bytes → Result (Option Bytes) × List Bytes
read_inbox [] = (raise connection_error, [])
read_inbox (datagram ∷ inbox) = (ok (some datagram), inbox)

abbrev digest : List ℕ
digest = 65 ∷ 66 ∷ []

abbrev library : Library
library = record {
  World = List Bytes;
  do_handshake = λ w. (pos 1, w);
  wants_read = λ result w. false;
  pending = λ w. ([], w);
  send = λ bytes w. (ok tt, w);
  has_timeout = λ w. false;
  recv = λ timed w. read_inbox w;
  handle_timeout = λ w. w;
  ssl_read = λ bytes w. (pos 0, [], w);
  ssl_write = λ bytes w. w;
  shutdown = λ w. w;
  peer_digest = λ w. digest;
  export = λ w. ok (replicate 60 7);
  current_ms = λ w. 0;
  unprotect = λ is_rtcp key bytes w. (ok bytes, w);
  protect = λ is_rtcp key bytes w. (ok bytes, w);
  deliver = λ d w. (ok tt, w);
}

abbrev fresh : Transport library
fresh = new_transport library true ((200 ∷ []) ∷ [])

abbrev expected : List Fingerprint
expected = record { algorithm = sha_256; value = digest } ∷ []

start-Started_example : Started library expected fresh (start library 3 expected fresh)
start-Started_example = start-Started library 3 expected fresh refl refl

abbrev open_transport : Transport library
open_transport = record fresh { state = connected; encrypted = true }

-- The second round finds the inbox empty.
pump_lost : (pump library 2 open_transport).0 ≡ raise connection_error
unfolding recv_next dispatch
pump_lost = refl

run_closed_example :
    ((run library 5 open_transport).0 ≢ stuck)
    × ((run library 5 open_transport).1.state ≡ closed)
    × ((run library 5 open_transport).1.changes ≡ closed ∷ [])
run_closed_example =
    run_closed library (λ d w e. cc) 2 5 open_transport connection_error pump_lost (omega arith)
      refl

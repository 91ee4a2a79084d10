-- ===== src/Receiver/Statistics.antt =====
-- transport/rtcrtpreceiver.py: `StreamStatistics`. The arrival time in units of the clock rate,
-- `int(time.time() * self._clockrate)`, is an argument of `add`.
pub mod Sequence
use pure_webrtc_transport.Base.{
  ℕ, zero, suc, ◌+◌, ◌-◌, ◌*◌, ◌/◌, ◌%◌, ◌^◌, Bool, true, false, not, ◌&&◌, ◌||◌, Option, none,
  some, ltb, leb, ◌==◌, if◌then◌else◌,
}
use pure_webrtc_transport.Base.Bits.{shr}
use pure_webrtc_transport.Base.Int.{ℤ, pos, negsuc, ◌-ℤ◌, leb_ℤ, abs}
use pure_webrtc_transport.Base.Result.{Result, ok, raise, ◌>>=◌, type_error}
use pure_webrtc_transport.Utils.{uint16_gt}
use pure_webrtc_transport.Rtp.Packet.{RtpPacket}
use pure_webrtc_transport.Rtcp.Report.{clamp_packets_lost}
use pure_webrtc_transport.Rtcp.Twcc.{negative}

pub record StreamStatistics : Type 0 where
  pub base_seq : Option ℕ
  pub max_seq : Option ℕ
  pub cycles : ℕ
  pub packets_received : ℕ
  pub jitter_q4 : ℕ
  pub last_arrival : Option ℕ
  pub last_timestamp : Option ℕ
  pub expected_prior : ℤ
  pub received_prior : ℕ

abbrev pub new_statistics : StreamStatistics
new_statistics = record {
  base_seq = none;
  max_seq = none;
  cycles = 0;
  packets_received = 0;
  jitter_q4 = 0;
  last_arrival = none;
  last_timestamp = none;
  expected_prior = pos 0;
  received_prior = 0;
}

abbrev pub in_order : ℕ → Option ℕ → Bool
in_order sequence_number none = true
in_order sequence_number (some max_seq) = uint16_gt sequence_number max_seq

abbrev pub or_else : Option ℕ → ℕ → ℕ
or_else none n = n
or_else (some m) n = m

-- `self.cycles`, after a packet that is in order.
abbrev pub next_cycles : ℕ → ℕ → Option ℕ → ℕ
next_cycles cycles sequence_number none = cycles
next_cycles cycles sequence_number (some max_seq) =
    if ltb sequence_number max_seq then cycles + 2 ^ 16 else cycles

-- `packet.timestamp != self._last_timestamp`
abbrev pub differs : ℕ → Option ℕ → Bool
differs timestamp none = true
differs timestamp (some last) = not (timestamp == last)

-- The jitter after a packet that is in order. `(j + 8) >> 4` is at most j, so no term is cut off.
-- The subtraction of a None is a TypeError.
unfoldable pub next_jitter : (jitter_q4 arrival timestamp : ℕ) → Option ℕ → Option ℕ → Result ℕ
next_jitter jitter_q4 arrival timestamp (some last_arrival) (some last_timestamp) =
    let diff : ℕ =
      abs ((pos arrival -ℤ pos last_arrival) -ℤ (pos timestamp -ℤ pos last_timestamp)) in
    ok (jitter_q4 + diff - shr (jitter_q4 + 8) 4)
next_jitter jitter_q4 arrival timestamp none _ = raise type_error
next_jitter jitter_q4 arrival timestamp (some last_arrival) none = raise type_error

unfoldable pub add : RtpPacket → (arrival : ℕ) → StreamStatistics → Result StreamStatistics
add packet arrival s =
    let received : ℕ = s.packets_received + 1 in
    let base : Option ℕ = some (or_else s.base_seq packet.sequence_number) in
    let jitter : Result ℕ =
      if differs packet.timestamp s.last_timestamp && ltb 1 received
      then next_jitter s.jitter_q4 arrival packet.timestamp s.last_arrival s.last_timestamp
      else ok s.jitter_q4 in
    if in_order packet.sequence_number s.max_seq
    then (do
      jitter_q4 ← jitter
      ok record {
        base_seq = base;
        max_seq = some packet.sequence_number;
        cycles = next_cycles s.cycles packet.sequence_number s.max_seq;
        packets_received = received;
        jitter_q4 = jitter_q4;
        last_arrival = some arrival;
        last_timestamp = some packet.timestamp;
        expected_prior = s.expected_prior;
        received_prior = s.received_prior;
      })
    else ok record {
      base_seq = base;
      max_seq = s.max_seq;
      cycles = s.cycles;
      packets_received = received;
      jitter_q4 = s.jitter_q4;
      last_arrival = s.last_arrival;
      last_timestamp = s.last_timestamp;
      expected_prior = s.expected_prior;
      received_prior = s.received_prior;
    }

unfoldable pub packets_expected_of : ℕ → Option ℕ → Option ℕ → Result ℤ
packets_expected_of cycles (some max_seq) (some base_seq) =
    ok (pos (cycles + max_seq + 1) -ℤ pos base_seq)
packets_expected_of cycles none _ = raise type_error
packets_expected_of cycles (some max_seq) none = raise type_error

unfoldable pub packets_expected : StreamStatistics → Result ℤ
packets_expected s = packets_expected_of s.cycles s.max_seq s.base_seq

unfoldable pub packets_lost : StreamStatistics → Result ℤ
packets_lost s =
    packets_expected s >>= λ expected. ok (clamp_packets_lost (expected -ℤ pos s.packets_received))

unfoldable pub jitter : StreamStatistics → ℕ
jitter s = shr s.jitter_q4 4

-- `(lost << 8) // expected` of a positive `lost`, rounded down.
abbrev pub share : ℕ → ℤ → ℤ
share lost (pos expected) = pos (lost * 2 ^ 8 / expected)
share lost (negsuc n) = negative ((lost * 2 ^ 8 + n) / suc n)

-- The lost packets among those expected since the last call.
unfoldable pub fraction_of : (expected_interval lost_interval : ℤ) → ℤ
fraction_of (pos zero) lost_interval = pos 0
fraction_of expected_interval (negsuc n) = pos 0
fraction_of expected_interval (pos zero) = pos 0
fraction_of expected_interval (pos (suc n)) = share (suc n) expected_interval

-- The property `fraction_lost`, which moves the marks for the next call.
unfoldable pub fraction_lost : StreamStatistics → Result (ℤ × StreamStatistics)
fraction_lost s = do
  expected ← packets_expected s
  let expected_interval = expected -ℤ s.expected_prior
  let received_interval = pos s.packets_received -ℤ pos s.received_prior
  ok (
    fraction_of expected_interval (expected_interval -ℤ received_interval),
    record {
      base_seq = s.base_seq;
      max_seq = s.max_seq;
      cycles = s.cycles;
      packets_received = s.packets_received;
      jitter_q4 = s.jitter_q4;
      last_arrival = s.last_arrival;
      last_timestamp = s.last_timestamp;
      expected_prior = expected;
      received_prior = s.packets_received;
    },
  )

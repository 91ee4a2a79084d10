-- ===== src/Receiver/Statistics/Sequence.antt =====
-- transport/rtcrtpreceiver.py: `StreamStatistics` counts the packets that a stream sent.
use pure_webrtc_transport.Base.{
  ℕ, ◌+◌, ◌-◌, ◌*◌, ◌/◌, ◌%◌, ◌^◌, ◌≤◌, ◌<◌, max, ◌≡◌, refl, ◌∙◌, Bool, true, false, ◌&&◌, Option,
  none, some, List, [], ◌∷◌, length, ltb, if◌then◌else◌, arith, ltb→lt, ltb→le, Bool-cases, inl,
  inr,
}
use pure_webrtc_transport.Base.Int.{pos, ◌-ℤ◌}
use pure_webrtc_transport.Base.Result.{Result, ok, ◌>>=◌}
use pure_webrtc_transport.Utils.{uint16_gt}
use pure_webrtc_transport.Rtp.Packet.{RtpPacket}
use pure_webrtc_transport.Receiver.Statistics.{
  StreamStatistics, new_statistics, next_cycles, differs, next_jitter, add, packets_expected,
  packets_expected_of,
}

-- The sequence numbers on the wire are the numbers n of the sender modulo 2^16. Where two of them
-- are less than 2^15 apart, their order on the circle is that of the numbers.
uint16_gt-mod :
    (n m : ℕ) → n < m + 2 ^ 15 → m < n + 2 ^ 15 → uint16_gt (n % 2 ^ 16) (m % 2 ^ 16) ≡ ltb m n
unfolding uint16_gt
uint16_gt-mod n m h k = ground arith

cycles_next :
    (n₀ m n : ℕ)
    → n₀ ≤ m
    → m < n
    → n < m + 2 ^ 15
    → next_cycles ((m / 2 ^ 16 - n₀ / 2 ^ 16) * 2 ^ 16) (n % 2 ^ 16) (some (m % 2 ^ 16))
      ≡ (n / 2 ^ 16 - n₀ / 2 ^ 16) * 2 ^ 16
cycles_next n₀ m n h k b = ground arith

-- The state after packets whose first number was n₀ and whose highest number is m.
pub record IsTracking (s : StreamStatistics) (n₀ m : ℕ) : Type 0 where
  pub base : s.base_seq ≡ some (n₀ % 2 ^ 16)
  pub highest : s.max_seq ≡ some (m % 2 ^ 16)
  pub cycles : s.cycles ≡ (m / 2 ^ 16 - n₀ / 2 ^ 16) * 2 ^ 16
  pub above : n₀ ≤ m
  pub arrival : (a : ℕ) × (s.last_arrival ≡ some a)
  pub timestamp : (t : ℕ) × (s.last_timestamp ≡ some t)

-- A packet with its number.
abbrev pub Arrival : Type 0
Arrival = ℕ × RtpPacket × ℕ

next_jitter-ok :
    (b : Bool) (j a t : ℕ) (la lt : Option ℕ)
    → (x : ℕ) × (la ≡ some x)
    → (y : ℕ) × (lt ≡ some y)
    → (j' : ℕ) × ((if b then next_jitter j a t la lt else ok j) ≡ ok j')
unfolding next_jitter
next_jitter-ok true j a t none lt (x, e) y = cc
next_jitter-ok true j a t (some x) none e (y, f) = cc
next_jitter-ok true j a t (some x) (some y) e f = (_, refl)
next_jitter-ok false j a t la lt e f = (j, refl)

add-IsTracking :
    (s : StreamStatistics) (n₀ m n : ℕ) (packet : RtpPacket) (arrival : ℕ)
    → IsTracking s n₀ m
    → packet.sequence_number ≡ n % 2 ^ 16
    → n < m + 2 ^ 15
    → m < n + 2 ^ 15
    → (s' : StreamStatistics) × (add packet arrival s ≡ ok s')
      × IsTracking s' n₀ (max m n)
      × (s'.packets_received ≡ s.packets_received + 1)
unfolding add
add-IsTracking s n₀ m n packet arrival t e h k = elim (Bool-cases (ltb m n)) [
  | inl later ↦
      let order = uint16_gt-mod n m h k ∙ later in
      let (j, jitter) =
        next_jitter-ok (differs packet.timestamp s.last_timestamp && ltb 1 (s.packets_received + 1))
          s.jitter_q4 arrival packet.timestamp s.last_arrival s.last_timestamp t.arrival
          t.timestamp in
      let less = ltb→lt m n later in
      let top : max m n ≡ n = omega arith in
      (
        record {
          base_seq = some (n₀ % 2 ^ 16);
          max_seq = some (n % 2 ^ 16);
          cycles = (n / 2 ^ 16 - n₀ / 2 ^ 16) * 2 ^ 16;
          packets_received = s.packets_received + 1;
          jitter_q4 = j;
          last_arrival = some arrival;
          last_timestamp = some packet.timestamp;
          expected_prior = s.expected_prior;
          received_prior = s.received_prior;
        },
        rw (jitter, e, t.highest, t.base, t.cycles, order, cycles_next n₀ m n t.above less h) refl,
        rw top record {
          base = refl;
          highest = refl;
          cycles = refl;
          above = omega (arith, t.above);
          arrival = (arrival, refl);
          timestamp = (packet.timestamp, refl);
        },
        refl,
      )
  | inr earlier ↦
      let order = uint16_gt-mod n m h k ∙ earlier in
      let top : max m n ≡ m = omega (arith, ltb→le m n earlier) in
      (
        record {
          base_seq = some (n₀ % 2 ^ 16);
          max_seq = s.max_seq;
          cycles = s.cycles;
          packets_received = s.packets_received + 1;
          jitter_q4 = s.jitter_q4;
          last_arrival = s.last_arrival;
          last_timestamp = s.last_timestamp;
          expected_prior = s.expected_prior;
          received_prior = s.received_prior;
        },
        rw (e, t.highest, t.base, order) refl,
        rw top record {
          base = refl;
          highest = t.highest;
          cycles = t.cycles;
          above = t.above;
          arrival = t.arrival;
          timestamp = t.timestamp;
        },
        refl,
      )
]

-- Every packet of the stream, added in order of arrival.
pub add_all : List Arrival → StreamStatistics → Result StreamStatistics
add_all [] s = ok s
add_all ((n, packet, arrival) ∷ rest) s = add packet arrival s >>= add_all rest

-- Each packet bears its number modulo 2^16, less than 2^15 from the highest number so far.
unfoldable pub Near : ℕ → List Arrival → Type 0
Near m [] = Unit {0}
Near m ((n, packet, arrival) ∷ rest) =
    (packet.sequence_number ≡ n % 2 ^ 16)
    × (n < m + 2 ^ 15)
    × (m < n + 2 ^ 15)
    × Near (max m n) rest

pub highest_of : ℕ → List Arrival → ℕ
highest_of m [] = m
highest_of m ((n, packet, arrival) ∷ rest) = highest_of (max m n) rest

add_all-IsTracking :
    (rest : List Arrival) (s : StreamStatistics) (n₀ m : ℕ)
    → IsTracking s n₀ m
    → Near m rest
    → (s' : StreamStatistics) × (add_all rest s ≡ ok s')
      × IsTracking s' n₀ (highest_of m rest)
      × (s'.packets_received ≡ s.packets_received + length rest)
unfolding add_all Near highest_of
add_all-IsTracking [] s n₀ m t h = (s, refl, t, omega arith)
add_all-IsTracking ((n, packet, arrival) ∷ rest) s n₀ m t (e, h, k, near) =
    let (s', run, t', count) = add-IsTracking s n₀ m n packet arrival t e h k in
    let (s'', run', t'', count') = add_all-IsTracking rest s' n₀ (max m n) t' near in
    (s'', rw run run', t'', omega (arith, count, count'))

tracking-expected :
    (s : StreamStatistics) (n₀ m : ℕ)
    → IsTracking s n₀ m
    → packets_expected s ≡ ok (pos (m - n₀ + 1))
unfolding packets_expected packets_expected_of ◌-ℤ◌
tracking-expected s n₀ m t = rw (t.base, t.highest, t.cycles) (ground (arith, t.above))

-- The first packet has the number n₀; after it come packets with any numbers, each less than 2^15
-- from the highest one before it, in any order and with the wrap at 2^16. No call raises an
-- exception, and the statistics then expect exactly the packets from n₀ to the highest number, and
-- count every packet as received.
pub packets_expected-add_all :
    (n₀ : ℕ) (first : RtpPacket) (arrival : ℕ) (rest : List Arrival)
    → first.sequence_number ≡ n₀ % 2 ^ 16
    → Near n₀ rest
    → (s : StreamStatistics) × (add_all ((n₀, first, arrival) ∷ rest) new_statistics ≡ ok s)
      × (packets_expected s ≡ ok (pos (highest_of n₀ rest - n₀ + 1)))
      × (s.packets_received ≡ length rest + 1)
unfolding add_all add
packets_expected-add_all n₀ first arrival rest e near =
    let begun : StreamStatistics = record {
      base_seq = some first.sequence_number;
      max_seq = some first.sequence_number;
      cycles = 0;
      packets_received = 1;
      jitter_q4 = 0;
      last_arrival = some arrival;
      last_timestamp = some first.timestamp;
      expected_prior = pos 0;
      received_prior = 0;
    } in
    let tracking : IsTracking begun n₀ n₀ = record {
      base = rw e refl;
      highest = rw e refl;
      cycles = omega arith;
      above = omega arith;
      arrival = (arrival, refl);
      timestamp = (first.timestamp, refl);
    } in
    let (s, run, t, count) = add_all-IsTracking rest begun n₀ n₀ tracking near in
    (s, run, tracking-expected s n₀ (highest_of n₀ rest) t, omega (arith, count))

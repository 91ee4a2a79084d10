-- ===== src/Policy/InterArrival.antt =====
-- policy/cc.py: `InterArrivalMillisecond`, packets grouped by the time they were sent, and the
-- differences between one group and the next. Times and sizes are not negative.
pub mod Deltas
use pure_webrtc_transport.Base.{
  ℕ, ◌+◌, Bool, true, false, ◌&&◌, Option, none, some, List, [], ◌∷◌, ltb, if◌then◌else◌,
}
use pure_webrtc_transport.Base.Int.{ℤ, pos, sub_ℕ, ltb_ℤ, leb_ℤ}
use pure_webrtc_transport.Base.Result.{Result, ok, raise, ◌>>=◌, type_error}

abbrev pub burst_delta_threshold_ms : ℕ
burst_delta_threshold_ms = 5

abbrev pub burst_max_duration : ℕ
burst_max_duration = 100

pub record TimestampGroupMillisecond : Type 0 where
  pub arrival_time : Option ℕ
  pub first_arrival_time : ℕ
  pub first_send_time : ℕ
  pub last_send_time : ℕ
  pub size : ℕ

abbrev pub new_group : ℕ → ℕ → TimestampGroupMillisecond
new_group send_time arrival_time = record {
  arrival_time = none;
  first_arrival_time = arrival_time;
  first_send_time = send_time;
  last_send_time = send_time;
  size = 0;
}

pub record InterArrivalDeltaMillisecond : Type 0 where
  pub send_time_delta : ℤ
  pub arrival_time_delta : ℤ
  pub size_delta : ℤ

pub record InterArrivalMillisecond : Type 0 where
  pub group_length : ℕ
  pub current_group : Option TimestampGroupMillisecond
  pub previous_group : Option TimestampGroupMillisecond

abbrev pub new_inter_arrival : ℕ → InterArrivalMillisecond
new_inter_arrival group_length = record {
  group_length = group_length;
  current_group = none;
  previous_group = none;
}

-- An arithmetic operation on None is a TypeError.
abbrev pub time_of : Option ℕ → Result ℕ
time_of none = raise type_error
time_of (some time) = ok time

unfoldable pub belongs_to_burst : TimestampGroupMillisecond → ℕ → ℕ → Result Bool
belongs_to_burst current send_time arrival_time = do
  last_arrival ← time_of current.arrival_time
  let send_time_delta = sub_ℕ send_time current.last_send_time
  let arrival_time_delta = sub_ℕ arrival_time last_arrival
  ok (
      ltb_ℤ (sub_ℕ arrival_time current.first_arrival_time) (pos burst_max_duration)
      && leb_ℤ arrival_time_delta (pos burst_delta_threshold_ms)
      && ltb_ℤ arrival_time_delta send_time_delta)

unfoldable pub new_timestamp_group : ℕ → TimestampGroupMillisecond → ℕ → ℕ → Result Bool
new_timestamp_group group_length current send_time arrival_time = do
  burst ← belongs_to_burst current send_time arrival_time
  ok (if burst then false else ltb_ℤ (pos group_length) (sub_ℕ send_time current.first_send_time))

-- `InterArrivalDeltaMillisecond(...)` of the current group and the one before.
unfoldable pub delta_between :
    TimestampGroupMillisecond → TimestampGroupMillisecond → Result InterArrivalDeltaMillisecond
delta_between previous current = do
  arrival ← time_of current.arrival_time
  before ← time_of previous.arrival_time
  ok record {
    send_time_delta = sub_ℕ current.last_send_time previous.last_send_time;
    arrival_time_delta = sub_ℕ arrival before;
    size_delta = sub_ℕ current.size previous.size;
  }

abbrev pub delta_since :
    Option TimestampGroupMillisecond
    → TimestampGroupMillisecond
    → Result (Option InterArrivalDeltaMillisecond)
delta_since none current = ok none
delta_since (some previous) current = do delta ← delta_between previous current; ok (some delta)

-- The last lines of `compute_deltas`: the packet is counted in the current group.
abbrev pub count_in : ℕ → ℕ → TimestampGroupMillisecond → TimestampGroupMillisecond
count_in arrival_time packet_size g = record g {
  arrival_time = some arrival_time;
  size = g.size + packet_size;
}

abbrev pub send_until : ℕ → TimestampGroupMillisecond → TimestampGroupMillisecond
send_until send_time g =
    if ltb g.last_send_time send_time then record g { last_send_time = send_time } else g

-- The branches with a current group; the second is given whether the packet opens a new group.
abbrev pub shift_or_extend :
    Bool
    → ℕ
    → ℕ
    → ℕ
    → TimestampGroupMillisecond
    → InterArrivalMillisecond
    → Result (Option InterArrivalDeltaMillisecond × InterArrivalMillisecond)
shift_or_extend true send_time arrival_time packet_size current self = do
  deltas ← delta_since self.previous_group current
  ok (
    deltas,
    record self {
      current_group = some (count_in arrival_time packet_size (new_group send_time arrival_time));
      previous_group = some current;
    },
  )
shift_or_extend false send_time arrival_time packet_size current self = ok (
  none,
  record self {
    current_group = some (count_in arrival_time packet_size (send_until send_time current));
  },
)

abbrev pub compute_with :
    Option TimestampGroupMillisecond
    → ℕ
    → ℕ
    → ℕ
    → InterArrivalMillisecond
    → Result (Option InterArrivalDeltaMillisecond × InterArrivalMillisecond)
compute_with none send_time arrival_time packet_size self = ok (
  none,
  record self {
    current_group = some (count_in arrival_time packet_size (new_group send_time arrival_time));
  },
)
compute_with (some current) send_time arrival_time packet_size self =
    let in_order = new_timestamp_group self.group_length current send_time arrival_time >>= λ fresh.
    shift_or_extend fresh send_time arrival_time packet_size current self in
    if ltb send_time current.first_send_time then ok (none, self) else in_order

unfoldable pub compute_deltas :
    ℕ
    → ℕ
    → ℕ
    → InterArrivalMillisecond
    → Result (Option InterArrivalDeltaMillisecond × InterArrivalMillisecond)
compute_deltas send_time arrival_time packet_size self =
    compute_with self.current_group send_time arrival_time packet_size self

abbrev pub collect {ℓ} : {A : Type ℓ} → Option A → List A → List A
collect none xs = xs
collect (some x) xs = x ∷ xs

-- A run of packets (send time, arrival time, size), with the deltas that come out.
unfoldable pub run :
    List (ℕ × ℕ × ℕ)
    → InterArrivalMillisecond
    → Result (List InterArrivalDeltaMillisecond × InterArrivalMillisecond)
run [] self = ok ([], self)
run ((send_time, arrival_time, packet_size) ∷ packets) self = do
  r ← compute_deltas send_time arrival_time packet_size self
  rest ← run packets r.1
  ok (collect r.0 rest.0, rest.1)

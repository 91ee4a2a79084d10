-- ===== src/Policy/InterArrival/Deltas.antt =====
-- `InterArrivalMillisecond`: no packet raises, and the deltas add up.
use pure_webrtc_transport.Base.{
  ℕ, ◌≡◌, refl, subst, Bool, true, false, Bool-cases, inl, inr, Option, none, some, List, [], ◌∷◌,
  ltb, arith,
}
use pure_webrtc_transport.Base.Int.{ℤ, pos, negsuc, sub_ℕ, ◌+ℤ◌}
use pure_webrtc_transport.Base.Result.{ok}
use pure_webrtc_transport.Policy.InterArrival.{
  TimestampGroupMillisecond, InterArrivalDeltaMillisecond, InterArrivalMillisecond, new_group,
  belongs_to_burst, new_timestamp_group, delta_between, delta_since, count_in, send_until,
  shift_or_extend, compute_with, compute_deltas, collect, run,
}

-- Every group has the arrival time of a packet in it.
unfoldable pub IsTimed : Option TimestampGroupMillisecond → Type 0
IsTimed none = Unit {0}
IsTimed (some g) = (time : ℕ) × (g.arrival_time ≡ some time)

abbrev pub IsFilled : InterArrivalMillisecond → Type 0
IsFilled self = IsTimed self.current_group × IsTimed self.previous_group

abbrev pub no_delta : InterArrivalDeltaMillisecond
no_delta = record { send_time_delta = pos 0; arrival_time_delta = pos 0; size_delta = pos 0 }

abbrev pub plus :
    InterArrivalDeltaMillisecond → InterArrivalDeltaMillisecond → InterArrivalDeltaMillisecond
plus d e = record {
  send_time_delta = d.send_time_delta +ℤ e.send_time_delta;
  arrival_time_delta = d.arrival_time_delta +ℤ e.arrival_time_delta;
  size_delta = d.size_delta +ℤ e.size_delta;
}

abbrev pub total : List InterArrivalDeltaMillisecond → InterArrivalDeltaMillisecond
total [] = no_delta
total (d ∷ ds) = plus d (total ds)

abbrev pub difference :
    TimestampGroupMillisecond → ℕ → TimestampGroupMillisecond → ℕ → InterArrivalDeltaMillisecond
difference from a to b = record {
  send_time_delta = sub_ℕ to.last_send_time from.last_send_time;
  arrival_time_delta = sub_ℕ b a;
  size_delta = sub_ℕ to.size from.size;
}

-- The differences of two groups: of their last send times, their last arrival times, their sizes.
unfoldable pub Between :
    TimestampGroupMillisecond → TimestampGroupMillisecond → InterArrivalDeltaMillisecond → Type 0
Between from to d =
    (a : ℕ) × (b : ℕ) × (from.arrival_time ≡ some a)
    × (to.arrival_time ≡ some b)
    × (d ≡ difference from a to b)

sub_self : (a : ℕ) → sub_ℕ a a ≡ pos 0
sub_self a = ground arith

sub_trans : (a b c : ℕ) → sub_ℕ b a +ℤ sub_ℕ c b ≡ sub_ℕ c a
unfolding ◌+ℤ◌
sub_trans a b c = ground arith

same_time : (o : Option ℕ) (a b : ℕ) → o ≡ some a → o ≡ some b → a ≡ b
same_time o a b h k = cc

Between-refl : (p : TimestampGroupMillisecond) → IsTimed (some p) → Between p p no_delta
unfolding Between IsTimed
Between-refl p (a, e) =
    (a, a, e, e, rw (sub_self p.last_send_time, sub_self a, sub_self p.size) refl)

Between-trans :
    (p q r : TimestampGroupMillisecond) (d e : InterArrivalDeltaMillisecond)
    → Between p q d
    → Between q r e
    → Between p r (plus d e)
unfolding Between
Between-trans p q r d e (a, b, from, mid, h) (b2, c, mid2, to, k) =
    let same : b2 ≡ b = same_time q.arrival_time b2 b mid2 mid in
    let times : sub_ℕ b a +ℤ sub_ℕ c b2 ≡ sub_ℕ c a = rw same (sub_trans a b c) in
    let sends = sub_trans p.last_send_time q.last_send_time r.last_send_time in
    (a, c, from, to, rw (h, k, times, sends, sub_trans p.size q.size r.size) refl)

abbrev pub sum_of : Option InterArrivalDeltaMillisecond → InterArrivalDeltaMillisecond
sum_of none = no_delta
sum_of (some d) = d

zero_plus : (a : ℤ) → pos 0 +ℤ a ≡ a
unfolding ◌+ℤ◌
zero_plus (pos n) = ground arith
zero_plus (negsuc n) = ground arith

total-collect :
    (o : Option InterArrivalDeltaMillisecond) (ds : List InterArrivalDeltaMillisecond)
    → total (collect o ds) ≡ plus (sum_of o) (total ds)
total-collect (some d) ds = refl
total-collect none ds =
    let rest = total ds in
    rw
      (zero_plus rest.send_time_delta, zero_plus rest.arrival_time_delta, zero_plus rest.size_delta)
      refl

-- Where there was a previous group, there is one still, and the delta leads to it.
Leads :
    Option TimestampGroupMillisecond
    → InterArrivalDeltaMillisecond
    → Option TimestampGroupMillisecond
    → Type 0
Leads none d after = Unit {0}
Leads (some p) d after = (q : TimestampGroupMillisecond) × (after ≡ some q) × Between p q d

Leads-refl :
    (before : Option TimestampGroupMillisecond) → IsTimed before → Leads before no_delta before
unfolding Leads
Leads-refl none h = tt
Leads-refl (some p) h = (p, refl, Between-refl p h)

Leads-trans :
    (a b c : Option TimestampGroupMillisecond) (d e : InterArrivalDeltaMillisecond)
    → Leads a d b
    → Leads b e c
    → Leads a (plus d e) c
unfolding Leads
Leads-trans none b c d e h k = tt
Leads-trans (some p) b c d e (q, at, from) k =
    let (r, there, to) = transport_from b q at k in (r, there, Between-trans p q r d e from to)
  where
    transport_from :
        (b : Option TimestampGroupMillisecond) (q : TimestampGroupMillisecond)
        → b ≡ some q
        → Leads b e c
        → Leads (some q) e c
    transport_from b q at k = subst (λ o. Leads o e c) at k

-- The outcome of a packet or of several, from a state.
Outcome : InterArrivalMillisecond → InterArrivalDeltaMillisecond → InterArrivalMillisecond → Type 0
Outcome self d next = IsFilled next × Leads self.previous_group d next.previous_group

new_timestamp_group_total :
    (n : ℕ) (g : TimestampGroupMillisecond) (s a : ℕ)
    → IsTimed (some g)
    → (fresh : Bool) × (new_timestamp_group n g s a ≡ ok fresh)
unfolding IsTimed new_timestamp_group belongs_to_burst
new_timestamp_group_total n g s a (t, e) = rw e (_, refl)

delta_since-Leads :
    (before : Option TimestampGroupMillisecond) (current : TimestampGroupMillisecond)
    → IsTimed before
    → IsTimed (some current)
    → (delta : Option InterArrivalDeltaMillisecond) × (delta_since before current ≡ ok delta)
      × Leads before (sum_of delta) (some current)
unfolding Leads IsTimed delta_between Between
delta_since-Leads none current h k = (none, refl, tt)
delta_since-Leads (some p) current (a, from) (b, to) =
    (some (difference p a current b), rw (to, from) refl, (current, refl, (a, b, from, to, refl)))

send_until-IsTimed :
    (send_time arrival_time packet_size : ℕ) (g : TimestampGroupMillisecond)
    → IsTimed (some (count_in arrival_time packet_size g))
unfolding IsTimed
send_until-IsTimed send_time arrival_time packet_size g = (arrival_time, refl)

shift_or_extend-Outcome :
    (fresh : Bool) (send_time arrival_time packet_size : ℕ) (current : TimestampGroupMillisecond)
    (self : InterArrivalMillisecond)
    → IsTimed (some current)
    → IsTimed self.previous_group
    → (delta : Option InterArrivalDeltaMillisecond) × (next : InterArrivalMillisecond)
      × (shift_or_extend fresh send_time arrival_time packet_size current self ≡ ok (delta, next))
      × Outcome self (sum_of delta) next
unfolding Outcome
shift_or_extend-Outcome true send_time arrival_time packet_size current self c p =
    let (delta, e, leads) = delta_since-Leads self.previous_group current p c in
    (
      delta,
      record self {
        current_group = some (count_in arrival_time packet_size (new_group send_time arrival_time));
        previous_group = some current;
      },
      rw e refl,
      (
        (
          send_until-IsTimed send_time arrival_time packet_size (new_group send_time arrival_time),
          c,
        ),
        leads,
      ),
    )
shift_or_extend-Outcome false send_time arrival_time packet_size current self c p = (
  none,
  _,
  refl,
  (
    (send_until-IsTimed send_time arrival_time packet_size (send_until send_time current), p),
    Leads-refl self.previous_group p,
  ),
)

compute_with-Outcome :
    (o : Option TimestampGroupMillisecond) (send_time arrival_time packet_size : ℕ)
    (self : InterArrivalMillisecond)
    → IsTimed o
    → IsFilled self
    → (delta : Option InterArrivalDeltaMillisecond) × (next : InterArrivalMillisecond)
      × (compute_with o send_time arrival_time packet_size self ≡ ok (delta, next))
      × Outcome self (sum_of delta) next
unfolding Outcome
compute_with-Outcome none send_time arrival_time packet_size self h (c, p) = (
  none,
  _,
  refl,
  (
    (send_until-IsTimed send_time arrival_time packet_size (new_group send_time arrival_time), p),
    Leads-refl self.previous_group p,
  ),
)
compute_with-Outcome (some current) send_time arrival_time packet_size self h (c, p) =
    elim (Bool-cases (ltb send_time current.first_send_time)) [
      | inl e ↦ (none, self, rw e refl, ((c, p), Leads-refl self.previous_group p))
      | inr e ↦
          let (fresh, f) =
            new_timestamp_group_total self.group_length current send_time arrival_time h in
          let (delta, next, g, outcome) =
            shift_or_extend-Outcome fresh send_time arrival_time packet_size current self h p in
          let step : compute_with (some current) send_time arrival_time packet_size self
              ≡ ok (delta, next) =
            rw (e, f) g in
          (delta, next, step, outcome)
    ]

-- A packet does not raise, and leaves every group timed.
pub compute_deltas-IsFilled :
    (send_time arrival_time packet_size : ℕ) (self : InterArrivalMillisecond)
    → IsFilled self
    → (delta : Option InterArrivalDeltaMillisecond) × (next : InterArrivalMillisecond)
      × (compute_deltas send_time arrival_time packet_size self ≡ ok (delta, next))
      × IsFilled next
unfolding compute_deltas Outcome
compute_deltas-IsFilled send_time arrival_time packet_size self h =
    let (delta, next, e, (filled, leads)) =
      compute_with-Outcome self.current_group send_time arrival_time packet_size self h.0 h in
    (delta, next, e, filled)

run-Outcome :
    (packets : List (ℕ × ℕ × ℕ)) (self : InterArrivalMillisecond)
    → IsFilled self
    → (deltas : List InterArrivalDeltaMillisecond) × (next : InterArrivalMillisecond) × (run packets
          self
        ≡ ok (deltas, next))
      × Outcome self (total deltas) next
unfolding run compute_deltas Outcome
run-Outcome [] self (c, p) = ([], self, refl, ((c, p), Leads-refl self.previous_group p))
run-Outcome ((send_time, arrival_time, packet_size) ∷ packets) self h =
    let (delta, mid, e, (filled, first)) =
      compute_with-Outcome self.current_group send_time arrival_time packet_size self h.0 h in
    let (deltas, next, f, (last, rest)) = run-Outcome packets mid filled in
    let step : run ((send_time, arrival_time, packet_size) ∷ packets) self
        ≡ ok (collect delta deltas, next) =
      rw (e, f) refl in
    let all =
      Leads-trans self.previous_group mid.previous_group next.previous_group (sum_of delta)
        (total deltas) first rest in
    (collect delta deltas, next, step, (last, rw (total-collect delta deltas) all))

-- From a state with a previous group p, any packets are taken in without an exception, and the
-- deltas that come out add up, in send time, arrival time and size alike, to the difference between
-- p and the group that is the previous one in the end: no delta is left out or counted twice.
pub run-total :
    (packets : List (ℕ × ℕ × ℕ)) (self : InterArrivalMillisecond) (p : TimestampGroupMillisecond)
    → IsFilled self
    → self.previous_group ≡ some p
    → (deltas : List InterArrivalDeltaMillisecond) × (next : InterArrivalMillisecond)
      × (q : TimestampGroupMillisecond) × (run packets self ≡ ok (deltas, next))
      × (next.previous_group ≡ some q)
      × Between p q (total deltas)
unfolding Outcome Leads
run-total packets self p h e =
    let (deltas, next, r, (filled, leads)) = run-Outcome packets self h in
    let (q, at, sums) = subst (λ o. Leads o (total deltas) next.previous_group) e leads in
    (deltas, next, q, r, at, sums)

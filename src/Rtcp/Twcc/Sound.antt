-- ===== src/Rtcp/Twcc/Sound.antt =====
-- transport/rtp.py: what the reading of transport-wide feedback returns.
use pure_webrtc_transport.Base.{
  ℕ, suc, ◌+◌, ◌-◌, ◌*◌, ◌/◌, ◌%◌, ◌^◌, ◌≤◌, ◌<◌, ◌≡◌, refl, subst, true, false, List, [], ◌∷◌,
  length, arith, ltb, ◌==◌, ==_iff, Bool-cases, le→ltb, inl, inr, lt→ltb, take, drop,
}
use pure_webrtc_transport.Base.Bits.{bit, pow_add}
use pure_webrtc_transport.Base.Int.{ℤ, ◌+ℤ◌}
use pure_webrtc_transport.Base.Result.{Result, ok, ◌>>=◌, >>=-eq-ok}
use pure_webrtc_transport.Struct.{Bytes, IsBytes, signed, read_h}
use pure_webrtc_transport.Rtcp.Types.{TwccPacketResult}
use pure_webrtc_transport.Rtcp.Twcc.{
  value, parse_signed_bytes, ChunkStatus, not_received, small_delta, large_delta, reserved,
  received, TwccChunk, read_statuses, read_deltas, results, parse_twcc, content_from,
  reference_quarters,
}
use native.Mathlib.Nat.{mul-le-mul_right}

value-bound : (bytes : Bytes) → IsBytes bytes → value bytes < 2 ^ (8 * length bytes)
unfolding value
value-bound [] h = omega arith
value-bound (d ∷ rest) (h, hs) =
    let w : ℕ = 2 ^ (8 * length rest) in
    let size : 8 * suc (length rest) ≡ 8 * length rest + 8 = omega arith in
    let high : d * w ≤ 255 * w = mul-le-mul_right w (omega arith) in
    rw (size, pow_add 2 (8 * length rest) 8) (omega (arith, value-bound rest hs))

not_set : (d : ℕ) → d < 256 → (bit d 7 == 1) ≡ false → d ≤ 127
not_set d h e = ground (arith, ==_iff (bit d 7) 1)

-- `parse_signed_bytes` reads any number of bytes, at least one, as two's complement.
pub parse_signed_bytes_lem :
    (d : ℕ) (rest : Bytes)
    → IsBytes (d ∷ rest)
    → parse_signed_bytes (d ∷ rest) ≡ ok (signed (value (d ∷ rest)) (8 * length (d ∷ rest)))
unfolding parse_signed_bytes value
parse_signed_bytes_lem d rest (h, hs) =
    let w : ℕ = 2 ^ (8 * length rest) in
    let v = value-bound rest hs in
    let size : 8 * suc (length rest) ≡ 8 * length rest + 8 = omega arith in
    let less : 8 * length rest + 8 - 1 ≡ 8 * length rest + 7 = omega arith in
    let whole = pow_add 2 (8 * length rest) 8 in
    let half = pow_add 2 (8 * length rest) 7 in
    rw (size, less, whole, half)
      (elim (Bool-cases (bit d 7 == 1)) [
        | inl e ↦
            let set : d / 2 ^ 7 % 2 ≡ 1 = (==_iff _ 1).0 e in
            let high : 128 * w ≤ d * w = mul-le-mul_right w (omega arith) in
            let top : d * w ≤ 255 * w = mul-le-mul_right w (omega arith) in
            let above : ltb (d * w + value rest) (w * 128) ≡ false = le→ltb _ _ (omega arith) in
            let place : w * 256 - 1 - (d * w + value rest - 1)
                ≡ suc (w * 256 - 1 - (d * w + value rest)) =
              omega arith in
            rw (e, above, place) refl
        | inr e ↦
            let high : d * w ≤ 127 * w = mul-le-mul_right w (not_set d h e) in
            let below : ltb (d * w + value rest) (w * 128) ≡ true = lt→ltb _ _ (omega arith) in
            rw (e, below) refl
      ])

-- The results are numbered one after the other from `base` on.
pub Consecutive : ℕ → List TwccPacketResult → Type 0
Consecutive base [] = Unit {0}
Consecutive base (r ∷ rs) = (r.t_seq ≡ base) × Consecutive (base + 1) rs

Numbered : ℕ → List TwccChunk → Type 0
Numbered base [] = Unit {0}
Numbered base (c ∷ cs) = (c.seq ≡ base) × Numbered (base + 1) cs

Numbered-cons :
    (m : Result (List TwccChunk)) (c : TwccChunk) {cs : List TwccChunk}
    → ((chunks : List TwccChunk) → m ≡ ok chunks → Numbered (c.seq + 1) chunks)
    → (m >>= λ chunks. ok (c ∷ chunks)) ≡ ok cs
    → Numbered c.seq cs
unfolding Numbered
Numbered-cons m c {cs} ih h =
    let (chunks, e, done) = >>=-eq-ok m (λ chunks. ok (c ∷ chunks)) h in
    let same : c ∷ chunks ≡ cs = cc in subst (Numbered c.seq) same (refl, ih chunks e)

read_deltas-Numbered :
    (statuses : List ChunkStatus) (seq : ℕ) (bytes : Bytes) (cs : List TwccChunk)
    → read_deltas statuses seq bytes ≡ ok cs
    → Numbered seq cs
unfolding read_deltas Numbered
read_deltas-Numbered [] seq bytes [] h = tt
read_deltas-Numbered [] seq bytes (c ∷ cs) h = cc
read_deltas-Numbered (not_received ∷ statuses) seq bytes cs h =
    Numbered-cons (read_deltas statuses (seq + 1) bytes) _
      (read_deltas-Numbered statuses (seq + 1) bytes) h
read_deltas-Numbered (reserved ∷ statuses) seq bytes cs h =
    Numbered-cons (read_deltas statuses (seq + 1) bytes) _
      (read_deltas-Numbered statuses (seq + 1) bytes) h
read_deltas-Numbered (small_delta ∷ statuses) seq [] cs h = cc
read_deltas-Numbered (small_delta ∷ statuses) seq (d ∷ bytes) cs h =
    Numbered-cons (read_deltas statuses (seq + 1) bytes) _
      (read_deltas-Numbered statuses (seq + 1) bytes) h
read_deltas-Numbered (large_delta ∷ statuses) seq bytes cs h =
    let (delta, e, rest) = >>=-eq-ok (parse_signed_bytes (take 2 bytes)) _ h in
    Numbered-cons (read_deltas statuses (seq + 1) (drop 2 bytes)) _
      (read_deltas-Numbered statuses (seq + 1) (drop 2 bytes)) rest

results-Consecutive :
    (cs : List TwccChunk) (base : ℕ) (quarters : ℤ)
    → Numbered base cs
    → Consecutive base (results cs quarters)
unfolding results Consecutive Numbered
results-Consecutive [] base quarters h = tt
results-Consecutive (c ∷ cs) base quarters (h, hs) = elim (Bool-cases (received c.status)) [
  | inl e ↦ rw e (h, results-Consecutive cs (base + 1) (quarters +ℤ c.delta) hs)
  | inr e ↦ rw e (h, results-Consecutive cs (base + 1) quarters hs)
]

-- The results that `RtcpRtpfbTwccPacket.parse` returns are numbered one after the other from the base
-- sequence number in the first two bytes on, with no number left out.
pub parse_twcc-Consecutive :
    (a b : ℕ) (rest : Bytes) (rs : List TwccPacketResult)
    → parse_twcc (a ∷ b ∷ rest) ≡ ok rs
    → Consecutive (a * 2 ^ 8 + b) rs
unfolding parse_twcc read_h
parse_twcc-Consecutive a b rest rs h =
    let (head, e₁, h₁) = >>=-eq-ok (read_h rest) _ h in
    let (reference, e₂, h₂) = >>=-eq-ok (parse_signed_bytes (take 3 head.1)) _ h₁ in
    let (content, e₃, h₃) = >>=-eq-ok (content_from (drop 3 head.1)) _ h₂ in
    let (statuses, e₄, h₄) = >>=-eq-ok (read_statuses head.0 0 content) _ h₃ in
    let (chunks, e₅, h₅) = >>=-eq-ok (read_deltas statuses.0 (a * 2 ^ 8 + b) statuses.1) _ h₄ in
    let numbered = read_deltas-Numbered statuses.0 (a * 2 ^ 8 + b) statuses.1 chunks e₅ in
    let same : results chunks (reference_quarters reference) ≡ rs = cc in
    subst (Consecutive (a * 2 ^ 8 + b)) same
      (results-Consecutive chunks (a * 2 ^ 8 + b) (reference_quarters reference) numbered)

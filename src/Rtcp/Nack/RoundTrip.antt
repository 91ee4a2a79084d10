-- ===== src/Rtcp/Nack/RoundTrip.antt =====
-- transport/rtp.py: a list of lost packets survives its encoding.
use pure_webrtc_transport.Base.{
  ℕ, zero, suc, ◌+◌, ◌-◌, ◌*◌, ◌/◌, ◌%◌, ◌^◌, ◌≤◌, ◌<◌, ◌≡◌, refl, sym, ◌∙◌, List, [], ◌∷◌, ◌++◌,
  length, length-append, arith, ltb, leb, ◌==◌, if◌then◌else◌, ltb→lt, leb→le, Bool-cases, inl, inr,
  All, append_assoc, append-nil,
}
use Prim.Native.Nat.{bit_or}
use pure_webrtc_transport.Base.Bits.{bit_or-low_high}
use pure_webrtc_transport.Base.Result.{ok}
use pure_webrtc_transport.Struct.{Bytes, be16}
use pure_webrtc_transport.Struct.Laws.{pack_h_lem}
use pure_webrtc_transport.Rtcp.Nack.{
  write_entry, write_lost_loop, write_lost, read_mask, read_lost_loop, read_lost,
}
use native.Mathlib.Nat.{pow-suc, pow-le-pow_right, div-div-eq-div-mul}

-- Each number is above the one before it.
unfoldable pub Ascending : ℕ → List ℕ → Type 0
Ascending low [] = Unit {0}
Ascending low (p ∷ ps) = (low < p) × Ascending p ps

unfoldable pub IsAscending : List ℕ → Type 0
unfolding Ascending
IsAscending [] = Unit {0}
IsAscending (p ∷ ps) = Ascending p ps

-- The loop over the mask with the mask shifted at each round.
read_shifted : (rounds pid blp : ℕ) → List ℕ
read_shifted zero pid blp = []
read_shifted (suc rounds) pid blp =
    (if blp % 2 == 1 then (pid + 1) ∷ [] else []) ++ read_shifted rounds (pid + 1) (blp / 2)

read_mask-shifted :
    (rounds d pid blp : ℕ)
    → read_mask rounds d pid blp ≡ read_shifted rounds (pid + d) (blp / 2 ^ d)
unfolding read_mask read_shifted
read_mask-shifted zero d pid blp = refl
read_mask-shifted (suc rounds) d pid blp =
    let next : blp / 2 ^ suc d ≡ blp / 2 ^ d / 2 =
      rw (pow-suc 2 d) (sym (div-div-eq-div-mul blp (2 ^ d) 2)) in
    let place : pid + suc d ≡ pid + d + 1 = omega arith in
    rw (read_mask-shifted rounds (suc d) pid blp, next, place) refl

read_shifted-zero : (rounds pid : ℕ) → read_shifted rounds pid 0 ≡ []
unfolding read_shifted
read_shifted-zero zero pid = refl
read_shifted-zero (suc rounds) pid = read_shifted-zero rounds (pid + 1)

-- A bit above the others adds its packet at the end.
read_shifted-snoc :
    (rounds k pid blp : ℕ)
    → k < rounds
    → blp < 2 ^ k
    → read_shifted rounds pid (2 ^ k + blp) ≡ read_shifted rounds pid blp ++ ((pid + k + 1) ∷ [])
unfolding read_shifted
read_shifted-snoc zero k pid blp h b = absurd (omega arith)
read_shifted-snoc (suc rounds) zero pid zero h b =
    let place : pid + 0 + 1 ≡ pid + 1 = omega arith in
    rw (read_shifted-zero rounds (pid + 1), place) refl
read_shifted-snoc (suc rounds) zero pid (suc blp) h b = absurd (omega arith)
read_shifted-snoc (suc rounds) (suc k) pid blp h b =
    let parity : (2 ^ suc k + blp) % 2 ≡ blp % 2 = omega (arith, pow-suc 2 k) in
    let half : (2 ^ suc k + blp) / 2 ≡ 2 ^ k + blp / 2 = omega (arith, pow-suc 2 k) in
    let place : pid + suc k + 1 ≡ pid + 1 + k + 1 = omega arith in
    let rest =
      read_shifted-snoc rounds k (pid + 1) (blp / 2) (omega arith) (omega (arith, pow-suc 2 k)) in
    rw (parity, half, rest, place)
      (sym (
        append_assoc (if blp % 2 == 1 then (pid + 1) ∷ [] else [])
          (read_shifted rounds (pid + 1) (blp / 2)) ((pid + 1 + k + 1) ∷ [])))

entry_lem :
    (pid blp : ℕ)
    → pid < 2 ^ 16
    → blp < 2 ^ 16
    → (entry : Bytes) × (write_entry pid blp ≡ ok entry)
      × (length entry ≡ 4)
      × ((rest : Bytes) (lost : List ℕ)
          → read_lost_loop rest ≡ ok lost
          → read_lost_loop (entry ++ rest) ≡ ok (pid ∷ (read_shifted 16 pid blp ++ lost)))
unfolding write_entry read_lost_loop be16
entry_lem pid blp h b =
    let high : pid / 2 ^ 8 * 2 ^ 8 + pid % 2 ^ 8 ≡ pid = omega arith in
    let low : blp / 2 ^ 8 * 2 ^ 8 + blp % 2 ^ 8 ≡ blp = omega arith in
    let here : pid + 0 ≡ pid = omega arith in
    let all : blp / 2 ^ 0 ≡ blp = omega arith in
    (
      be16 pid ++ be16 blp,
      rw (pack_h_lem pid h, pack_h_lem blp b),
      refl,
      λ rest lost read. rw (read, high, low, read_mask-shifted 16 0 pid blp, here, all) refl,
    )

loop_lem :
    (pid blp k : ℕ) (ps : List ℕ)
    → pid < 2 ^ 16
    → k ≤ 16
    → blp < 2 ^ k
    → All (λ p. p < 2 ^ 16) ps
    → Ascending (pid + k) ps
    → (bytes : Bytes) × (write_lost_loop pid blp ps ≡ ok bytes)
      × (length bytes % 4 ≡ 0)
      × (length bytes ≤ 4 * suc (length ps))
      × (read_lost_loop bytes ≡ ok (pid ∷ (read_shifted 16 pid blp ++ ps)))
unfolding write_lost_loop read_lost_loop Ascending
loop_lem pid blp k [] h w b hs up =
    let wide : 2 ^ k ≤ 2 ^ 16 = pow-le-pow_right (omega arith) w in
    let (entry, written, size, read) = entry_lem pid blp h (omega arith) in
    (
      entry,
      written,
      omega (arith, size),
      omega (arith, size),
      rw (append-nil entry) at (read [] [] refl),
    )
loop_lem pid blp k (p ∷ ps) h w b (hp, hs) (lt, up) = elim (Bool-cases (leb p pid)) [
  | inl e ↦ absurd (omega (arith, leb→le p pid e))
  | inr e ↦ elim (Bool-cases (ltb (p - pid - 1) 16)) [
    | inl near ↦
        let d : ℕ = p - pid - 1 in
        let below = ltb→lt d 16 near in
        let wide : 2 ^ k ≤ 2 ^ d = pow-le-pow_right (omega arith) (omega arith) in
        let one_mul : 1 * 2 ^ d ≡ 2 ^ d = omega arith in
        let joined : bit_or blp (2 ^ d) ≡ 2 ^ d + blp =
          rw one_mul at (bit_or-low_high d 1 blp (omega arith)) in
        let here : pid + suc d ≡ p = omega arith in
        let place : pid + d + 1 ≡ p = omega arith in
        let step : write_lost_loop pid blp (p ∷ ps) ≡ write_lost_loop pid (2 ^ d + blp) ps =
          rw (e, near, joined) refl in
        let (bytes, written, words, few, read) =
          loop_lem pid (2 ^ d + blp) (suc d) ps h (omega arith) (omega (arith, pow-suc 2 d)) hs
            (rw here up) in
        (
          bytes,
          step ∙ written,
          words,
          omega (arith, few),
          rw (read_shifted-snoc 16 d pid blp below (omega arith), place, append_assoc) at read,
        )
    | inr far ↦
        let wide : 2 ^ k ≤ 2 ^ 16 = pow-le-pow_right (omega arith) w in
        let (entry, written, size, read) = entry_lem pid blp h (omega arith) in
        let zero_right : p + 0 ≡ p = omega arith in
        let (bytes, written', words, few, read') =
          loop_lem p 0 0 ps hp (omega arith) (omega arith) hs (rw zero_right up) in
        (
          entry ++ bytes,
          rw (e, far, written, written'),
          omega (arith, length-append entry bytes, size, words),
          omega (arith, length-append entry bytes, size, few),
          read bytes (p ∷ ps) (rw (read_shifted-zero 16 p) at read'),
        )
  ]
]

-- A strictly ascending list of sequence numbers below 2^16 is written in whole 32-bit words, at most
-- one for each number, and `RtcpRtpfbPacket.parse` reads the same list back.
pub read-write_lost :
    (lost : List ℕ)
    → All (λ p. p < 2 ^ 16) lost
    → IsAscending lost
    → (bytes : Bytes) × (write_lost lost ≡ ok bytes)
      × (length bytes % 4 ≡ 0)
      × (length bytes ≤ 4 * length lost)
      × (read_lost bytes ≡ ok lost)
unfolding write_lost read_lost read_lost_loop IsAscending
read-write_lost [] h up = ([], refl, refl, omega arith, refl)
read-write_lost (p ∷ ps) (h, hs) up =
    let zero_right : p + 0 ≡ p = omega arith in
    let (bytes, written, words, few, read) =
      loop_lem p 0 0 ps h (omega arith) (omega arith) hs (rw zero_right up) in
    (bytes, written, words, few, rw (words) (rw (read_shifted-zero 16 p) at read))

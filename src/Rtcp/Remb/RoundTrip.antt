-- ===== src/Rtcp/Remb/RoundTrip.antt =====
-- transport/rtp.py: what the bytes of a bitrate estimate keep of it.
use Prim.Native.Nat.{bit_or}
use pure_webrtc_transport.Base.{
  ℕ, zero, suc, ◌+◌, ◌-◌, ◌*◌, ◌/◌, ◌%◌, ◌^◌, ◌≤◌, ◌<◌, ◌≡◌, refl, sym, ◌∙◌, false, List, [], ◌∷◌,
  length, arith, ltb, ltb→lt, Bool-cases, le→ltb, inl, inr, All, append-nil, ◌⊎◌, ltb→le,
}
use pure_webrtc_transport.Base.Bits.{bit_or-high_low}
use pure_webrtc_transport.Base.Result.{ok}
use pure_webrtc_transport.Struct.{Bytes, be16}
use pure_webrtc_transport.Struct.Laws.{pack_h_lem, pack_b_lem, read-pack_longs}
use pure_webrtc_transport.Rtcp.Remb.{scale, pack_remb_fci, unpack_remb_fci}
use pure_webrtc_transport.Base.Bits.{shr}
use native.Mathlib.Nat.{
  pow-suc, div-add-mod', mul-le-mul_right, mod-lt, pow-succ', pow-le-pow_right, div-div-eq-div-mul,
}

-- The loop ends with a mantissa of 18 bits that has its top bit set, or was not halved.
Scaled : (j fuel exponent mantissa : ℕ) → Type 0
Scaled j fuel exponent mantissa =
    (k : ℕ) × (k ≤ j)
    × (scale fuel exponent mantissa ≡ ok (exponent + k, mantissa / 2 ^ k))
    × (mantissa / 2 ^ k < 2 ^ 18)
    × ((k ≡ 0) ⊎ (2 ^ 17 ≤ mantissa / 2 ^ k))

scale_small :
    (j fuel exponent mantissa : ℕ) → ltb 0x3FFFF mantissa ≡ false → Scaled j fuel exponent mantissa
unfolding scale Scaled
scale_small j fuel exponent mantissa small =
    let same : exponent + 0 ≡ exponent = omega arith in
    let all : mantissa / 2 ^ 0 ≡ mantissa = omega arith in
    let done : scale fuel exponent mantissa ≡ ok (exponent, mantissa) =
      (elim fuel as (λ n. scale n exponent mantissa ≡ ok (exponent, mantissa)) [
        | zero ↦ rw small refl
        | suc n ↦ rw small refl
      ]) in
    (
      0,
      omega arith,
      rw (same, all) done,
      rw all (omega (arith, ltb→le 0x3FFFF mantissa small)),
      inl refl,
    )

scale_lem :
    (j fuel exponent mantissa : ℕ)
    → mantissa ≤ fuel
    → mantissa < 2 ^ 18 * 2 ^ j
    → Scaled j fuel exponent mantissa
unfolding scale Scaled
scale_lem j zero exponent mantissa h b =
    scale_small j zero exponent mantissa (le→ltb 0x3FFFF mantissa (omega arith))
scale_lem zero (suc fuel) exponent mantissa h b =
    scale_small zero (suc fuel) exponent mantissa (le→ltb 0x3FFFF mantissa (omega arith))
scale_lem (suc j) (suc fuel) exponent mantissa h b = elim (Bool-cases (ltb 0x3FFFF mantissa)) [
  | inr small ↦ scale_small (suc j) (suc fuel) exponent mantissa small
  | inl big ↦
      let lt = ltb→lt 0x3FFFF mantissa big in
      let (k, bound, run, top, least) =
        scale_lem j fuel (exponent + 1) (shr mantissa 1) (omega arith)
          (omega (arith, pow-suc 2 j)) in
      let quotient : mantissa / 2 ^ suc k ≡ mantissa / 2 ^ 1 / 2 ^ k =
        rw (pow-succ' 2 k) (sym (div-div-eq-div-mul mantissa 2 (2 ^ k))) in
      let sum : exponent + suc k ≡ exponent + 1 + k = omega arith in
      (
        suc k,
        omega arith,
        rw (big, quotient, sum) run,
        rw quotient top,
        inr (rw quotient (elim least [ inl z ↦ rw z (omega (arith, lt)) | inr le ↦ le ])),
      )
]

-- The rounding loses less than one part in 2^17.
rounding :
    (m k : ℕ)
    → (k ≡ 0) ⊎ (2 ^ 17 ≤ m / 2 ^ k)
    → (m / 2 ^ k * 2 ^ k ≤ m) × ((m - m / 2 ^ k * 2 ^ k) * 2 ^ 17 ≤ m)
rounding m k (inl z) =
    let all : m / 2 ^ 0 * 2 ^ 0 ≡ m = omega arith in rw (z, all) (omega arith, omega arith)
rounding m k (inr h) =
    let whole = div-add-mod' m (2 ^ k) in
    let positive = pow-le-pow_right {n = 2} (omega arith) {i = 0} {j = k} (omega arith) in
    let rest : m % 2 ^ k < 2 ^ k = mod-lt m (omega arith) in
    let large : 2 ^ 17 * 2 ^ k ≤ m / 2 ^ k * 2 ^ k = mul-le-mul_right (2 ^ k) h in
    (omega arith, omega arith)

-- The third byte of the exponent's and mantissa's bits, as the parser joins them.
joined :
    (high x y : ℕ)
    → x < 2 ^ 8
    → y < 2 ^ 8
    → bit_or (bit_or (high * 2 ^ 16) (x * 2 ^ 8)) y ≡ high * 2 ^ 16 + x * 2 ^ 8 + y
joined high x y hx hy =
    let inner = bit_or-high_low 16 high (x * 2 ^ 8) (omega arith) in
    let shift : high * 2 ^ 16 + x * 2 ^ 8 ≡ (high * 2 ^ 8 + x) * 2 ^ 8 = omega arith in
    rw (inner, shift) (bit_or-high_low 8 (high * 2 ^ 8 + x) y hy)

-- A bitrate below 2^81 is written, and `unpack_remb_fci` reads back the SSRCs and a bitrate that is
-- at most the one written, and below it by at most one part in 2^17.
pub unpack-pack_remb_fci :
    (bitrate : ℕ) (ssrcs : List ℕ)
    → bitrate < 2 ^ 81
    → length ssrcs < 2 ^ 8
    → All (λ ssrc. ssrc < 2 ^ 32) ssrcs
    → (bytes : Bytes) × (estimate : ℕ) × (pack_remb_fci bitrate ssrcs ≡ ok bytes)
      × (unpack_remb_fci bytes ≡ ok (estimate, ssrcs))
      × (estimate ≤ bitrate)
      × ((bitrate - estimate) * 2 ^ 17 ≤ bitrate)
unfolding pack_remb_fci unpack_remb_fci Scaled be16
unpack-pack_remb_fci bitrate ssrcs b n h =
    let (k, bound, run, top, least) = scale_lem 63 bitrate 0 bitrate (omega arith) (omega arith) in
    let (longs, written, size, read) = read-pack_longs ssrcs h in
    let (low, loss) = rounding bitrate k least in
    let m : ℕ = bitrate / 2 ^ k in
    let e : ℕ = k * 2 ^ 2 + m / 2 ^ 16 in
    let sum : 0 + k ≡ k = omega arith in
    let first : bit_or (k * 2 ^ 2) (m / 2 ^ 16) ≡ e =
      bit_or-high_low 2 k (m / 2 ^ 16) (omega arith) in
    let x : ℕ = m % 2 ^ 16 / 2 ^ 8 in
    let y : ℕ = m % 2 ^ 16 % 2 ^ 8 in
    let scale_back : (e - e % 2 ^ 2) / 2 ^ 2 ≡ k = omega arith in
    let high : e % 2 ^ 2 ≡ m / 2 ^ 16 = omega arith in
    let parts : bit_or (bit_or (e % 2 ^ 2 * 2 ^ 16) (x * 2 ^ 8)) y ≡ m =
      joined (e % 2 ^ 2) x y (omega arith) (omega arith) ∙ omega arith in
    (
      82 ∷ 69 ∷ 77 ∷ 66 ∷ length ssrcs ∷ e ∷ (m % 2 ^ 16 / 2 ^ 8) ∷ (m % 2 ^ 16 % 2 ^ 8) ∷ longs,
      m * 2 ^ k,
      rw
          (
            run,
            sum,
            pack_b_lem (length ssrcs) n,
            first,
            pack_b_lem e (omega arith),
            pack_h_lem (m % 2 ^ 16) (omega arith),
            written,
          )
          refl,
      rw (rw (append-nil longs) at (read []), scale_back, parts) refl,
      low,
      loss,
    )

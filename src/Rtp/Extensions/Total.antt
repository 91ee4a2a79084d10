-- ===== src/Rtp/Extensions/Total.antt =====
-- transport/rtp.py: the readers of header extensions end on every input.
use pure_webrtc_transport.Base.{
  ℕ, zero, suc, ◌≤◌, ◌≡◌, ◌≢◌, [], ◌∷◌, ◌==◌, Bool-cases, inl, inr, length, length-drop, arith,
}
use pure_webrtc_transport.Base.Result.{ok, stuck, >>=-ne-stuck}
use pure_webrtc_transport.Struct.{Bytes}
use pure_webrtc_transport.Rtp.Extensions.{
  take_value, one_byte_loop, two_byte_loop, unpack_header_extensions,
}

take_value-shrinks :
    (n : ℕ) (rest : Bytes) {v r : Bytes} → take_value n rest ≡ ok (v, r) → length r ≤ length rest
unfolding take_value
take_value-shrinks n rest h = ground (arith, length-drop n rest)

take_value-ne-stuck : (n : ℕ) (rest : Bytes) → take_value n rest ≢ stuck
unfolding take_value
take_value-ne-stuck n rest = ground arith

one_byte_loop-ne-stuck :
    (fuel : ℕ) (bytes : Bytes) → length bytes ≤ fuel → one_byte_loop fuel bytes ≢ stuck
unfolding one_byte_loop
one_byte_loop-ne-stuck fuel [] h = λ e. cc
one_byte_loop-ne-stuck zero (b ∷ rest) h = absurd (omega arith)
one_byte_loop-ne-stuck (suc fuel) (b ∷ rest) h = elim (Bool-cases (b == 0)) [
  | inl z ↦ rw z (one_byte_loop-ne-stuck fuel rest (omega arith))
  | inr z ↦ rw z (
      >>=-ne-stuck (take_value _ rest) _ (take_value-ne-stuck _ rest) λ (v, r) e.
        >>=-ne-stuck (one_byte_loop fuel r) _
          (one_byte_loop-ne-stuck fuel r (omega (arith, take_value-shrinks _ rest e)))
          λ more _ p. cc)
]

two_byte_loop-ne-stuck :
    (fuel : ℕ) (bytes : Bytes) → length bytes ≤ fuel → two_byte_loop fuel bytes ≢ stuck
unfolding two_byte_loop
two_byte_loop-ne-stuck fuel [] h = λ e. cc
two_byte_loop-ne-stuck zero (b ∷ rest) h = absurd (omega arith)
two_byte_loop-ne-stuck (suc fuel) (b ∷ []) h = elim (Bool-cases (b == 0)) [
  | inl z ↦ rw z (two_byte_loop-ne-stuck fuel [] (omega arith))
  | inr z ↦ rw z (λ e. cc)
]
two_byte_loop-ne-stuck (suc fuel) (b ∷ n ∷ rest) h = elim (Bool-cases (b == 0)) [
  | inl z ↦ rw z (two_byte_loop-ne-stuck fuel (n ∷ rest) (omega arith))
  | inr z ↦ rw z (
      >>=-ne-stuck (take_value n rest) _ (take_value-ne-stuck n rest) λ (v, r) e.
        >>=-ne-stuck (two_byte_loop fuel r) _
          (two_byte_loop-ne-stuck fuel r (omega (arith, take_value-shrinks _ rest e)))
          λ more _ p. cc)
]

-- Reading header extensions ends on every profile and value: no loop runs out of rounds.
pub unpack_header_extensions-ne-stuck :
    (profile : ℕ) (value : Bytes) → unpack_header_extensions profile value ≢ stuck
unfolding unpack_header_extensions
unpack_header_extensions-ne-stuck profile value = ground (
  arith,
  one_byte_loop-ne-stuck (length value) value (omega arith),
  two_byte_loop-ne-stuck (length value) value (omega arith),
)

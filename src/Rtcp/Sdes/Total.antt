-- ===== src/Rtcp/Sdes/Total.antt =====
-- transport/rtp.py: reading source descriptions ends on every input.
use pure_webrtc_transport.Base.{
  ℕ, zero, suc, ◌≤◌, ◌≢◌, Bool, true, false, [], ◌∷◌, length, length-drop, drop, arith, leb, ◌==◌,
  Bool-cases, inl, inr,
}
use pure_webrtc_transport.Base.Result.{stuck, >>=-ne-stuck, guard, value_error}
use pure_webrtc_transport.Struct.{Bytes, read_l}
use pure_webrtc_transport.Struct.Laws.{read_l-ne-stuck}
use pure_webrtc_transport.Rtcp.Sdes.{read_items, read_chunks}

pub guard-ne-stuck : (b : Bool) → guard b value_error ≢ stuck
guard-ne-stuck true = λ e. cc
guard-ne-stuck false = λ e. cc

read_items-ne-stuck :
    (fuel : ℕ) (bytes : Bytes) → length bytes ≤ fuel → read_items fuel bytes ≢ stuck
unfolding read_items
read_items-ne-stuck fuel [] h = λ e. cc
read_items-ne-stuck fuel (b ∷ []) h = λ e. cc
read_items-ne-stuck zero (b ∷ c ∷ rest) h = absurd (omega arith)
read_items-ne-stuck (suc fuel) (b ∷ c ∷ rest) h =
    >>=-ne-stuck (guard (leb c (length rest)) value_error) _ (guard-ne-stuck _) λ _ _.
      elim (Bool-cases (b == 0)) [
        | inl z ↦ rw z (λ e. cc)
        | inr z ↦ rw z (
            >>=-ne-stuck (read_items fuel (drop c rest)) _
              (read_items-ne-stuck fuel (drop c rest) (omega (arith, length-drop c rest)))
              λ more _ e. cc)
      ]

pub read_chunks-ne-stuck : (count : ℕ) (bytes : Bytes) → read_chunks count bytes ≢ stuck
unfolding read_chunks
read_chunks-ne-stuck zero bytes = λ e. cc
read_chunks-ne-stuck (suc count) bytes =
    >>=-ne-stuck (guard (leb 4 (length bytes)) value_error) _ (guard-ne-stuck _) λ _ _.
      >>=-ne-stuck (read_l bytes) _ (read_l-ne-stuck bytes) λ (ssrc, rest) _.
        >>=-ne-stuck (read_items (length rest) rest) _
          (read_items-ne-stuck (length rest) rest (omega arith))
          λ (items, rest') _.
            >>=-ne-stuck (read_chunks count rest') _ (read_chunks-ne-stuck count rest') λ cs _ e. cc

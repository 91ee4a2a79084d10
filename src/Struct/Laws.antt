-- ===== src/Struct/Laws.antt =====
-- The formats of `struct`: what was packed is read back, and leaves the bytes that follow.
use pure_webrtc_transport.Base.{
  ℕ, zero, suc, ◌+◌, ◌*◌, ◌/◌, ◌%◌, ◌^◌, ◌≤◌, ◌<◌, ◌≡◌, ◌≢◌, refl, List, [], ◌∷◌, ◌++◌, length,
  length-append, arith, All, append_assoc,
}
use pure_webrtc_transport.Base.Result.{ok, stuck, >>=-ne-stuck}
use pure_webrtc_transport.Struct.{
  Bytes, IsBytes, be16, be32, be64, pack_b, pack_h, pack_l, pack_q, read_h, read_l, read_q,
  pack_longs, read_longs,
}

pub length-be16 : (n : ℕ) → length (be16 n) ≡ 2
unfolding be16
length-be16 n = refl

pub length-be32 : (n : ℕ) → length (be32 n) ≡ 4
unfolding be32
length-be32 n = refl

pub length-be64 : (n : ℕ) → length (be64 n) ≡ 8
unfolding be64
length-be64 n = refl

pub be16-IsBytes : (n : ℕ) → n < 2 ^ 16 → IsBytes (be16 n)
unfolding be16
be16-IsBytes n h = omega arith

pub be32-IsBytes : (n : ℕ) → n < 2 ^ 32 → IsBytes (be32 n)
unfolding be32
be32-IsBytes n h = omega arith

pub pack_b_lem : (n : ℕ) → n < 2 ^ 8 → pack_b n ≡ ok (n ∷ [])
unfolding pack_b
pack_b_lem n h = ground arith

pub pack_h_lem : (n : ℕ) → n < 2 ^ 16 → pack_h n ≡ ok (be16 n)
unfolding pack_h
pack_h_lem n h = ground arith

pub pack_l_lem : (n : ℕ) → n < 2 ^ 32 → pack_l n ≡ ok (be32 n)
unfolding pack_l
pack_l_lem n h = ground arith

pub pack_q_lem : (n : ℕ) → n < 2 ^ 64 → pack_q n ≡ ok (be64 n)
unfolding pack_q
pack_q_lem n h = ground arith

pub read_h-be16 : (n : ℕ) (rest : Bytes) → read_h (be16 n ++ rest) ≡ ok (n, rest)
unfolding read_h be16
read_h-be16 n rest = ground arith

pub read_l-be32 : (n : ℕ) (rest : Bytes) → read_l (be32 n ++ rest) ≡ ok (n, rest)
unfolding read_l be32
read_l-be32 n rest = ground arith

pub read_q-be64 : (n : ℕ) (rest : Bytes) → read_q (be64 n ++ rest) ≡ ok (n, rest)
unfolding read_q be64
read_q-be64 n rest = ground (arith, read_l-be32 (n / 2 ^ 32) (be32 (n % 2 ^ 32) ++ rest))

pub read_l-ne-stuck : (bytes : Bytes) → read_l bytes ≢ stuck
unfolding read_l
read_l-ne-stuck (a ∷ b ∷ c ∷ d ∷ rest) = λ e. cc
read_l-ne-stuck (a ∷ b ∷ c ∷ []) = λ e. cc
read_l-ne-stuck (a ∷ b ∷ []) = λ e. cc
read_l-ne-stuck (a ∷ []) = λ e. cc
read_l-ne-stuck [] = λ e. cc

-- A reader takes its bytes and no more.
pub length-read_l :
    (bytes : Bytes) {n : ℕ} {rest : Bytes}
    → read_l bytes ≡ ok (n, rest)
    → length bytes ≡ 4 + length rest
unfolding read_l
length-read_l (a ∷ b ∷ c ∷ d ∷ rest) e = ground arith
length-read_l (a ∷ b ∷ c ∷ []) e = cc
length-read_l (a ∷ b ∷ []) e = cc
length-read_l (a ∷ []) e = cc
length-read_l [] e = cc

pub length-read_h :
    (bytes : Bytes) {n : ℕ} {rest : Bytes}
    → read_h bytes ≡ ok (n, rest)
    → length bytes ≡ 2 + length rest
unfolding read_h
length-read_h (a ∷ b ∷ rest) e = ground arith
length-read_h (a ∷ []) e = cc
length-read_h [] e = cc

-- With four bytes at hand the reader succeeds.
pub read_l_total :
    (bytes : Bytes) → 4 ≤ length bytes → (n : ℕ) × (rest : Bytes) × (read_l bytes ≡ ok (n, rest))
unfolding read_l
read_l_total (a ∷ b ∷ c ∷ d ∷ rest) h = (_, _, refl)
read_l_total (a ∷ b ∷ c ∷ []) h = absurd (omega arith)
read_l_total (a ∷ b ∷ []) h = absurd (omega arith)
read_l_total (a ∷ []) h = absurd (omega arith)
read_l_total [] h = absurd (omega arith)

pub read-pack_longs :
    (ns : List ℕ)
    → All (λ n. n < 2 ^ 32) ns
    → (bytes : Bytes) × (pack_longs ns ≡ ok bytes)
      × (length bytes ≡ 4 * length ns)
      × ((rest : Bytes) → read_longs (length ns) (bytes ++ rest) ≡ ok ns)
unfolding pack_longs read_longs
read-pack_longs [] h = ([], refl, refl, λ rest. refl)
read-pack_longs (n ∷ ns) (h, hs) =
    let (bytes, written, size, read) = read-pack_longs ns hs in
    (
      be32 n ++ bytes,
      rw (pack_l_lem n h, written),
      omega (arith, length-append (be32 n) bytes, length-be32 n, size),
      λ rest. rw (append_assoc (be32 n) bytes rest, read_l-be32 n (bytes ++ rest), read rest),
    )

pub read_longs-ne-stuck : (count : ℕ) (bytes : Bytes) → read_longs count bytes ≢ stuck
unfolding read_longs
read_longs-ne-stuck zero bytes = λ e. cc
read_longs-ne-stuck (suc count) bytes =
    >>=-ne-stuck (read_l bytes) _ (read_l-ne-stuck bytes) λ (n, rest) _.
      >>=-ne-stuck (read_longs count rest) _ (read_longs-ne-stuck count rest) λ more _ e. cc

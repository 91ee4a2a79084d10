-- ===== src/Peer/Codecs/Common.antt =====
-- `find_common_codecs`: where the codecs that it returns come from.
use pure_webrtc_transport.Base.{
  ℕ, true, Bool-cases, ◌⊎◌, inl, inr, Option, none, some, List, [], ◌∷◌, ◌++◌, ◌≡◌, refl, ap, sym,
  ◌∙◌, All, All-append, ◌==◌, ==_iff,
}
use pure_webrtc_transport.Base.Dict.{
  Dict, lookup, insert, nat_key, string_key, lookup-insert, lookup-insert_other,
}
use pure_webrtc_transport.Peer.Codecs.{
  Codec, Param, number, text, apt, is_rtx, is_compatible, agree, first_compatible, base_of, add_rtx,
  add_codec, common_loop, find_common_codecs,
}

module _ {A : Type 0} where
  abbrev pub Member : A → List A → Type 0
  Member x [] = ⊥
  Member x (y ∷ ys) = (x ≡ y) ⊎ Member x ys

  Member-append : (x : A) (xs ys : List A) → Member x xs → Member x (xs ++ ys)
  Member-append x [] ys h = absurd h
  Member-append x (y ∷ xs) ys (inl e) = inl e
  Member-append x (y ∷ xs) ys (inr h) = inr (Member-append x xs ys h)

  Member-last : (x : A) (xs : List A) → Member x (xs ++ (x ∷ []))
  Member-last x [] = inl refl
  Member-last x (y ∷ xs) = inr (Member-last x xs)

  All-Member_suffix :
      (before rest : List A)
      → ((x : A) → Member x rest → Member x before)
      → All (λ x. Member x before) rest
  All-Member_suffix before [] f = tt
  All-Member_suffix before (x ∷ rest) f =
      (f x (inl refl), All-Member_suffix before rest (λ y h. f y (inr h)))

some_eq : (a b : Codec) → some a ≡ some b → a ≡ b
some_eq a b h = cc

pub first_compatible-some :
    (codecs : List Codec) (c k : Codec)
    → first_compatible codecs c ≡ some k
    → (l : Codec) × Member l codecs × (is_compatible l c ≡ true) × (k ≡ agree l c)
first_compatible-some [] c k h = cc
first_compatible-some (codec ∷ codecs) c k h = elim (Bool-cases (is_compatible codec c)) [
  | inl e ↦
      let found : some (agree codec c) ≡ some k = rw e at h in
      (codec, inl refl, e, sym (some_eq (agree codec c) k found))
  | inr e ↦
      let (l, there, fits, same) = first_compatible-some codecs c k (rw e at h) in
      (l, inr there, fits, same)
]

base_of-some :
    (o : Option Param) (base : Dict ℕ Codec) (b : Codec)
    → base_of o base ≡ some b
    → (n : ℕ) × (o ≡ some (number n)) × (lookup n base ≡ some b)
base_of-some none base b h = cc
base_of-some (some (text s)) base b h = cc
base_of-some (some (number n)) base b h = (n, refl, h)

-- Agreed on from a local and a remote codec.
pub record IsAgreed (local remote : List Codec) (c : Codec) : Type 0 where
  pub ours : Codec
  pub theirs : Codec
  pub ours_in : Member ours local
  pub theirs_in : Member theirs remote
  pub compatible : is_compatible ours theirs ≡ true
  pub codec_eq : c ≡ agree ours theirs

-- The remote's retransmission codec for a codec that is returned too.
pub record IsRetransmission (remote common : List Codec) (c : Codec) : Type 0 where
  pub base : Codec
  pub base_in : Member base common
  pub theirs_in : Member c remote
  pub rtx_eq : is_rtx c ≡ true
  pub apt_eq : lookup apt c.parameters ≡ some (number base.payload_type)
  pub clock_eq : c.clock_rate ≡ base.clock_rate

abbrev pub IsSound : List Codec → List Codec → List Codec → Codec → Type 0
IsSound local remote common c = IsAgreed local remote c ⊎ IsRetransmission remote common c

-- `common_base` leads to codecs in `common`, by their payload types.
IsBase : List Codec → Dict ℕ Codec → Type 0
IsBase common base =
    (n : ℕ) (b : Codec) → lookup n base ≡ some b → Member b common × (b.payload_type ≡ n)

module _ (local remote : List Codec) where
  IsSound-append :
      (common more : List Codec) (c : Codec)
      → IsSound local remote common c
      → IsSound local remote (common ++ more) c
  IsSound-append common more c (inl h) = inl h
  IsSound-append common more c (inr h) = inr record {
    base = h.base;
    base_in = Member-append h.base common more h.base_in;
    theirs_in = h.theirs_in;
    rtx_eq = h.rtx_eq;
    apt_eq = h.apt_eq;
    clock_eq = h.clock_eq;
  }

  All-IsSound :
      (common more cs : List Codec)
      → All (IsSound local remote common) cs
      → All (IsSound local remote (common ++ more)) cs
  All-IsSound common more [] h = tt
  All-IsSound common more (c ∷ cs) (h, hs) =
      (IsSound-append common more c h, All-IsSound common more cs hs)

  grow :
      (common : List Codec) (c : Codec)
      → All (IsSound local remote common) common
      → IsSound local remote (common ++ (c ∷ [])) c
      → All (IsSound local remote (common ++ (c ∷ []))) (common ++ (c ∷ []))
  grow common c hs h =
      All-append (IsSound local remote (common ++ (c ∷ []))) common (c ∷ [])
        (All-IsSound common (c ∷ []) common hs) (h, tt)

  IsBase-append :
      (common more : List Codec) (base : Dict ℕ Codec)
      → IsBase common base
      → IsBase (common ++ more) base
  unfolding IsBase
  IsBase-append common more base h n b e =
      let (there, same) = h n b e in (Member-append b common more there, same)

  IsBase-insert :
      (common : List Codec) (base : Dict ℕ Codec) (c : Codec)
      → IsBase common base
      → IsBase (common ++ (c ∷ [])) (insert c.payload_type c base)
  unfolding IsBase
  IsBase-insert common base c h n b e = elim (Bool-cases (n == c.payload_type)) [
    | inl t ↦
        let key : n ≡ c.payload_type = (==_iff n c.payload_type).0 t in
        let found : lookup n (insert c.payload_type c base) ≡ some c =
          rw key (lookup-insert c.payload_type c base) in
        let same : b ≡ c = some_eq b c (sym e ∙ found) in
        (rw same (Member-last c common), rw same (sym key))
    | inr t ↦
        let found = sym (lookup-insert_other n c.payload_type c base t) ∙ e in
        let (there, same) = h n b found in (Member-append b common (c ∷ []) there, same)
  ]

  -- What the loop has so far.
  record Holds (common : List Codec) (base : Dict ℕ Codec) : Type 0 where
    sound : All (IsSound local remote common) common
    based : IsBase common base

  add_rtx-Holds :
      (o : Option Codec) (c : Codec) (common : List Codec) (base : Dict ℕ Codec)
      → base_of (lookup apt c.parameters) base ≡ o
      → Member c remote
      → is_rtx c ≡ true
      → Holds common base
      → Holds (add_rtx o c common) base
  unfolding IsBase
  add_rtx-Holds none c common base e m r h = h
  add_rtx-Holds (some b) c common base e m r h = elim (Bool-cases (c.clock_rate == b.clock_rate)) [
    | inl t ↦
        let (n, key, found) = base_of-some (lookup apt c.parameters) base b e in
        let (there, same) = base_member common base n b h found in
        let accepted : IsRetransmission remote (common ++ (c ∷ [])) c = record {
          base = b;
          base_in = Member-append b common (c ∷ []) there;
          theirs_in = m;
          rtx_eq = r;
          apt_eq = key ∙ ap (λ k. some (number k)) (sym same);
          clock_eq = (==_iff c.clock_rate b.clock_rate).0 t;
        } in
        rw t (record {
          sound = grow common c h.sound (inr accepted);
          based = IsBase-append common (c ∷ []) base h.based;
        })
    | inr t ↦ rw t h
  ]
    where
      base_member :
          (common : List Codec) (base : Dict ℕ Codec) (n : ℕ) (b : Codec)
          → Holds common base
          → lookup n base ≡ some b
          → Member b common × (b.payload_type ≡ n)
      base_member common base n b h e = h.based n b e

  add_codec-Holds :
      (o : Option Codec) (c : Codec) (common : List Codec) (base : Dict ℕ Codec)
      → first_compatible local c ≡ o
      → Member c remote
      → Holds common base
      → Holds (add_codec o (common, base)).0 (add_codec o (common, base)).1
  add_codec-Holds none c common base e m h = h
  add_codec-Holds (some k) c common base e m h =
      let (l, there, fits, same) = first_compatible-some local c k e in
      record {
        sound = grow common k h.sound (
            inl record {
              ours = l;
              theirs = c;
              ours_in = there;
              theirs_in = m;
              compatible = fits;
              codec_eq = same;
            });
        based = IsBase-insert common base k h.based;
      }

  common_loop-IsSound :
      (rest common : List Codec) (base : Dict ℕ Codec)
      → All (λ r. Member r remote) rest
      → Holds common base
      → let result = common_loop local rest (common, base) in
        All (IsSound local remote result) result
  common_loop-IsSound [] common base ms h = h.sound
  common_loop-IsSound (c ∷ rest) common base (m, ms) h = elim (Bool-cases (is_rtx c)) [
    | inl e ↦ rw e (
        common_loop-IsSound rest _ base ms
          (add_rtx-Holds (base_of (lookup apt c.parameters) base) c common base refl m e h))
    | inr e ↦ rw e (
        common_loop-IsSound rest _ _ ms
          (add_codec-Holds (first_compatible local c) c common base refl m h))
  ]

-- Every codec that `find_common_codecs` returns is either a copy of a local codec, agreed with a
-- remote codec that it is compatible with, or a remote retransmission codec whose `apt` is the payload
-- type of a codec of the result with the same clock rate.
pub find_common_codecs-IsSound :
    (local remote : List Codec)
    → let result = find_common_codecs local remote in All (IsSound local remote result) result
unfolding find_common_codecs IsBase
find_common_codecs-IsSound local remote =
    common_loop-IsSound local remote remote [] [] (All-Member_suffix remote remote (λ x h. h))
      (record { sound = tt; based = λ n b e. absurd (no_entry n b e) })
  where
    no_entry : (n : ℕ) (b : Codec) → lookup n [] ≡ some b → ⊥
    no_entry n b e = cc

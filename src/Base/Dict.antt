-- ===== src/Base/Dict.antt =====
-- Python's `dict`, as the list of its entries in insertion order, and sets of object identities.
use Prim.Native.Nat.{ℕ}
use mathlib.Core.Path.{◌≡◌, refl, sym, ap, subst}
use mathlib.Core.Logic.{◌≢◌, ◌↔◌, inl, inr}
use mathlib.Core.Bool.{Bool, true, false, ◌&&◌, ◌||◌}
use mathlib.Core.Option.{Option, none, some}
use mathlib.Core.List.{List, [], ◌∷◌}
use native.Mathlib.Omega.{arith}
use pure_webrtc_transport.Base.Tests.{if◌then◌else◌, ◌==◌, ==_iff, Bool-cases}
use pure_webrtc_transport.Base.Lists.{All}

-- Keys with a test for equality.
pub record Key (K : Type 0) : Type 0 where
  pub test : K → K → Bool
  pub test_iff : (a b : K) → (test a b ≡ true) ↔ (a ≡ b)

instance abbrev pub nat_key : Key ℕ
nat_key = record { test = λ a b. a == b; test_iff = λ a b. ==_iff a b }

abbrev pub Dict : Type 0 → Type 0 → Type 0
Dict K V = List (K × V)

module _ {K : Type 0} {V : Type 0} ⦃key : Key K⦄ where
  -- `d.get(k)`
  abbrev pub lookup : K → Dict K V → Option V
  lookup k [] = none
  lookup k ((a, v) ∷ d) = if key.test k a then some v else lookup k d

  -- `d[k] = v`
  abbrev pub insert : K → V → Dict K V → Dict K V
  insert k v [] = (k, v) ∷ []
  insert k v ((a, w) ∷ d) = if key.test k a then (a, v) ∷ d else (a, w) ∷ insert k v d

  pub lookup-insert : (k : K) (v : V) (d : Dict K V) → lookup k (insert k v d) ≡ some v
  lookup-insert k v [] = rw ((key.test_iff k k).1 refl) refl
  lookup-insert k v ((a, w) ∷ d) = elim (Bool-cases (key.test k a)) [
    | inl e ↦ rw (e, e) refl
    | inr e ↦ rw (e, e) (lookup-insert k v d)
  ]

  pub lookup-insert_other :
      (k l : K) (v : V) (d : Dict K V) → key.test k l ≡ false → lookup k (insert l v d) ≡ lookup k d
  lookup-insert_other k l v [] h = rw h refl
  lookup-insert_other k l v ((a, w) ∷ d) h = elim (Bool-cases (key.test l a)) [
    | inl e ↦
        let same : l ≡ a = (key.test_iff l a).0 e in
        let apart : key.test k a ≡ false = rw (← same) h in rw (e, apart) refl
    | inr e ↦
        rw e (ap (λ rest. if key.test k a then some w else rest) (lookup-insert_other k l v d h))
  ]

  -- The keys that are not bound to a value that the test picks.
  abbrev pub discard : (V → Bool) → Dict K V → Dict K V
  discard p [] = []
  discard p ((k, v) ∷ d) = if p v then discard p d else (k, v) ∷ discard p d

  -- What all values of a dictionary have, the value that a key is bound to has.
  pub lookup-All :
      (P : V → Type 0) (k : K) (d : Dict K V) {v : V}
      → All (λ e. P (e.1)) d
      → lookup k d ≡ some v
      → P v
  lookup-All P k [] hs h = cc
  lookup-All P k ((a, w) ∷ d) {v} (h, hs) e = elim (Bool-cases (key.test k a)) [
    | inl t ↦ let same : some w ≡ some v = rw t at e in let value : w ≡ v = cc in subst P value h
    | inr t ↦ lookup-All P k d hs (rw t at e)
  ]

  pub insert-All :
      (P : V → Type 0) (k : K) (v : V) (d : Dict K V)
      → P v
      → All (λ e. P (e.1)) d
      → All (λ e. P (e.1)) (insert k v d)
  insert-All P k v [] h hs = (h, tt)
  insert-All P k v ((a, w) ∷ d) h (hw, hs) = elim (Bool-cases (key.test k a)) [
    | inl t ↦ rw t (h, hs)
    | inr t ↦ rw t (hw, insert-All P k v d h hs)
  ]

  pub discard-All :
      (P : V → Type 0) (p : V → Bool) (d : Dict K V)
      → All (λ e. P (e.1)) d
      → All (λ e. P (e.1)) (discard p d)
  discard-All P p [] hs = tt
  discard-All P p ((k, v) ∷ d) (h, hs) = elim (Bool-cases (p v)) [
    | inl t ↦ rw t (discard-All P p d hs)
    | inr t ↦ rw t (h, discard-All P p d hs)
  ]

  pub discard-not : (p : V → Bool) (d : Dict K V) → All (λ e. p (e.1) ≡ false) (discard p d)
  discard-not p [] = tt
  discard-not p ((k, v) ∷ d) = elim (Bool-cases (p v)) [
    | inl t ↦ rw t (discard-not p d)
    | inr t ↦ rw t (t, discard-not p d)
  ]

-- Strings as keys.
abbrev pub list_test : List ℕ → List ℕ → Bool
list_test [] [] = true
list_test (a ∷ xs) (b ∷ ys) = (a == b) && list_test xs ys
list_test _ _ = false

pub list_test_iff : (a b : List ℕ) → (list_test a b ≡ true) ↔ (a ≡ b)
list_test_iff [] [] = (λ h. refl, λ h. refl)
list_test_iff [] (b ∷ ys) = (λ h. cc, λ h. cc)
list_test_iff (a ∷ xs) [] = (λ h. cc, λ h. cc)
list_test_iff (a ∷ xs) (b ∷ ys) = elim (Bool-cases (a == b)) [
  | inl e ↦
      let same : a ≡ b = (==_iff a b).0 e in
      let (to, from) = list_test_iff xs ys in (λ h. ap₂ same (to (rw e at h)), λ h. rw e (from cc))
  | inr e ↦ (
    λ h. let never : false ≡ true = rw e at h in cc,
    λ h. let head : a ≡ b = cc in let never : true ≡ false = rw (← (==_iff a b).1 head) e in cc,
  )
]
  where
    ap₂ : {xs ys : List ℕ} {a b : ℕ} → a ≡ b → xs ≡ ys → (a ∷ xs) ≡ (b ∷ ys)
    ap₂ p q = cc

instance unfoldable pub string_key : Key (List ℕ)
string_key = record { test = list_test; test_iff = list_test_iff }

-- Sets of identities: only membership, the size and the single member are ever looked at.
abbrev pub member : ℕ → List ℕ → Bool
member x [] = false
member x (y ∷ ys) = (x == y) || member x ys

abbrev pub add : ℕ → List ℕ → List ℕ
add x xs = if member x xs then xs else x ∷ xs

abbrev pub remove : ℕ → List ℕ → List ℕ
remove x [] = []
remove x (y ∷ ys) = if x == y then remove x ys else y ∷ remove x ys

pub add-All : (P : ℕ → Type 0) (x : ℕ) (xs : List ℕ) → P x → All P xs → All P (add x xs)
add-All P x xs h hs = elim (Bool-cases (member x xs)) [ inl t ↦ rw t hs | inr t ↦ rw t (h, hs) ]

pub remove-All : (P : ℕ → Type 0) (x : ℕ) (xs : List ℕ) → All P xs → All P (remove x xs)
remove-All P x [] hs = tt
remove-All P x (y ∷ ys) (h, hs) = elim (Bool-cases (x == y)) [
  | inl t ↦ rw t (remove-All P x ys hs)
  | inr t ↦ rw t (h, remove-All P x ys hs)
]

pub remove-not : (x : ℕ) (xs : List ℕ) → All (λ y. y ≢ x) (remove x xs)
remove-not x [] = tt
remove-not x (y ∷ ys) = elim (Bool-cases (x == y)) [
  | inl t ↦ rw t (remove-not x ys)
  | inr t ↦ rw t (λ e. ground (arith, ==_iff x y), remove-not x ys)
]

pub member-add : (x : ℕ) (xs : List ℕ) → member x (add x xs) ≡ true
member-add x xs = elim (Bool-cases (member x xs)) [
  | inl t ↦ rw t t
  | inr t ↦ rw (t, (==_iff x x).1 refl) refl
]

pub All-member : (P : ℕ → Type 0) (x : ℕ) (xs : List ℕ) → All P xs → member x xs ≡ true → P x
All-member P x [] hs h = cc
All-member P x (y ∷ ys) (p, hs) h = elim (Bool-cases (x == y)) [
  | inl t ↦ subst P (sym ((==_iff x y).0 t)) p
  | inr t ↦ All-member P x ys hs (rw t at h)
]

pub discard-ne :
    {K : Type 0} ⦃key : Key K⦄ (x : ℕ) (d : Dict K ℕ) → All (λ e. e.1 ≢ x) (discard (λ v. v == x) d)
discard-ne x [] = tt
discard-ne x ((k, v) ∷ d) = elim (Bool-cases (v == x)) [
  | inl t ↦ rw t (discard-ne x d)
  | inr t ↦ rw t (λ e. ground (arith, ==_iff v x), discard-ne x d)
]

pub member-add_mono : (x y : ℕ) (xs : List ℕ) → member x xs ≡ true → member x (add y xs) ≡ true
member-add_mono x y xs h = elim (Bool-cases (member y xs)) [
  | inl t ↦ rw t h
  | inr t ↦ elim (Bool-cases (x == y)) [ inl e ↦ rw (t, e) refl | inr e ↦ rw (t, e) h ]
]

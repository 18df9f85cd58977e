-- ===== src/Prelude/Order.antt =====
-- The order of strings by their characters, as Go's comparison of strings.
use Prim.Native.Nat.{Ordering, compare as compare_ℕ}
use Prim.Native.Char.{code}
use Prim.Native.String.{String, [], ◌∷◌, compare, then}
use Prim.Native.String.compare
use mathlib.Core.Path.{◌≡◌, refl, sym, ap, ◌∙◌}
use mathlib.Core.Logic.{◌⊎◌, inl, inr}
use Prim.Native.Nat.{ℕ, ◌<◌}
use native.Mathlib.Omega.{arith}

abbrev pub opposite : Ordering → Ordering
opposite Ordering.lt = Ordering.gt
opposite Ordering.eq = Ordering.eq
opposite Ordering.gt = Ordering.lt

opposite_ℕ : (m n : ℕ) → compare_ℕ n m ≡ opposite (compare_ℕ m n)
opposite_ℕ m n = ground arith

less_ℕ : (m n : ℕ) → m < n → compare_ℕ m n ≡ Ordering.lt
less_ℕ m n h = ground arith

opposite-then : (o p : Ordering) → opposite (then o p) ≡ then (opposite o) (opposite p)
opposite-then Ordering.lt p = refl
opposite-then Ordering.eq p = refl
opposite-then Ordering.gt p = refl

pub compare-opposite : (s t : String) → compare t s ≡ opposite (compare s t)
compare-opposite [] [] = refl
compare-opposite [] (d ∷ t) = rw (compare.nil-cons d t, compare.cons-nil d t) refl
compare-opposite (c ∷ s) [] = rw (compare.nil-cons c s, compare.cons-nil c s) refl
compare-opposite (c ∷ s) (d ∷ t) =
    compare.cons-cons d c t s
    ∙ ap (λ p. then (compare_ℕ (code d) (code c)) p) (compare-opposite s t)
    ∙ ap (λ o. then o (opposite (compare s t))) (opposite_ℕ (code c) (code d))
    ∙ sym (opposite-then (compare_ℕ (code c) (code d)) (compare s t))
    ∙ ap opposite (sym (compare.cons-cons c d s t))

then-eq-lt :
    (o p : Ordering)
    → then o p ≡ Ordering.lt
    → (o ≡ Ordering.lt) ⊎ ((o ≡ Ordering.eq) × (p ≡ Ordering.lt))
then-eq-lt Ordering.lt p h = inl refl
then-eq-lt Ordering.eq p h = inr (refl, h)
then-eq-lt Ordering.gt p h = cc

code_steps :
    (c d e : ℕ) (o p q : Ordering)
    → then (compare_ℕ c d) o ≡ Ordering.lt
    → then (compare_ℕ d e) p ≡ Ordering.lt
    → (o ≡ Ordering.lt → p ≡ Ordering.lt → q ≡ Ordering.lt)
    → then (compare_ℕ c e) q ≡ Ordering.lt
code_steps c d e o p q h k both = elim (then-eq-lt (compare_ℕ c d) o h) [
  | inl below ↦ elim (then-eq-lt (compare_ℕ d e) p k) [
    | inl above ↦ ap (λ x. then x q) (less_ℕ c e (ground arith))
    | inr (same, rest) ↦ ap (λ x. then x q) (less_ℕ c e (ground arith))
  ]
  | inr (same, rest) ↦ elim (then-eq-lt (compare_ℕ d e) p k) [
    | inl above ↦ ap (λ x. then x q) (less_ℕ c e (ground arith))
    | inr (same', rest') ↦
        let here : compare_ℕ c e ≡ Ordering.eq = ground arith in
        ap (λ x. then x q) here ∙ both rest rest'
  ]
]

pub compare_trans :
    (s t u : String)
    → compare s t ≡ Ordering.lt
    → compare t u ≡ Ordering.lt
    → compare s u ≡ Ordering.lt
compare_trans [] [] [] h k = cc
compare_trans [] (d ∷ t) [] h k = cc (rw (compare.cons-nil d t) at k)
compare_trans [] t (e ∷ u) h k = compare.nil-cons e u
compare_trans (c ∷ s) [] u h k = cc (rw (compare.cons-nil c s) at h)
compare_trans (c ∷ s) (d ∷ t) [] h k = cc (rw (compare.cons-nil d t) at k)
compare_trans (c ∷ s) (d ∷ t) (e ∷ u) h k =
    compare.cons-cons c e s u
    ∙ code_steps (code c) (code d) (code e) (compare s t) (compare t u) (compare s u)
        (sym (compare.cons-cons c d s t) ∙ h) (sym (compare.cons-cons d e t u) ∙ k)
        (compare_trans s t u)

pub Ordering-cases : (o : Ordering) → (o ≡ Ordering.lt) ⊎ (o ≡ Ordering.eq) ⊎ (o ≡ Ordering.gt)
Ordering-cases Ordering.lt = inl refl
Ordering-cases Ordering.eq = inr (inl refl)
Ordering-cases Ordering.gt = inr (inr refl)

-- ===== src/Prelude/Assoc.antt =====
-- A Go map with string keys as an association list: lookup, assignment and delete.
use Prim.Native.String.{String}
use mathlib.Core.Path.{◌≡◌, refl}
use mathlib.Core.Bool.{Bool, true, false}
use mathlib.Core.Option.{Option, none, some}
use mathlib.Core.List.{List, [], ◌∷◌}
use native.Mathlib.Omega.{arith}
use text.Mathlib.Text.{◌==◌ as str_eq}
use text.Mathlib.TextEquality.{eq_iff}
use mathlib.Core.Logic.{inl, inr}
use tsbridge.Prelude.Tests.{if◌then◌else◌, Bool-cases}
use tsbridge.Prelude.Lists.{All}

module _ {ℓ} {V : Type ℓ} where
  unfoldable pub lookup : String → List (String × V) → Option V
  lookup a [] = none
  lookup a ((b, x) ∷ kvs) = if str_eq b a then some x else lookup a kvs

  unfoldable pub insert : String → V → List (String × V) → List (String × V)
  insert a x [] = (a, x) ∷ []
  insert a x ((b, y) ∷ kvs) = if str_eq b a then (a, x) ∷ kvs else (b, y) ∷ insert a x kvs

  unfoldable pub delete : String → List (String × V) → List (String × V)
  delete a [] = []
  delete a ((b, x) ∷ kvs) = if str_eq b a then delete a kvs else (b, x) ∷ delete a kvs

  abbrev pub has_key : String → List (String × V) → Bool
  has_key a kvs = elim (lookup a kvs) [ none ↦ false | some x ↦ true ]

  -- No key is listed twice, so that the length of the list is the size of the map.
  abbrev pub DistinctKeys : List (String × V) → Type ℓ
  DistinctKeys [] = Unit
  DistinctKeys ((a, x) ∷ kvs) = (lookup a kvs ≡ none) × DistinctKeys kvs

  pub lookup-insert :
      (a b : String) (x : V) (kvs : List (String × V))
      → lookup b (insert a x kvs) ≡ (if str_eq a b then some x else lookup b kvs)
  unfolding lookup insert
  lookup-insert a b x [] = refl
  lookup-insert a b x ((c, y) ∷ kvs) =
      ground (arith, eq_iff a b, eq_iff c a, eq_iff c b, lookup-insert a b x kvs)

  pub lookup-delete :
      (a b : String) (kvs : List (String × V))
      → lookup b (delete a kvs) ≡ (if str_eq a b then none else lookup b kvs)
  unfolding lookup delete
  lookup-delete a b [] = ground arith
  lookup-delete a b ((c, y) ∷ kvs) =
      ground (arith, eq_iff a b, eq_iff c a, eq_iff c b, lookup-delete a b kvs)

  pub insert-DistinctKeys :
      (a : String) (x : V) (kvs : List (String × V))
      → DistinctKeys kvs
      → DistinctKeys (insert a x kvs)
  unfolding insert lookup
  insert-DistinctKeys a x [] h = (refl, tt)
  insert-DistinctKeys a x ((b, y) ∷ kvs) h =
      ground (arith, eq_iff b a, eq_iff a b, lookup-insert a b x kvs, insert-DistinctKeys a x kvs)

  pub delete-DistinctKeys :
      (a : String) (kvs : List (String × V)) → DistinctKeys kvs → DistinctKeys (delete a kvs)
  unfolding delete
  delete-DistinctKeys a [] h = tt
  delete-DistinctKeys a ((b, y) ∷ kvs) h =
      ground (arith, eq_iff b a, eq_iff a b, lookup-delete a b kvs, delete-DistinctKeys a kvs)

  -- A property of all entries.
  module _ {κ} (P : String × V → Type κ) where
    pub All-insert :
        (a : String) (x : V) (kvs : List (String × V))
        → P (a, x)
        → All P kvs
        → All P (insert a x kvs)
    unfolding insert
    All-insert a x [] h k = (h, tt)
    All-insert a x ((b, y) ∷ kvs) h k = elim (Bool-cases (str_eq b a)) [
      | inl here ↦ rw here (h, k.1)
      | inr there ↦ rw there (k.0, All-insert a x kvs h k.1)
    ]

    pub All-delete : (a : String) (kvs : List (String × V)) → All P kvs → All P (delete a kvs)
    unfolding delete
    All-delete a [] k = tt
    All-delete a ((b, y) ∷ kvs) k = elim (Bool-cases (str_eq b a)) [
      | inl here ↦ rw here (All-delete a kvs k.1)
      | inr there ↦ rw there (k.0, All-delete a kvs k.1)
    ]

-- ===== src/Config/SameMap.antt =====
-- internal/config/compare.go: the comparison of two maps of headers.
use tsbridge.Prelude.Assoc.{lookup, delete, DistinctKeys, lookup-delete, delete-DistinctKeys}
use tsbridge.Prelude.{
  String, List, [], ◌∷◌, Option, none, some, Bool, true, ◌≡◌, ◌+◌, ◌↔◌, refl, arith, inl, inr,
  subst, length, all, str_eq, str_eq_iff, str_eq_refl, Bool-cases,
}
use tsbridge.Config.Compare.{option_eq, deep_equal, maps_eq}

abbrev Map : Type 0
Map = List (String × String)

-- The maps hold the same value under every key.
abbrev pub SameMap : Map → Map → Type 0
SameMap x y = (k : String) → lookup k x ≡ lookup k y

-- The entries of the first map are in the second.
abbrev entries_in : Map → Map → Bool
entries_in x y = all (λ (k, v). option_eq str_eq (lookup k y) (some v)) x

some_eq_iff : (o : Option String) (v : String) → (option_eq str_eq o (some v) ≡ true) ↔ (o ≡ some v)
some_eq_iff none v = ground arith
some_eq_iff (some u) v = ground (arith, str_eq_iff u v)

length-delete-none : (k : String) (y : Map) → lookup k y ≡ none → length (delete k y) ≡ length y
unfolding lookup delete
length-delete-none k [] h = refl
length-delete-none k ((j, u) ∷ y) h = ground (arith, length-delete-none k y)

length-delete :
    (k v : String) (y : Map)
    → DistinctKeys y
    → lookup k y ≡ some v
    → length (delete k y) + 1 ≡ length y
unfolding lookup delete
length-delete k v [] d h = cc
length-delete k v ((j, u) ∷ y) d h = elim (Bool-cases (str_eq j k)) [
  | inl here ↦
      let same = (str_eq_iff j k).0 here in
      let gone : lookup k y ≡ none = subst (λ (i : String). lookup i y ≡ none) same d.0 in
      ground (arith, length-delete-none k y gone)
  | inr there ↦ ground (arith, length-delete k v y d.1)
]

entries_in-delete :
    (k : String) (x y : Map)
    → lookup k x ≡ none
    → entries_in x y ≡ true
    → entries_in x (delete k y) ≡ true
unfolding lookup
entries_in-delete k [] y h e = refl
entries_in-delete k ((j, u) ∷ x) y h e = elim (Bool-cases (str_eq j k)) [
  | inl here ↦ absurd (ground arith)
  | inr there ↦
      ground (arith, lookup-delete k j y, str_eq_iff k j, str_eq_iff j k, entries_in-delete k x y)
]

entries_in_back :
    (k : String) (x y : Map) → entries_in x (delete k y) ≡ true → entries_in x y ≡ true
entries_in_back k [] y e = refl
entries_in_back k ((j, u) ∷ x) y e =
    ground (arith, lookup-delete k j y, str_eq_iff k j, entries_in_back k x y)

entries-SameMap :
    (x y : Map)
    → DistinctKeys x
    → DistinctKeys y
    → length x ≡ length y
    → entries_in x y ≡ true
    → SameMap x y
unfolding lookup
entries-SameMap [] [] d d' l e k = refl
entries-SameMap [] (b ∷ y) d d' l e k = absurd (omega arith)
entries-SameMap ((j, v) ∷ x) y d d' l e k =
    let there : lookup j y ≡ some v = (some_eq_iff (lookup j y) v).0 (ground arith) in
    let rest =
      entries-SameMap x (delete j y) d.1 (delete-DistinctKeys j y d')
        (omega (arith, length-delete j v y d' there)) (entries_in-delete j x y d.0 (ground arith))
        k in
    ground (arith, lookup-delete j k y, str_eq_iff j k, there, rest)

SameMap-entries :
    (x y : Map)
    → DistinctKeys x
    → DistinctKeys y
    → SameMap x y
    → (length x ≡ length y) × (entries_in x y ≡ true)
unfolding lookup
SameMap-entries [] [] d d' s = (refl, refl)
SameMap-entries [] ((j, u) ∷ y) d d' s = absurd (ground (arith, s j, str_eq_refl j))
SameMap-entries ((j, v) ∷ x) y d d' s =
    let there : lookup j y ≡ some v = ground (arith, s j, str_eq_refl j) in
    let (same_length, rest) =
      SameMap-entries x (delete j y) d.1 (delete-DistinctKeys j y d') (λ k. without k) in
    let first = (some_eq_iff (lookup j y) v).1 there in
    (
      omega (arith, same_length, length-delete j v y d' there),
      ground (arith, first, entries_in_back j x y rest),
    )
  where
    without : (k : String) → lookup k x ≡ lookup k (delete j y)
    without k = elim (Bool-cases (str_eq j k)) [
      | inl here ↦
          let same = (str_eq_iff j k).0 here in
          let gone : lookup k x ≡ none = subst (λ (i : String). lookup i x ≡ none) same d.0 in
          ground (arith, lookup-delete j k y)
      | inr there ↦ ground (arith, lookup-delete j k y, s k)
    ]

pub maps_eq_iff : (x y : Map) → DistinctKeys x → DistinctKeys y → (maps_eq x y ≡ true) ↔ SameMap x y
unfolding maps_eq deep_equal
maps_eq_iff [] [] d d' = (λ h k. refl, λ s. refl)
maps_eq_iff [] (b ∷ y) d d' = (
  λ h. absurd (ground arith),
  λ s. let (l, e) = SameMap-entries [] (b ∷ y) d d' s in ground arith,
)
maps_eq_iff (a ∷ x) y d d' = (
  λ h. entries-SameMap (a ∷ x) y d d' (ground arith) (ground arith),
  λ s. let (l, e) = SameMap-entries (a ∷ x) y d d' s in ground arith,
)

-- ===== src/App/Keys.antt =====
-- Lists of items with a key: the first item with a key, uniqueness of keys, and filters.
use tsbridge.Prelude.{
  String, List, [], ◌∷◌, Option, none, some, Bool, keep, if◌then◌else◌, ◌≡◌, refl, arith, str_eq,
  str_eq_iff, Bool-cases, inl, inr,
}

-- The first item of the list with the key.
module _ {X : Type 0} (key : X → String) where
  unfoldable pub find_by : String → List X → Option X
  find_by n [] = none
  find_by n (x ∷ xs) = if str_eq (key x) n then some x else find_by n xs

  -- No two items have one key.
  abbrev pub UniqueKeys : List X → Type 0
  UniqueKeys [] = Unit
  UniqueKeys (x ∷ xs) = (find_by (key x) xs ≡ none) × UniqueKeys xs

  pub find_by-keep-none :
      (p : X → Bool) (n : String) (xs : List X) → find_by n xs ≡ none → find_by n (keep p xs) ≡ none
  unfolding find_by
  find_by-keep-none p n [] h = refl
  find_by-keep-none p n (x ∷ xs) h = ground (arith, find_by-keep-none p n xs)

  pub find_by-keep :
      (p : X → Bool) (n : String) (xs : List X) (x : X)
      → UniqueKeys xs
      → find_by n xs ≡ some x
      → find_by n (keep p xs) ≡ (if p x then some x else none)
  unfolding find_by
  find_by-keep p n [] x u h = cc
  find_by-keep p n (y ∷ ys) x u h = elim (Bool-cases (str_eq (key y) n)) [
    | inl here ↦
        let same = (str_eq_iff (key y) n).0 here in ground (arith, find_by-keep-none p n ys, same)
    | inr there ↦ ground (arith, find_by-keep p n ys x)
  ]

  pub UniqueKeys-keep : (p : X → Bool) (xs : List X) → UniqueKeys xs → UniqueKeys (keep p xs)
  UniqueKeys-keep p [] u = tt
  UniqueKeys-keep p (x ∷ xs) u =
      ground (arith, find_by-keep-none p (key x) xs, UniqueKeys-keep p xs)

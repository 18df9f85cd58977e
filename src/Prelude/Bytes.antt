-- ===== src/Prelude/Bytes.antt =====
-- Go strings as lists of bytes, with the functions of package `strings` that the program uses.
use Prim.Native.Nat.{ℕ, ◌+◌, ◌/◌, ◌%◌}
use Prim.Native.Char.{code}
use Prim.Native.String.{String}
use mathlib.Core.Path.{◌≡◌, refl, ap}
use mathlib.Core.Logic.{◌↔◌, inl, inr}
use mathlib.Core.Bool.{Bool, true, false, ◌&&◌, ◌||◌}
use mathlib.Core.Option.{Option, none, some}
use mathlib.Core.List.{List, [], ◌∷◌, ◌++◌}
use native.Mathlib.Omega.{arith}
use tsbridge.Prelude.Tests.{Bool-cases, ltb, leb, ◌==◌, if◌then◌else◌}

-- The UTF-8 encoding of a code point.
abbrev pub encode : ℕ → List ℕ
encode c =
    if ltb c 128
    then c ∷ []
    else if ltb c 2048
    then (192 + c / 64) ∷ (128 + c % 64) ∷ []
    else if ltb c 65536
    then (224 + c / 4096) ∷ (128 + c / 64 % 64) ∷ (128 + c % 64) ∷ []
    else (240 + c / 262144) ∷ (128 + c / 4096 % 64) ∷ (128 + c / 64 % 64) ∷ (128 + c % 64) ∷ []

abbrev pub bytes : String → List ℕ
bytes String.[] = []
bytes (String.◌∷◌ c s) = encode (code c) ++ bytes s

-- `strings.CutPrefix`: the rest behind the prefix.
unfoldable pub cut_prefix : List ℕ → List ℕ → Option (List ℕ)
cut_prefix s [] = some s
cut_prefix [] (p ∷ ps) = none
cut_prefix (c ∷ s) (p ∷ ps) = if c == p then cut_prefix s ps else none

abbrev pub is_some {ℓ} : {A : Type ℓ} → Option A → Bool
is_some none = false
is_some (some a) = true

-- `strings.HasPrefix`
abbrev pub has_prefix : List ℕ → List ℕ → Bool
has_prefix s p = is_some (cut_prefix s p)

-- `strings.Contains`
unfoldable pub contains : List ℕ → List ℕ → Bool
unfolding cut_prefix
contains [] sub = has_prefix [] sub
contains (c ∷ s) sub = has_prefix (c ∷ s) sub || contains s sub

-- What `strings.SplitSeq` yields for a separator of one byte: the first part and the later ones.
split_parts : ℕ → List ℕ → List ℕ × List (List ℕ)
split_parts sep [] = ([], [])
split_parts sep (c ∷ s) =
    let (part, parts) = split_parts sep s in
    if c == sep then ([], part ∷ parts) else (c ∷ part, parts)

unfoldable pub split : ℕ → List ℕ → List (List ℕ)
unfolding split_parts
split sep s = let (part, parts) = split_parts sep s in part ∷ parts

-- `strings.ToLower` on ASCII letters; the letters outside ASCII keep their bytes.
abbrev pub to_lower : List ℕ → List ℕ
to_lower [] = []
to_lower (c ∷ s) = (if leb b'A' c && leb c b'Z' then c + 32 else c) ∷ to_lower s

-- `filepath.IsAbs` on Unix.
abbrev pub is_abs : List ℕ → Bool
is_abs s = has_prefix s (b'/' ∷ [])

-- A prefix is what the string begins with, and what is cut off.
pub cut_prefix_iff : (s p rest : List ℕ) → (cut_prefix s p ≡ some rest) ↔ (s ≡ p ++ rest)
unfolding cut_prefix
cut_prefix_iff s [] rest = ground arith
cut_prefix_iff [] (p ∷ ps) rest = ground arith
cut_prefix_iff (c ∷ s) (p ∷ ps) rest = ground (arith, cut_prefix_iff s ps rest)

is_some-eq-some {ℓ} : {A : Type ℓ} (o : Option A) → is_some o ≡ true → (a : A) × (o ≡ some a)
is_some-eq-some none h = cc
is_some-eq-some (some a) h = (a, refl)

-- A string contains another exactly if that stands somewhere in it.
pub contains-split :
    (s sub : List ℕ)
    → contains s sub ≡ true
    → (before : List ℕ) × ((after : List ℕ) × (s ≡ before ++ (sub ++ after)))
unfolding contains
contains-split [] sub h =
    let (rest, e) = is_some-eq-some (cut_prefix [] sub) h in
    ([], (rest, (cut_prefix_iff [] sub rest).0 e))
contains-split (c ∷ s) sub h = elim (Bool-cases (has_prefix (c ∷ s) sub)) [
  | inl here ↦
      let (rest, e) = is_some-eq-some (cut_prefix (c ∷ s) sub) here in
      ([], (rest, (cut_prefix_iff (c ∷ s) sub rest).0 e))
  | inr later ↦
      let (before, (after, e)) = contains-split s sub (rw later at h) in
      (c ∷ before, (after, ap (λ (t : List ℕ). c ∷ t) e))
]

pub contains-append : (before sub after : List ℕ) → contains (before ++ (sub ++ after)) sub ≡ true
unfolding contains
contains-append [] sub after =
    starts (sub ++ after) ((cut_prefix_iff (sub ++ after) sub after).1 refl)
  where
    starts : (s : List ℕ) → cut_prefix s sub ≡ some after → contains s sub ≡ true
    starts [] e = rw e refl
    starts (c ∷ s) e = rw e refl
contains-append (b ∷ before) sub after = ground (arith, contains-append before sub after)

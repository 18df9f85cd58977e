-- ===== src/Prelude/Text.antt =====
-- Go strings as text, with the functions of packages `strings` and `strconv` that read labels.
use Prim.Native.Char.{code}
use Prim.Native.String.{String, ◌++◌ as append, len, slice}
use Prim.Native.Nat.{ℕ, zero, suc, ◌/◌, ◌%◌}
use mathlib.Core.Bool.{Bool, true, false, ◌&&◌}
use mathlib.Core.Option.{Option, none, some}
use mathlib.Core.List.{List, [], ◌∷◌}
use text.Mathlib.Text.{◌==◌ as str_eq}
use tsbridge.Prelude.Tests.{deref, ltb, ◌==◌, if◌then◌else◌}

-- `strings.CutPrefix`: the rest behind the prefix.
unfoldable pub cut_text : String → String → Option String
cut_text s String.[] = some s
cut_text String.[] (String.◌∷◌ p ps) = none
cut_text (String.◌∷◌ c s) (String.◌∷◌ p ps) =
    let rest = cut_text s ps in if code c == code p then rest else none

-- `strings.TrimPrefix`
abbrev pub trim_prefix : String → String → String
trim_prefix s p = deref (cut_text s p) s

-- The first part before a separator of one character, and the later parts.
split_first : ℕ → String → String × List String
split_first sep String.[] = ("", [])
split_first sep (String.◌∷◌ c s) =
    let (part, parts) = split_first sep s in
    if code c == sep then ("", part ∷ parts) else (String.◌∷◌ c part, parts)

-- `strings.Split` for a separator of one character.
unfoldable pub split_text : ℕ → String → List String
unfolding split_first
split_text sep s = let (part, parts) = split_first sep s in part ∷ parts

-- `s[:strings.LastIndex(s, sep)]` for a separator of one character, if there is one.
unfoldable pub cut_last : ℕ → String → Option String
cut_last sep String.[] = none
cut_last sep (String.◌∷◌ c s) = elim (cut_last sep s) [
  | some before ↦ some (String.◌∷◌ c before)
  | none ↦ if code c == sep then some "" else none
]

-- The first twelve bytes of an identifier, as it is shown.
unfoldable pub short_id : String → String
short_id id = if ltb 12 (len id) then slice id 0 12 else id

abbrev pub one_of : String → List String → Bool
one_of s [] = false
one_of s (t ∷ ts) = if str_eq s t then true else one_of s ts

-- `strconv.ParseBool`
unfoldable pub parse_bool : String → Option Bool
parse_bool s =
    if one_of s ("1" ∷ "t" ∷ "T" ∷ "TRUE" ∷ "true" ∷ "True" ∷ [])
    then some true
    else if one_of s ("0" ∷ "f" ∷ "F" ∷ "FALSE" ∷ "false" ∷ "False" ∷ [])
    then some false
    else none

abbrev pub all_text : (ℕ → Bool) → String → Bool
all_text p String.[] = true
all_text p (String.◌∷◌ c s) = p (code c) && all_text p s

-- The decimal digit of a number below ten.
abbrev digit : ℕ → String
digit n = slice "0123456789" n (suc n)

-- The decimal digits of a number that has at most `places` of them.
decimal_digits : (places : ℕ) → ℕ → String
decimal_digits zero n = ""
decimal_digits (suc places) n =
    let higher = decimal_digits places (n / 10) in
    if ltb n 10 then digit n else append higher (digit (n % 10))

-- `%d` of a `uint16`.
unfoldable pub decimal : ℕ → String
unfolding decimal_digits
decimal n = decimal_digits 5 n

-- ===== src/Config/ByteSize.antt =====
-- internal/config/config.go: ParseByteSizeString.
-- `Floats` holds what the code does with floating-point numbers: `strconv.ParseFloat`, the test for
-- a value below zero, and the conversion of a product to an integer.
use Prim.Native.Char.{code}
use tsbridge.Prelude.Int.{ℤ, pos}
use tsbridge.Prelude.Bytes.{bytes}
use tsbridge.Prelude.Decimal.{atoi}
use tsbridge.Prelude.{
  ℕ, ◌-◌, String, [], ◌∷◌, Option, none, some, Bool, true, false, ◌&&◌, ◌||◌, leb, ◌==◌,
  if◌then◌else◌, str_eq,
}
use tsbridge.Constants.{bytes_per_kb, bytes_per_mb, bytes_per_gb, bytes_per_tb}
use tsbridge.Errors.{Result, ok, err, plain, str}
use tsbridge.Config.Credentials.{trim_space}

pub record Floats : Type 1 where
  pub Float : Type 0
  pub parse_float : String → Option Float
  pub below_zero : Float → Bool
  -- `int64(value * float64(multiplier))`
  pub product : Float → ℕ → ℤ

-- The loop that finds where the number ends and the unit begins.
abbrev is_number_char : ℕ → Bool
is_number_char c = (leb 48 c && leb c 57) || (c == 46 || c == 32)

unfoldable pub split_number : String → String × String
split_number String.[] = ("", "")
split_number (String.◌∷◌ c s) =
    let (number, unit) = split_number s in
    if is_number_char (code c) then (String.◌∷◌ c number, unit) else ("", String.◌∷◌ c s)

-- `strings.ToUpper` on one character. Outside ASCII only the two that become an ASCII letter are
-- changed, the dotless i and the long s; that is enough for a comparison with an ASCII text.
abbrev upper : ℕ → ℕ
upper c =
    if leb b'a' c && leb c b'z'
    then c - 32
    else if c == 305
    then b'I'
    else if c == 383
    then b'S'
    else c

-- `strings.ToUpper(s) == t` for an upper-case ASCII text.
unfoldable pub is_unit : String → String → Bool
is_unit String.[] String.[] = true
is_unit (String.◌∷◌ c s) (String.◌∷◌ d t) = (upper (code c) == code d) && is_unit s t
is_unit String.[] (String.◌∷◌ d t) = false
is_unit (String.◌∷◌ c s) String.[] = false

unfoldable pub multiplier : String → Option ℕ
unfolding is_unit
multiplier unit =
    if is_unit unit "B" || (is_unit unit "BYTE" || is_unit unit "BYTES")
    then some 1
    else if is_unit unit "K" || is_unit unit "KB"
    then some bytes_per_kb
    else if is_unit unit "KIB"
    then some bytes_per_kb
    else if is_unit unit "M" || is_unit unit "MB"
    then some bytes_per_mb
    else if is_unit unit "MIB"
    then some bytes_per_mb
    else if is_unit unit "G" || is_unit unit "GB"
    then some bytes_per_gb
    else if is_unit unit "GIB"
    then some bytes_per_gb
    else if is_unit unit "T" || is_unit unit "TB"
    then some bytes_per_tb
    else if is_unit unit "TIB"
    then some bytes_per_tb
    else none

module _ (floats : Floats) where
  -- The number before the unit, and the unit.
  unfoldable pub scaled_size : (s number unit : String) → Result ℤ
  unfolding multiplier
  scaled_size s number unit = elim (floats.parse_float number) [
    | none ↦ err (plain (record { format = "invalid byte size format: %q"; args = str s ∷ [] }))
    | some value ↦
        if floats.below_zero value
        then err (plain (record { format = "byte size cannot be negative: %q"; args = str s ∷ [] }))
        else elim (multiplier unit) [
          | none ↦ err (
              plain (record {
                format = "unknown unit %q in byte size: %q";
                args = str unit ∷ str s ∷ [];
              }))
          | some m ↦ ok (floats.product value m)
        ]
  ]

  -- The text behind the trimming of blanks.
  unfoldable pub trimmed_size : String → Result ℤ
  unfolding split_number scaled_size
  trimmed_size s = if str_eq s "" then ok (pos 0) else elim (atoi (bytes s)) [
    | some v ↦ ok v
    | none ↦
        let (number, unit) = split_number s in
        if str_eq number "" || str_eq unit ""
        then err (plain (record { format = "invalid byte size format: %q"; args = str s ∷ [] }))
        else scaled_size s (trim_space number) (trim_space unit)
  ]

  unfoldable pub parse_byte_size_string : String → Result ℤ
  unfolding trimmed_size
  parse_byte_size_string s = trimmed_size (trim_space s)

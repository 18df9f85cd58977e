-- ===== src/Prelude/Decimal.antt =====
-- `strconv.Atoi`, and `strconv.ParseInt` in base 10: signed decimal numbers of 64 bits.
use Prim.Native.Nat.{ℕ, zero, suc, ◌+◌, ◌-◌, ◌*◌}
use mathlib.Core.Bool.{◌&&◌}
use mathlib.Core.Option.{Option, none, some}
use mathlib.Core.List.{List, [], ◌∷◌}
use tsbridge.Prelude.Int.{ℤ, pos, negsuc}
use tsbridge.Prelude.Tests.{leb, ◌==◌, if◌then◌else◌}

-- The value of a run of digits, behind those whose value is `acc`.
unfoldable pub digits_value : ℕ → List ℕ → Option ℕ
digits_value acc [] = some acc
digits_value acc (c ∷ s) =
    let rest = digits_value (acc * 10 + (c - 48)) s in if leb 48 c && leb c 57 then rest else none

abbrev pub negate : ℕ → ℤ
negate zero = pos 0
negate (suc n) = negsuc n

-- A magnitude below the limit, under a sign.
abbrev signed : ℕ → (ℕ → ℤ) → Option ℕ → Option ℤ
signed limit sign none = none
signed limit sign (some n) = if leb n limit then some (sign n) else none

unfoldable pub atoi : List ℕ → Option ℤ
unfolding digits_value
atoi [] = none
atoi (c ∷ []) = signed 9223372036854775807 pos (digits_value 0 (c ∷ []))
atoi (c ∷ d ∷ s) =
    let minus = signed 9223372036854775808 negate (digits_value 0 (d ∷ s)) in
    let plus = signed 9223372036854775807 pos (digits_value 0 (d ∷ s)) in
    let plain = signed 9223372036854775807 pos (digits_value 0 (c ∷ d ∷ s)) in
    if c == b'-' then minus else if c == b'+' then plus else plain

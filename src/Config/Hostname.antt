-- ===== src/Config/Hostname.antt =====
-- internal/config/config.go: isValidHostname and isAlphaNum.
-- A host is read byte by byte: a character outside ASCII is refused, and so is each of its bytes.
use tsbridge.Prelude.Bytes.{split}
use tsbridge.Prelude.{
  ℕ, ◌≤◌, List, [], ◌∷◌, Bool, true, false, ◌&&◌, ◌||◌, not, all, is_empty, length, ltb, leb, ◌==◌,
  if◌then◌else◌, All, ◌≡◌, ◌↔◌, ◌⊎◌, refl, arith, ◌≢◌,
}

unfoldable pub is_alpha_num : ℕ → Bool
is_alpha_num ch =
    (leb b'a' ch && leb ch b'z') || ((leb b'A' ch && leb ch b'Z') || (leb b'0' ch && leb ch b'9'))

-- The last byte of a string that begins with `c`.
abbrev pub last_byte : ℕ → List ℕ → ℕ
last_byte c [] = c
last_byte c (d ∷ s) = last_byte d s

abbrev is_label_char : ℕ → Bool
is_label_char ch = is_alpha_num ch || (ch == b'-' || ch == b'_')

-- One round of the loop over the labels.
unfoldable pub is_valid_label : List ℕ → Bool
is_valid_label [] = false
is_valid_label (c ∷ s) =
    if ltb 63 (length (c ∷ s))
    then false
    else if not (is_alpha_num c)
    then false
    else if not (is_alpha_num (last_byte c s))
    then false
    else all is_label_char (c ∷ s)

unfoldable pub is_valid_hostname : List ℕ → Bool
unfolding is_valid_label
is_valid_hostname host =
    if is_empty host
    then false
    else if ltb 253 (length host)
    then false
    else all is_valid_label (split b'.' host)

-- The specification: letters and digits, and what may stand between them.
abbrev pub IsAlphaNum : ℕ → Type 0
IsAlphaNum c = ((97 ≤ c) × (c ≤ 122)) ⊎ ((65 ≤ c) × (c ≤ 90)) ⊎ ((48 ≤ c) × (c ≤ 57))

abbrev pub IsLabelChar : ℕ → Type 0
IsLabelChar c = IsAlphaNum c ⊎ (c ≡ b'-') ⊎ (c ≡ b'_')

-- One to 63 bytes that begin and end with a letter or digit.
abbrev pub IsLabel : List ℕ → Type 0
IsLabel [] = ⊥
IsLabel (c ∷ s) =
    (length (c ∷ s) ≤ 63) × IsAlphaNum c × IsAlphaNum (last_byte c s) × All IsLabelChar (c ∷ s)

-- One to 253 bytes; every part between dots is a label.
pub record IsHostname (host : List ℕ) : Type 0 where
  pub not_empty : host ≢ []
  pub short : length host ≤ 253
  pub labels : All IsLabel (split b'.' host)

is_alpha_num_iff : (c : ℕ) → (is_alpha_num c ≡ true) ↔ IsAlphaNum c
unfolding is_alpha_num
is_alpha_num_iff c = (λ h. ground arith, λ h. ground arith)

is_label_char_iff : (c : ℕ) → (is_label_char c ≡ true) ↔ IsLabelChar c
is_label_char_iff c =
    (λ h. ground (arith, is_alpha_num_iff c), λ h. ground (arith, is_alpha_num_iff c))

all_iff :
    {A : Type 0} (p : A → Bool) (P : A → Type 0)
    → ((a : A) → (p a ≡ true) ↔ P a)
    → (xs : List A) → (all p xs ≡ true) ↔ All P xs
all_iff p P h [] = (λ _. tt, λ _. refl)
all_iff p P h (x ∷ xs) =
    let (to, from) = h x in
    let (tos, froms) = all_iff p P h xs in
    (λ e. (to (ground arith), tos (ground arith)), λ (a, b). ground (arith, from a, froms b))

is_valid_label_iff : (l : List ℕ) → (is_valid_label l ≡ true) ↔ IsLabel l
unfolding is_valid_label
is_valid_label_iff [] = ground arith
is_valid_label_iff (c ∷ s) =
    let (first, first') = is_alpha_num_iff c in
    let (last, last') = is_alpha_num_iff (last_byte c s) in
    let (chars, chars') = all_iff is_label_char IsLabelChar is_label_char_iff (c ∷ s) in
    (
      λ e. (ground arith, first (ground arith), last (ground arith), chars (ground arith)),
      λ (n, a, b, d). ground (arith, first' a, last' b, chars' d),
    )

-- `isValidHostname` accepts exactly the hosts of 1 to 253 bytes whose parts between dots have 1 to
-- 63 bytes each, begin and end with a letter or digit, and hold letters, digits, `-` and `_` only.
pub is_valid_hostname_iff : (host : List ℕ) → (is_valid_hostname host ≡ true) ↔ IsHostname host
unfolding is_valid_hostname
is_valid_hostname_iff [] = (λ e. cc, λ h. absurd (h.not_empty refl))
is_valid_hostname_iff (c ∷ s) =
    let (labels, labels') =
      all_iff is_valid_label IsLabel is_valid_label_iff (split b'.' (c ∷ s)) in
    (
      λ e. record { not_empty = λ no. cc; short = ground arith; labels = labels (ground arith) },
      λ h. ground (arith, h.short, labels' h.labels),
    )

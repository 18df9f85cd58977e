-- ===== src/Config/FilePath.antt =====
-- internal/config/credentials.go: validateFilePath.
use tsbridge.Prelude.Bytes.{bytes, contains, is_abs, split, cut_prefix}
use tsbridge.Prelude.{
  ℕ, List, [], ◌∷◌, Option, none, some, Bool, true, false, ◌&&◌, ◌||◌, not, is_empty, ◌==◌, all,
  if◌then◌else◌, ◌≡◌, ◌≢◌, ◌↔◌, refl, arith, All,
}
use tsbridge.Errors.{Err, new_validation_error, text}

-- Two strings of bytes are the same.
bytes_eq : List ℕ → List ℕ → Bool
bytes_eq [] [] = true
bytes_eq [] (d ∷ t) = false
bytes_eq (c ∷ s) [] = false
bytes_eq (c ∷ s) (d ∷ t) = (c == d) && bytes_eq s t

bytes_eq_iff : (s t : List ℕ) → (bytes_eq s t ≡ true) ↔ (s ≡ t)
unfolding bytes_eq
bytes_eq_iff [] [] = ground arith
bytes_eq_iff [] (d ∷ t) = ground arith
bytes_eq_iff (c ∷ s) [] = ground arith
bytes_eq_iff (c ∷ s) (d ∷ t) = ground (arith, bytes_eq_iff s t)

-- The parts between separators are neither `.` nor `..`.
is_plain_part : List ℕ → Bool
is_plain_part part = not (bytes_eq part (bytes "..") || bytes_eq part (bytes "."))

unfoldable pub validate_file_path : List ℕ → Option Err
unfolding is_plain_part bytes_eq
validate_file_path path =
    if is_empty path
    then some (new_validation_error (text "empty file path"))
    else if not (is_abs path)
    then some (new_validation_error (text "file path must be absolute"))
    else if contains path (0 ∷ [])
    then some (new_validation_error (text "invalid file path: contains null bytes"))
    else if contains path (bytes "..")
    then some (new_validation_error (text "invalid file path: contains directory traversal"))
    else if not (all is_plain_part (split b'/' path))
    then some (new_validation_error (text "invalid file path: contains directory traversal"))
    else none

-- An absolute path without a null byte, `..` or a part `.`.
pub record IsSafePath (path : List ℕ) : Type 0 where
  pub absolute : is_abs path ≡ true
  pub no_null : contains path (0 ∷ []) ≡ false
  pub no_traversal : contains path (bytes "..") ≡ false
  pub plain_parts : All (λ part. (part ≢ bytes "..") × (part ≢ bytes ".")) (split b'/' path)

parts_iff :
    (ps : List (List ℕ))
    → (all is_plain_part ps ≡ true) ↔ All (λ part. (part ≢ bytes "..") × (part ≢ bytes ".")) ps
unfolding is_plain_part
parts_iff [] = (λ _. tt, λ _. refl)
parts_iff (p ∷ ps) =
    let (up, up') = bytes_eq_iff p (bytes "..") in
    let (here, here') = bytes_eq_iff p (bytes ".") in
    let (to, from) = parts_iff ps in
    (
      λ h. ((ground (arith, up'), ground (arith, here')), to (ground arith)),
      λ h. ground (arith, up, here, from h.1, h.0.0, h.0.1),
    )

to_parts :
    (path : List ℕ)
    → All (λ part. (part ≢ bytes "..") × (part ≢ bytes ".")) (split b'/' path)
    → all is_plain_part (split b'/' path) ≡ true
to_parts path = (parts_iff (split b'/' path)).1

from_safe :
    (path : List ℕ)
    → IsSafePath path
    → all is_plain_part (split b'/' path) ≡ true
    → validate_file_path path ≡ none
unfolding validate_file_path cut_prefix
from_safe [] s h = cc s.absolute
from_safe (c ∷ p) s h = ground (arith, h, s.absolute, s.no_null, s.no_traversal)

-- A secret file's path is accepted exactly if it is absolute, holds no null byte and no `..`, and
-- no part of it is `.`.
pub validate_file_path_iff : (path : List ℕ) → (validate_file_path path ≡ none) ↔ IsSafePath path
unfolding validate_file_path
validate_file_path_iff path =
    let (to, from) = parts_iff (split b'/' path) in
    (
      λ h. record {
        absolute = (ground arith);
        no_null = (ground arith);
        no_traversal = (ground arith);
        plain_parts = to (ground arith);
      },
      λ s. from_safe path s (to_parts path s.plain_parts),
    )

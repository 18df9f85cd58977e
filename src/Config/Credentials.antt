-- ===== src/Config/Credentials.antt =====
-- internal/config/credentials.go: secrets that are given directly, in a file or in the environment.
-- `Os` holds the environment variables of the process and what the file system answers.
use Prim.Native.Char.{code}
use tsbridge.Prelude.Assoc.{lookup}
use tsbridge.Prelude.Bytes.{bytes}
use tsbridge.Prelude.{
  ℕ, String, List, [], ◌∷◌, Option, none, some, Bool, ◌&&◌, ◌||◌, deref, leb, ◌==◌, if◌then◌else◌,
  str_eq,
}
use tsbridge.Errors.{Err, Result, ok, err, plain, wrapping, str, text}
use tsbridge.Config.Validate.{is_set}
use tsbridge.Config.FilePath.{validate_file_path}

pub record Os : Type 0 where
  pub env : List (String × String)
  -- `os.ReadFile`
  pub read_file : String → Result String
  -- The size that `os.Stat` reports, and `os.IsNotExist` of its error.
  pub stat : String → Result ℕ
  pub is_not_exist : Err → Bool
  -- The error of `os.Open`.
  pub open_error : String → Option Err

-- `os.Getenv`
abbrev pub getenv : Os → String → String
getenv os name = deref (lookup name os.env) ""

-- `unicode.IsSpace`
is_space : ℕ → Bool
is_space c =
    (leb 9 c && leb c 13)
    || ((c == 32)
        || ((c == 133)
            || ((c == 160)
                || ((c == 5760)
                    || ((leb 8192 c && leb c 8202)
                        || ((c == 8232)
                            || ((c == 8233) || ((c == 8239) || ((c == 8287) || (c == 12288))))))))))

trim_left : String → String
trim_left String.[] = String.[]
trim_left (String.◌∷◌ c s) = if is_space (code c) then trim_left s else String.◌∷◌ c s

trim_right : String → String
trim_right String.[] = String.[]
trim_right (String.◌∷◌ c s) =
    let rest = trim_right s in
    if is_space (code c) && str_eq rest "" then String.[] else String.◌∷◌ c rest

-- `strings.TrimSpace`
unfoldable pub trim_space : String → String
unfolding trim_right trim_left is_space
trim_space s = trim_right (trim_left s)

module _ (os : Os) where
  unfoldable pub resolve_secret : String → String → String → Result String
  resolve_secret value env_var file_path =
      if is_set value
      then ok value
      else if is_set file_path
      then elim (validate_file_path (bytes file_path)) [
        | some e ↦ err e
        | none ↦ elim (os.read_file file_path) [
          | err e ↦ err (wrapping (text "reading secret file: %w") e)
          | ok content ↦ ok (trim_space content)
        ]
      ]
      else if is_set env_var
      then if str_eq (getenv os env_var) ""
        then err (
            plain (record {
              format = "environment variable %s is not set or empty";
              args = str env_var ∷ [];
            }))
        else ok (getenv os env_var)
      else ok ""

  unfoldable pub resolve_secret_with_fallback : String → String → String → String → Result String
  resolve_secret_with_fallback value env_var file_path fallback_env =
      elim (resolve_secret value env_var file_path) [
        | err e ↦
            if is_set fallback_env && is_set (getenv os fallback_env)
            then ok (getenv os fallback_env)
            else err e
        | ok result ↦
            if is_set result
            then ok result
            else if is_set fallback_env
            then ok (getenv os fallback_env)
            else ok ""
      ]

  unfoldable pub file_error : String → Option Err
  file_error file_path = elim (validate_file_path (bytes file_path)) [
    | some e ↦ some (wrapping (text "invalid file path: %w") e)
    | none ↦ elim (os.stat file_path) [
      | err e ↦
          if os.is_not_exist e
          then some
              (plain (record { format = "file %s does not exist"; args = str file_path ∷ [] }))
          else some
              (wrapping (record { format = "checking file %s: %w"; args = str file_path ∷ [] }) e)
      | ok size ↦ elim (os.open_error file_path) [
        | some e ↦
            some (
              wrapping (record { format = "cannot read file %s: %w"; args = str file_path ∷ [] }) e)
        | none ↦
            if size == 0
            then some (plain (record { format = "file %s is empty"; args = str file_path ∷ [] }))
            else none
      ]
    ]
  ]

  unfoldable pub validate_secret : String → String → String → Option Err
  validate_secret value env_var file_path =
      if is_set value
      then none
      else if is_set file_path
      then file_error file_path
      else if is_set env_var
      then if str_eq (getenv os env_var) ""
        then some (
            plain
              (record { format = "environment variable %s is not set"; args = str env_var ∷ [] }))
        else none
      else some (plain (text "no secret source configured"))

  unfoldable pub validate_secret_with_fallback : String → String → String → String → Option Err
  validate_secret_with_fallback value env_var file_path fallback_env =
      elim (validate_secret value env_var file_path) [
        | none ↦ none
        | some e ↦ if is_set fallback_env && is_set (getenv os fallback_env) then none else some e
      ]

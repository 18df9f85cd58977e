-- ===== src/Config/Secrets.antt =====
-- Where the value of a secret comes from.
use tsbridge.Prelude.Bytes.{bytes}
use tsbridge.Prelude.{
  String, false, str_eq, str_eq_iff, ◌≡◌, ◌≢◌, ◌↔◌, inl, inr, arith, Option-cases, Bool-cases,
  subst, ap, ◌∙◌,
}
use tsbridge.Errors.{Err, ok, err, Result-cases}
use tsbridge.Config.FilePath.{validate_file_path, IsSafePath, validate_file_path_iff}
use tsbridge.Config.Credentials.{
  Os, getenv, trim_space, resolve_secret, resolve_secret_with_fallback,
}

module _ (os : Os) where
  -- The sources of a secret, in the order of their priority.
  pub data Source (value env_var file_path : String) : String → Type 0 where
    direct : value ≢ "" → Source value env_var file_path value
    from_file :
        (content : String)
        → value ≡ ""
        → file_path ≢ ""
        → IsSafePath (bytes file_path)
        → os.read_file file_path ≡ ok content
        → Source value env_var file_path (trim_space content)
    from_env :
        value ≡ ""
        → file_path ≡ ""
        → env_var ≢ ""
        → getenv os env_var ≢ ""
        → Source value env_var file_path (getenv os env_var)
    unset : value ≡ "" → file_path ≡ "" → env_var ≡ "" → Source value env_var file_path ""

  Source-resolve_secret : (v e f s : String) → Source v e f s → resolve_secret os v e f ≡ ok s
  unfolding resolve_secret
  Source-resolve_secret v e f _ (direct h) = ground (arith, str_eq_iff v "")
  Source-resolve_secret v e f _ (from_file content h k safe r) =
      let p = (validate_file_path_iff (bytes f)).1 safe in
      ground (arith, str_eq_iff v "", str_eq_iff f "", p)
  Source-resolve_secret v e f _ (from_env h k m g) =
      ground (arith, str_eq_iff v "", str_eq_iff f "", str_eq_iff e "", str_eq_iff (getenv os e) "")
  Source-resolve_secret v e f _ (unset h k m) =
      ground (arith, str_eq_iff v "", str_eq_iff f "", str_eq_iff e "")

  resolve_secret-Source : (v e f s : String) → resolve_secret os v e f ≡ ok s → Source v e f s
  unfolding resolve_secret
  resolve_secret-Source v e f s h = elim (Bool-cases (str_eq v "")) [
    | inr given ↦
        subst (Source v e f) (ground arith) (direct (λ x. ground (arith, str_eq_iff v "")))
    | inl no_value ↦ elim (Bool-cases (str_eq f "")) [
      | inr file ↦ by_file ((str_eq_iff v "").0 no_value) file
      | inl no_file ↦ elim (Bool-cases (str_eq e "")) [
        | inl no_env ↦ subst (Source v e f) (ground arith) (
            unset ((str_eq_iff v "").0 no_value) ((str_eq_iff f "").0 no_file)
              ((str_eq_iff e "").0 no_env))
        | inr env ↦ subst (Source v e f) (ground arith) (
            from_env ((str_eq_iff v "").0 no_value) ((str_eq_iff f "").0 no_file)
              (λ x. ground (arith, str_eq_iff e ""))
              (λ x. ground (arith, str_eq_iff (getenv os e) "")))
      ]
    ]
  ]
    where
      by_file : v ≡ "" → str_eq f "" ≡ false → Source v e f s
      by_file no_value file = elim (Option-cases (validate_file_path (bytes f))) [
        | inr (x, q) ↦ ground (arith, str_eq_iff v "")
        | inl q ↦ elim (Result-cases (os.read_file f)) [
          | inl (x, r) ↦ ground (arith, str_eq_iff v "")
          | inr (content, r) ↦ subst (Source v e f) (ground (arith, str_eq_iff v "")) (
              from_file content no_value (λ x. ground (arith, str_eq_iff f ""))
                ((validate_file_path_iff (bytes f)).0 q) r)
        ]
      ]

  -- The value of a secret with a variable to fall back on: its first source, if that can be read and
  -- is not empty; else the variable, where one is named. A source that cannot be read counts only
  -- where the variable is set.
  pub data SourceOrFallback (value env_var file_path fallback_env : String) : String → Type 0 where
    first :
        (s : String)
        → Source value env_var file_path s
        → s ≢ ""
        → SourceOrFallback value env_var file_path fallback_env s
    instead_of_empty :
        Source value env_var file_path ""
        → fallback_env ≢ ""
        → SourceOrFallback value env_var file_path fallback_env (getenv os fallback_env)
    instead_of_error :
        ((s : String) → ¬ Source value env_var file_path s)
        → fallback_env ≢ ""
        → getenv os fallback_env ≢ ""
        → SourceOrFallback value env_var file_path fallback_env (getenv os fallback_env)
    empty :
        Source value env_var file_path ""
        → fallback_env ≡ ""
        → SourceOrFallback value env_var file_path fallback_env ""

  SourceOrFallback-resolved :
      (v e f d s : String)
      → SourceOrFallback v e f d s
      → resolve_secret_with_fallback os v e f d ≡ ok s
  unfolding resolve_secret_with_fallback
  SourceOrFallback-resolved v e f d s (first _ source h) =
      ground (arith, Source-resolve_secret v e f s source, str_eq_iff s "")
  SourceOrFallback-resolved v e f d _ (instead_of_empty source h) =
      ground (arith, Source-resolve_secret v e f "" source, str_eq_iff d "")
  SourceOrFallback-resolved v e f d _ (empty source h) =
      ground (arith, Source-resolve_secret v e f "" source, str_eq_iff d "")
  SourceOrFallback-resolved v e f d _ (instead_of_error unread h k) =
      elim (Result-cases (resolve_secret os v e f)) [
        | inl (x, failed) ↦ ground (arith, failed, str_eq_iff d "", str_eq_iff (getenv os d) "")
        | inr (t, found) ↦ absurd (unread t (resolve_secret-Source v e f t found))
      ]

  resolved-SourceOrFallback :
      (v e f d s : String)
      → resolve_secret_with_fallback os v e f d ≡ ok s
      → SourceOrFallback v e f d s
  unfolding resolve_secret_with_fallback
  resolved-SourceOrFallback v e f d s h = elim (Result-cases (resolve_secret os v e f)) [
    | inl (x, failed) ↦ elim (Bool-cases (str_eq d "")) [
      | inl no_fallback ↦ absurd (ground arith)
      | inr fallback ↦ elim (Bool-cases (str_eq (getenv os d) "")) [
        | inl not_set ↦ absurd (ground arith)
        | inr set ↦ subst (SourceOrFallback v e f d) (ground arith) (
            instead_of_error (λ t source. unread x failed t source) (not_empty d fallback)
              (not_empty (getenv os d) set))
      ]
    ]
    | inr (t, found) ↦ elim (Bool-cases (str_eq t "")) [
      | inl absent ↦
          let source =
            resolve_secret-Source v e f "" (found ∙ ap ok ((str_eq_iff t "").0 absent)) in
          elim (Bool-cases (str_eq d "")) [
            | inl no_fallback ↦
                subst (SourceOrFallback v e f d) (ground arith)
                  (empty source ((str_eq_iff d "").0 no_fallback))
            | inr fallback ↦
                subst (SourceOrFallback v e f d) (ground arith)
                  (instead_of_empty source (not_empty d fallback))
          ]
      | inr there ↦
          subst (SourceOrFallback v e f d) (ground arith)
            (first t (resolve_secret-Source v e f t found) (not_empty t there))
    ]
  ]
    where
      not_empty : (t : String) → str_eq t "" ≡ false → t ≢ ""
      not_empty t k x = ground (arith, str_eq_iff t "")

      unread : (x : Err) → resolve_secret os v e f ≡ err x → (t : String) → ¬ Source v e f t
      unread x failed t source = cc (Source-resolve_secret v e f t source)

  -- ResolveSecretWithFallback returns a value exactly if that is the value of the first source of
  -- the secret, in the order direct value, file, environment variable, and is not empty, or that of
  -- the fallback variable where the first source is empty or absent, or cannot be read while the
  -- variable is set; without a fallback variable an empty or absent source gives the empty value.
  pub resolve_secret_with_fallback_iff :
      (v e f d s : String)
      → (resolve_secret_with_fallback os v e f d ≡ ok s) ↔ SourceOrFallback v e f d s
  resolve_secret_with_fallback_iff v e f d s =
      (resolved-SourceOrFallback v e f d s, SourceOrFallback-resolved v e f d s)

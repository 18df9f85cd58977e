-- ===== src/Config/Accepts.antt =====
-- Which configurations Validate accepts as a whole, the loop over the services included.
use tsbridge.Prelude.{
  ℕ, suc, String, List, [], ◌∷◌, none, true, false, str_eq, str_eq_iff, ◌≡◌, ◌≢◌, ◌↔◌, ◌⊎◌, inl,
  inr, refl, arith, Option-cases, All,
}
use tsbridge.Config.Address.{Net}
use tsbridge.App.Keys.{find_by}
use tsbridge.App.Lists.{find_service, UniqueNames}
use tsbridge.Config.Validate.{
  none_error, checks, validate_service, is_seen, validate_services, validate,
}
use tsbridge.Config.Valid.{
  IsAuth, first_error_iff, IsGlobal, validate_oauth_iff, validate_global_iff,
}
use tsbridge.Config.ValidService.{IsService, validate_service_iff}
use tsbridge.Config.{Tailscale, Service, Config}

-- A name that is given and not among the names seen before.
abbrev IsNew : List String → Service → Type 0
IsNew seen svc = (svc.name ≢ "") × (is_seen svc.name seen ≡ false)

split-IsNew :
    (n : String) (seen : List String) (xs : List Service)
    → All (IsNew (n ∷ seen)) xs
    → (find_service n xs ≡ none) × All (IsNew seen) xs
unfolding find_by is_seen
split-IsNew n seen [] h = (refl, tt)
split-IsNew n seen (x ∷ xs) (h, hs) =
    let (absent, rest) = split-IsNew n seen xs hs in
    (ground (arith, absent, str_eq_iff x.name n, str_eq_iff n x.name), (ground arith, rest))

join-IsNew :
    (n : String) (seen : List String) (xs : List Service)
    → find_service n xs ≡ none
    → All (IsNew seen) xs
    → All (IsNew (n ∷ seen)) xs
unfolding find_by is_seen
join-IsNew n seen [] h hs = tt
join-IsNew n seen (x ∷ xs) h (k, ks) = (
  ground (arith, str_eq_iff x.name n, str_eq_iff n x.name),
  join-IsNew n seen xs (ground arith) ks,
)

module _ (net : Net) where
  abbrev IsAccepted : Tailscale → List String → List Service → Type 0
  IsAccepted ts seen xs = All (IsNew seen) xs × UniqueNames xs × All (IsService net ts) xs

  services_to :
      (ts : Tailscale) (i : ℕ) (seen : List String) (xs : List Service)
      → validate_services net ts i seen xs ≡ none
      → IsAccepted ts seen xs
  unfolding validate_services
  services_to ts i seen [] h = (tt, tt, tt)
  services_to ts i seen (x ∷ xs) h =
      let (e, e') = str_eq_iff x.name "" in
      elim (Option-cases (validate_service net ts x)) [
        | inr (k, q) ↦ ground arith
        | inl q ↦
            let (news, unique, oks) = services_to ts (suc i) (x.name ∷ seen) xs (ground arith) in
            let (absent, others) = split-IsNew x.name seen xs news in
            (
              ((ground (arith, e'), ground arith), others),
              (absent, unique),
              ((validate_service_iff net ts x).0 q, oks),
            )
      ]

  services_from :
      (ts : Tailscale) (i : ℕ) (seen : List String) (xs : List Service)
      → IsAccepted ts seen xs
      → validate_services net ts i seen xs ≡ none
  unfolding validate_services
  services_from ts i seen [] h = refl
  services_from ts i seen (x ∷ xs) ((new, news), (absent, unique), (ok, oks)) =
      let later =
        services_from ts (suc i) (x.name ∷ seen) xs
          (join-IsNew x.name seen xs absent news, unique, oks) in
      let (e, e') = str_eq_iff x.name "" in
      let q = (validate_service_iff net ts x).1 ok in ground (arith, e, new.0, new.1, later, q)

  -- What Validate promises of a configuration it accepts.
  pub record IsValid (c : Config) (provider : String) : Type 0 where
    pub auth : IsAuth c.tailscale
    pub globals : IsGlobal net c.global
    pub some_service : (c.services ≢ []) ⊎ (provider ≡ "docker")
    pub named : All (λ (svc : Service). svc.name ≢ "") c.services
    pub unique : UniqueNames c.services
    pub services : All (IsService net c.tailscale) c.services

  given-IsNew : (xs : List Service) → All (IsNew []) xs ↔ All (λ (svc : Service). svc.name ≢ "") xs
  unfolding is_seen
  given-IsNew [] = (λ _. tt, λ _. tt)
  given-IsNew (x ∷ xs) =
      let (to, from) = given-IsNew xs in (λ h. (h.0.0, to h.1), λ h. ((h.0, refl), from h.1))

  none_error_iff :
      (xs : List Service) (provider : String)
      → (none_error net xs provider ≡ none) ↔ ((xs ≢ []) ⊎ (provider ≡ "docker"))
  unfolding none_error
  none_error_iff xs provider =
      let (to, from) = str_eq_iff provider "docker" in (λ h. given xs to h, λ h. back xs from h)
    where
      given :
          (ys : List Service)
          → (str_eq provider "docker" ≡ true → provider ≡ "docker")
          → none_error net ys provider ≡ none
          → (ys ≢ []) ⊎ (provider ≡ "docker")
      given [] to h = ground (arith, to)
      given (y ∷ ys) to h = inl (λ e. cc)

      back :
          (ys : List Service)
          → (provider ≡ "docker" → str_eq provider "docker" ≡ true)
          → (ys ≢ []) ⊎ (provider ≡ "docker")
          → none_error net ys provider ≡ none
      back [] from h = ground (arith, from)
      back (y ∷ ys) from h = refl

  -- The configurations that Validate accepts are exactly those with one complete way to
  -- authenticate or none, timeouts, addresses and proxies in range, at least one service unless the
  -- provider is docker, and services that are named, named apart and each valid.
  pub validate_iff :
      (c : Config) (provider : String) → (validate net c provider ≡ none) ↔ IsValid c provider
  unfolding validate
  validate_iff c provider = (
    λ h.
        let (auth, (globals, (given, (services, _)))) =
          (first_error_iff (checks net c provider)).0 h in
        let (news, unique, oks) = services_to c.tailscale 0 [] c.services services in
        record {
          auth = (validate_oauth_iff c.tailscale).0 auth;
          globals = (validate_global_iff net c.global).0 globals;
          some_service = (none_error_iff c.services provider).0 given;
          named = (given-IsNew c.services).0 news;
          unique = unique;
          services = oks;
        },
    λ v. (first_error_iff (checks net c provider)).1 (
      (validate_oauth_iff c.tailscale).1 v.auth,
      (
        (validate_global_iff net c.global).1 v.globals,
        (
          (none_error_iff c.services provider).1 v.some_service,
          (
            services_from c.tailscale 0 [] c.services
                ((given-IsNew c.services).1 v.named, v.unique, v.services),
            tt,
          ),
        ),
      ),
    ),
  )

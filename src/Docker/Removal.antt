-- ===== src/Docker/Removal.antt =====
-- About removeServiceByContainerName: which services it removes.
use Prim.Native.Char.{code}
use Prim.Native.String.{◌++◌ as append}
use text.Mathlib.TextEquality.{Char-path}
use text.Mathlib.TextLemmas.{nil-append, cons-append}
use tsbridge.Prelude.Text.{cut_last}
use tsbridge.Prelude.{
  ℕ, String, List, [], ◌∷◌, none, some, false, not, keep, ◌≡◌, ◌≢◌, ◌⊎◌, ◌↔◌, refl, arith,
  str_eq_iff, str_eq, ◌==◌, Bool-cases, Option-cases, inl, inr, ap, sym, subst,
}
use tsbridge.Config.{Service, Config}
use tsbridge.Docker.Load.{backend_host, remove_service_by_container_name}

-- A text without the character.
abbrev pub IsFree : ℕ → String → Type 0
IsFree sep String.[] = Unit
IsFree sep (String.◌∷◌ c s) = (code c ≢ sep) × IsFree sep s

cut_last-IsFree : (sep : ℕ) (s : String) → IsFree sep s → cut_last sep s ≡ none
unfolding cut_last
cut_last-IsFree sep String.[] h = refl
cut_last-IsFree sep (String.◌∷◌ c s) h = ground (arith, cut_last-IsFree sep s)

-- A container's name before a port.
cut_last-append :
    (name port : String)
    → IsFree b':' port
    → cut_last b':' (append name (append ":" port)) ≡ some name
unfolding cut_last
cut_last-append String.[] port h =
    rw (nil-append, cons-append, nil-append, cut_last-IsFree b':' port h) refl
cut_last-append (String.◌∷◌ c name) port h =
    rw (cons-append, cut_last) (ground (arith, cut_last-append name port h))

pub backend_host-append :
    (name port : String)
    → name ≢ ""
    → IsFree b':' port
    → backend_host (append name (append ":" port)) ≡ name
unfolding backend_host
backend_host-append name port h k = ground (arith, cut_last-append name port k, str_eq_iff name "")

cut_last-none : (sep : ℕ) (s : String) → cut_last sep s ≡ none → IsFree sep s
unfolding cut_last
cut_last-none sep String.[] h = tt
cut_last-none sep (String.◌∷◌ c s) h = elim (Option-cases (cut_last sep s)) [
  | inl free ↦ (ground arith, cut_last-none sep s free)
  | inr (before, later) ↦ ground arith
]

-- What stands before and behind the last separator.
cut_last-split :
    (s host : String)
    → cut_last b':' s ≡ some host
    → (port : String) × IsFree b':' port × (s ≡ append host (append ":" port))
unfolding cut_last
cut_last-split String.[] host h = cc
cut_last-split (String.◌∷◌ c s) host h = elim (Option-cases (cut_last b':' s)) [
  | inr (before, later) ↦
      let (port, free, e) = cut_last-split s before later in
      let same : String.◌∷◌ c before ≡ host = ground arith in
      (
        port,
        free,
        subst (λ t. String.◌∷◌ c s ≡ append t (append ":" port)) same
            (rw cons-append (ap (λ t. String.◌∷◌ c t) e)),
      )
  | inl last ↦ elim (Bool-cases (code c == 58)) [
    | inr other ↦ ground arith
    | inl colon ↦
        let same : "" ≡ host = ground arith in
        (
          s,
          cut_last-none b':' s last,
          subst (λ t. String.◌∷◌ c s ≡ append t (append ":" s)) same
              (rw (nil-append, cons-append, nil-append)
                (ap (λ d. String.◌∷◌ d s) (Char-path c ":" (ground arith)))),
        )
  ]
]

-- The address of a container by its name, with a port or without.
abbrev pub RunsAt : String → String → Type 0
RunsAt name addr =
    (addr ≡ name) ⊎ ((port : String) × IsFree b':' port × (addr ≡ append name (append ":" port)))

backend_host_iff :
    (name addr : String)
    → name ≢ ""
    → IsFree b':' name
    → (backend_host addr ≡ name) ↔ RunsAt name addr
unfolding backend_host
backend_host_iff name addr h k = (to, from)
  where
    to : backend_host addr ≡ name → RunsAt name addr
    to e = elim (Option-cases (cut_last b':' addr)) [
      | inl whole ↦ inl (ground arith)
      | inr (host, cut) ↦ elim (Bool-cases (str_eq host "")) [
        | inl empty ↦ inl (ground arith)
        | inr there ↦
            let (port, free, split) = cut_last-split addr host cut in
            let same : host ≡ name = ground arith in
            inr (port, free, subst (λ t. addr ≡ append t (append ":" port)) same split)
      ]
    ]

    from : RunsAt name addr → backend_host addr ≡ name
    from (inl e) =
        subst (λ t. backend_host t ≡ name) (sym e) (ground (arith, cut_last-IsFree b':' name k))
    from (inr (port, free, e)) =
        subst (λ t. backend_host t ≡ name) (sym e) (backend_host-append name port h free)

-- The second list is the first without the services that run at the container, in their order.
abbrev pub IsWithout : String → List Service → List Service → Type 0
IsWithout name [] ys = ys ≡ []
IsWithout name (s ∷ xs) ys =
    (RunsAt name s.backend_addr × IsWithout name xs ys)
    ⊎ (¬ RunsAt name s.backend_addr × ((zs : List Service) × (ys ≡ s ∷ zs) × IsWithout name xs zs))

keep-IsWithout :
    (name : String)
    → name ≢ ""
    → IsFree b':' name
    → (xs : List Service)
    → IsWithout name xs
        (keep (λ (svc : Service). not (str_eq (backend_host svc.backend_addr) name)) xs)
keep-IsWithout name h k [] = refl
keep-IsWithout name h k (s ∷ xs) =
    let rest = keep-IsWithout name h k xs in
    let at_host = backend_host_iff name s.backend_addr h k in
    let names = str_eq_iff (backend_host s.backend_addr) name in
    elim (Bool-cases (str_eq (backend_host s.backend_addr) name)) [
      | inl here ↦ rw here (inl (at_host.0 (names.0 here), rest))
      | inr there ↦ rw there (inr (λ r. ground (arith, names.1 (at_host.1 r)), (_, refl, rest)))
    ]

-- A stopped container with a name without a colon loses exactly the services whose backend address
-- is that name, or that name and a port; the other services and their order stay.
pub remove-IsWithout :
    (cfg : Config) (name : String)
    → name ≢ ""
    → IsFree b':' name
    → IsWithout name cfg.services (remove_service_by_container_name cfg name).services
unfolding remove_service_by_container_name
remove-IsWithout cfg name h k =
    let not_empty : str_eq name "" ≡ false = ground (arith, str_eq_iff name "") in
    rw not_empty (keep-IsWithout name h k cfg.services)

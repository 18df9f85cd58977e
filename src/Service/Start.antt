-- ===== src/Service/Start.antt =====
-- What StartServices leaves in a fresh registry.
use tsbridge.Prelude.Assoc.{lookup, insert, has_key, lookup-insert}
use tsbridge.Prelude.{
  ℕ, suc, ◌+◌, ◌<◌, String, List, [], ◌∷◌, Option, none, some, true, false, ◌≡◌, ◌≢◌, refl, arith,
  str_eq, str_eq_iff, str_eq_refl, Bool-cases, Option-cases, inl, inr, if◌then◌else◌, sym, subst,
  ◌∙◌, ◌⊎◌, length, ◌==◌,
}
use tsbridge.Errors.{Err, to_failures}
use tsbridge.Errors.Startup.{StartupError, new_service_startup_error, as_service_startup_error}
use tsbridge.Config.{Service, Config}
use tsbridge.App.Keys.{find_by}
use tsbridge.App.Lists.{find_service, UniqueNames}
use tsbridge.Service.{Host, Registry, Collector}
use tsbridge.Service.Operations.{new_registry, start_services, start_all, start_step, collects}
use tsbridge.Service.Refines.{start_service_lem, running}

length-insert_new {ℓ} :
    {V : Type ℓ} (k : String) (v : V) (m : List (String × V))
    → lookup k m ≡ none
    → length (insert k v m) ≡ length m + 1
unfolding lookup insert
length-insert_new k v [] h = omega arith
length-insert_new k v ((j, u) ∷ m) h = ground (arith, length-insert_new k v m)

-- The result of `StartServices` from its counts and failures.
abbrev pub start_error : ℕ → ℕ → List (String × Err) → Option Err
start_error total successful failed =
    if length failed == 0
    then none
    else new_service_startup_error total successful (length failed) (to_failures failed)

start_error-eq-none :
    (t s : ℕ) (failed : List (String × Err)) → start_error t s failed ≡ none → failed ≡ []
unfolding new_service_startup_error
start_error-eq-none t s [] h = refl
start_error-eq-none t s ((n, e) ∷ failed) h = ground arith

start_error-eq-some :
    (t s : ℕ) (failed : List (String × Err)) (e : Err)
    → start_error t s failed ≡ some e
    → (x : StartupError) × (as_service_startup_error (some e) ≡ some x)
      × (x.total ≡ t)
      × (x.successful ≡ s)
      × (x.failed ≡ length failed)
      × (0 < x.failed)
unfolding new_service_startup_error as_service_startup_error
start_error-eq-some t s [] e h = cc
start_error-eq-some t s ((n, y) ∷ failed) e h = (
  record {
    total = t;
    successful = s;
    failed = suc (length failed);
    failures = to_failures ((n, y) ∷ failed);
  },
  startup_of h,
  refl,
  refl,
  refl,
  omega arith,
)
  where
    startup_of :
        start_error t s ((n, y) ∷ failed) ≡ some e
        → as_service_startup_error (some e)
          ≡ some (record {
            total = t;
            successful = s;
            failed = suc (length failed);
            failures = to_failures ((n, y) ∷ failed);
          })
    startup_of h = ground arith

module _ {W L H : Type 0} (host : Host W L H) where
  abbrev State : Type 0
  State = Registry W L H × ℕ × List (String × Err)

  start_step_frame :
      (s : Service) (st : State) (n : String)
      → str_eq s.name n ≡ false
      → (running (start_step host s st).0 n ≡ running st.0 n)
        × (lookup n (start_step host s st).2 ≡ lookup n st.2)
  unfolding start_step
  start_step_frame s (r, k, failed) n h = grind (arith, lookup-insert)

  start_step_done :
      (s : Service) (st : State)
      → (running (start_step host s st).0 s.name ≡ some s)
        ⊎ (has_key s.name (start_step host s st).2 ≡ true)
  unfolding start_step
  start_step_done s (r, k, failed) = grind (
    arith,
    lookup-insert,
    str_eq_refl s.name,
    start_service_lem host r.config s (collects r) r.world,
  )

  start_step_done_at :
      (s : Service) (st : State) (n : String)
      → s.name ≡ n
      → (running (start_step host s st).0 n ≡ some s) ⊎ (has_key n (start_step host s st).2 ≡ true)
  start_step_done_at s st n e =
      subst
        (λ (m : String).
          (running (start_step host s st).0 m ≡ some s)
          ⊎ (has_key m (start_step host s st).2 ≡ true))
        e (start_step_done s st)

  start_step_counts :
      (s : Service) (st : State)
      → lookup s.name st.2 ≡ none
      → (start_step host s st).1 + length (start_step host s st).2 ≡ st.1 + length st.2 + 1
  unfolding start_step
  start_step_counts s (r, k, failed) h = grind (arith, length-insert_new)

  pub start_all_frame :
      (svcs : List Service) (st : State) (n : String)
      → find_service n svcs ≡ none
      → (running (start_all host svcs st).0 n ≡ running st.0 n)
        × (lookup n (start_all host svcs st).2 ≡ lookup n st.2)
  unfolding start_all find_by
  start_all_frame [] st n h = (refl, refl)
  start_all_frame (s ∷ svcs) st n h = elim (Bool-cases (str_eq s.name n)) [
    | inl here ↦ ground arith
    | inr there ↦
        let (a, b) = start_all_frame svcs (start_step host s st) n (ground arith) in
        let (a', b') = start_step_frame s st n there in (a ∙ a', b ∙ b')
  ]

  pub start_all_done :
      (svcs : List Service) (st : State) (n : String) (s : Service)
      → UniqueNames svcs
      → find_service n svcs ≡ some s
      → (running (start_all host svcs st).0 n ≡ some s)
        ⊎ (has_key n (start_all host svcs st).2 ≡ true)
  unfolding start_all find_by
  start_all_done [] st n s u h = cc
  start_all_done (x ∷ svcs) st n s u h = elim (Bool-cases (str_eq x.name n)) [
    | inl here ↦
        let met : some x ≡ some s = rw (here, find_by) at h in
        let same = (str_eq_iff x.name n).0 here in
        let (a, b) = start_all_frame svcs (start_step host x st) n (rw same at u.0) in
        elim (start_step_done_at x st n same) [
          | inl runs ↦ inl (a ∙ runs ∙ met)
          | inr fails ↦ inr (ground arith)
        ]
    | inr there ↦ start_all_done svcs (start_step host x st) n s u.1 (rw (there, find_by) at h)
  ]

  start_all_counts :
      (svcs : List Service) (st : State)
      → UniqueNames svcs
      → ((n : String) → lookup n st.2 ≢ none → find_service n svcs ≡ none)
      → (start_all host svcs st).1 + length (start_all host svcs st).2
        ≡ st.1 + length st.2 + length svcs
  unfolding start_all find_by
  start_all_counts [] st u h = omega arith
  start_all_counts (s ∷ svcs) st u h =
      let fresh : lookup s.name st.2 ≡ none = elim (Option-cases (lookup s.name st.2)) [
        | inl none_yet ↦ none_yet
        | inr (e, known) ↦ absurd (twice (h s.name (λ no. cc)))
      ] in
      omega (
        arith,
        start_step_counts s st fresh,
        start_all_counts svcs (start_step host s st) u.1 (λ n known. later n known),
      )
    where
      twice : find_service s.name (s ∷ svcs) ≡ none → ⊥
      twice e = ground (arith, str_eq_refl s.name)

      later : (n : String) → lookup n (start_step host s st).2 ≢ none → find_service n svcs ≡ none
      later n known = elim (Bool-cases (str_eq s.name n)) [
        | inl here ↦ rw ((str_eq_iff s.name n).0 here) at u.0
        | inr there ↦
            let same = (start_step_frame s st n there).1 in
            let e = h n (λ no. known (same ∙ no)) in rw (there, find_by) at e
      ]

  -- The state after the loop of `StartServices` over a fresh registry.
  abbrev pub started : Config → Option Collector → W → State
  started cfg collector w = start_all host cfg.services (new_registry host cfg collector w, 0, [])

  running-started :
      (cfg : Config) (collector : Option Collector) (w : W)
      → UniqueNames cfg.services
      → (started cfg collector w).2 ≡ []
      → (n : String) → running (started cfg collector w).0 n ≡ find_service n cfg.services
  unfolding new_registry lookup
  running-started cfg collector w u h n = elim (Option-cases (find_service n cfg.services)) [
    | inl absent ↦ (start_all_frame cfg.services _ n absent).0 ∙ sym absent
    | inr (s, wanted) ↦ elim (start_all_done cfg.services _ n s u wanted) [
      | inl runs ↦ runs ∙ sym wanted
      | inr fails ↦ cc (rw h at fails)
    ]
  ]

  -- Where service names are unique, a start of a fresh registry that returns no error leaves every
  -- configured service running under its name, with its configuration, and no other.
  pub running-start_services :
      (cfg : Config) (collector : Option Collector) (w : W)
      → UniqueNames cfg.services
      → (start_services host (new_registry host cfg collector w)).1 ≡ none
      → (n : String)
      → running (start_services host (new_registry host cfg collector w)).0 n
        ≡ find_service n cfg.services
  unfolding start_services new_registry
  running-start_services cfg collector w u h n =
      running-started cfg collector w u
        (start_error-eq-none (length cfg.services) (started cfg collector w).1
          (started cfg collector w).2 h)
        n

  -- Where service names are unique and the start of a fresh registry returns an error, it is a
  -- startup error whose total is the number of configured services, each counted as started or as
  -- failed, and at least one as failed.
  pub start_services_counts :
      (cfg : Config) (collector : Option Collector) (w : W) (e : Err)
      → UniqueNames cfg.services
      → (start_services host (new_registry host cfg collector w)).1 ≡ some e
      → (x : StartupError) × (as_service_startup_error (some e) ≡ some x)
        × (x.total ≡ length cfg.services)
        × (x.successful + x.failed ≡ x.total)
        × (0 < x.failed)
  unfolding start_services lookup new_registry
  start_services_counts cfg collector w e u h =
      let (x, found, total, successful, failed, some_failed) =
        start_error-eq-some (length cfg.services) (started cfg collector w).1
          (started cfg collector w).2 e h in
      let all_counted =
        start_all_counts cfg.services (new_registry host cfg collector w, 0, []) u
          (λ n known. absurd (known refl)) in
      (x, found, total, omega arith, some_failed)

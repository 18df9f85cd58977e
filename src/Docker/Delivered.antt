-- ===== src/Docker/Delivered.antt =====
-- About immediateReload: what the receiver has, beside the configuration that the provider holds.
use tsbridge.Prelude.{
  List, [], ◌∷◌, Option, none, some, Bool, true, false, deref, ◌≡◌, refl, subst, sym, ap, ◌∙◌,
  arith, All, Bool-cases, Option-cases, inl, inr, ◌⊎◌,
}
use tsbridge.Errors.{Err, ok, err, Result-cases}
use tsbridge.Config.{Config}
use tsbridge.Config.Process.{process_loaded_config_with_provider}
use tsbridge.Docker.{Daemon, Provider}
use tsbridge.Docker.Parse.{Readers}
use tsbridge.Docker.Load.{load, labelled_config, config_equal, same_services}
use tsbridge.Docker.Watching.{Delivery, sent, busy, deliver, immediate_reload}
use tsbridge.Docker.Comparison.{same_services_trans}

-- A load that returns a configuration holds it, and one that fails keeps what is held.
load-last_config :
    (rd : Readers) (d : Daemon) (p : Provider)
    → (load rd d p).0.last_config
      ≡ elim (load rd d p).1 [ ok cfg ↦ some cfg | err e ↦ p.last_config ]
unfolding load
load-last_config rd d p = elim (Result-cases (labelled_config rd d p)) [
  | inl (e, failed) ↦ ground arith
  | inr (cfg, found) ↦
      elim (Result-cases (process_loaded_config_with_provider rd.net p.os cfg "docker").1) [
        | inl (e, failed) ↦ ground arith
        | inr (ready, done) ↦ ground arith
      ]
]

-- What one reload is given: the answers of Docker, whether the context is done, and how the
-- sending goes.
pub record Reload : Type 0 where
  pub daemon : Daemon
  pub done : Bool
  pub delivery : Delivery

-- The reloads in their order, and the configuration that the receiver has last got.
unfoldable pub reloads : Readers → List Reload → Provider → Config → Provider × Config
reloads rd [] p received = (p, received)
reloads rd (r ∷ later) p received =
    let (p', told) = immediate_reload rd r.daemon r.done r.delivery p in
    reloads rd later p' (deref told received)

-- The provider holds what the receiver has, up to the comparison.
abbrev pub IsInStep : Provider → Config → Type 0
IsInStep p received =
    (held : Config) × (p.last_config ≡ some held)
    × ((received ≡ held) ⊎ (same_services received held ≡ true))

-- The three outcomes of a reload while a configuration is held.
module _ (rd : Readers) (d : Daemon) (delivery : Delivery) (p : Provider) where
  reload_failed :
      (e : Err)
      → (load rd d p).1 ≡ err e
      → immediate_reload rd d false delivery p ≡ ((load rd d p).0, none)
  unfolding immediate_reload
  reload_failed e h = ground arith

  reload_same :
      (held new : Config)
      → p.last_config ≡ some held
      → (load rd d p).1 ≡ ok new
      → same_services held new ≡ true
      → immediate_reload rd d false delivery p ≡ ((load rd d p).0, none)
  unfolding immediate_reload config_equal
  reload_same held new h k e = ground arith

  reload_changed :
      (held new : Config)
      → p.last_config ≡ some held
      → (load rd d p).1 ≡ ok new
      → same_services held new ≡ false
      → immediate_reload rd d false delivery p ≡ deliver delivery new (load rd d p).0
  unfolding immediate_reload config_equal
  reload_changed held new h k e = ground arith

reload_busy :
    (rd : Readers) (d : Daemon) (p : Provider) (new : Config)
    → (load rd d p).1 ≡ ok new
    → immediate_reload rd d false busy p ≡ ((load rd d p).0, none)
unfolding immediate_reload config_equal deliver
reload_busy rd d p new h = elim (Option-cases p.last_config) [
  | inl nothing ↦ ground arith
  | inr (held, holds) ↦ elim (Bool-cases (same_services held new)) [
    | inl equal ↦ reload_same rd d busy p held new holds h equal
    | inr other ↦ reload_changed rd d busy p held new holds h other
  ]
]

immediate_reload-IsInStep :
    (rd : Readers) (d : Daemon) (done : Bool) (p : Provider) (received : Config)
    → IsInStep p received
    → IsInStep
        (immediate_reload rd d done sent p).0
        (deref (immediate_reload rd d done sent p).1 received)
unfolding immediate_reload deliver
immediate_reload-IsInStep rd d true p received h = h
immediate_reload-IsInStep rd d false p received (held, holds, same) =
    elim (Result-cases (load rd d p).1) [
      | inl (e, failed) ↦
          along (reload_failed rd d sent p e failed)
            (held, ground (arith, load-last_config rd d p), same)
      | inr (new, loaded) ↦
          let last : (load rd d p).0.last_config ≡ some new =
            ground (arith, load-last_config rd d p) in
          elim (Bool-cases (same_services held new)) [
            | inl equal ↦
                along (reload_same rd d sent p held new holds loaded equal)
                  (new, last, follow same equal)
            | inr other ↦
                along (reload_changed rd d sent p held new holds loaded other) (new, refl, inl refl)
          ]
    ]
  where
    along :
        {q : Provider × Option Config}
        → immediate_reload rd d false sent p ≡ q
        → IsInStep q.0 (deref q.1 received)
        → IsInStep
            (immediate_reload rd d false sent p).0
            (deref (immediate_reload rd d false sent p).1 received)
    along e = subst (λ (q : Provider × Option Config). IsInStep q.0 (deref q.1 received)) (sym e)

    follow :
        {new : Config}
        → (received ≡ held) ⊎ (same_services received held ≡ true)
        → same_services held new ≡ true
        → (received ≡ new) ⊎ (same_services received new ≡ true)
    follow (inl e) k = inr (ground arith)
    follow {new} (inr h) k = inr (same_services_trans received held new h k)

-- While every configuration that is sent is received, after any reloads, failing ones included,
-- the receiver has a configuration equal to the one that the provider holds, up to the comparison;
-- at the start it has the one that is held.
pub reloads-IsInStep :
    (rd : Readers) (rs : List Reload) (p : Provider) (received : Config)
    → All (λ (r : Reload). r.delivery ≡ sent) rs
    → IsInStep p received
    → IsInStep (reloads rd rs p received).0 (reloads rd rs p received).1
unfolding reloads
reloads-IsInStep rd [] p received all_sent h = h
reloads-IsInStep rd (r ∷ rs) p received (is_sent, all_sent) h =
    reloads-IsInStep rd rs _ _ all_sent (
      subst
        (λ (s : Delivery).
          IsInStep (immediate_reload rd r.daemon r.done s p).0
            (deref (immediate_reload rd r.daemon r.done s p).1 received))
        (sym is_sent) (immediate_reload-IsInStep rd r.daemon r.done p received h))

-- A configuration that a reload has loaded while nobody was ready to receive it is not sent by the
-- next reload either, if that one loads an equal configuration.
pub immediate_reload-busy :
    (rd : Readers) (d later : Daemon) (delivery : Delivery) (p : Provider) (new again : Config)
    → (load rd d p).1 ≡ ok new
    → (load rd later (immediate_reload rd d false busy p).0).1 ≡ ok again
    → same_services new again ≡ true
    → ((immediate_reload rd d false busy p).1 ≡ none)
      × ((immediate_reload rd later false delivery (immediate_reload rd d false busy p).0).1 ≡ none)
immediate_reload-busy rd d later delivery p new again h k e =
    let dropped = reload_busy rd d p new h in
    let held : (immediate_reload rd d false busy p).0.last_config ≡ some new =
      ap (λ (q : Provider × Option Config). q.0.last_config) dropped
      ∙ ground (arith, load-last_config rd d p) in
    (
      ap (λ (q : Provider × Option Config). q.1) dropped,
      ap (λ (q : Provider × Option Config). q.1)
          (reload_same rd later delivery (immediate_reload rd d false busy p).0 new again held k e),
    )

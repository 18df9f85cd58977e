-- ===== src/App/Once.antt =====
-- About Shutdown.
use tsbridge.Prelude.{
  Option, none, some, true, false, if◌then◌else◌, ◌≡◌, ◌⊎◌, ◌↔◌, refl, arith, Bool-cases, inl, inr,
}
use tsbridge.Errors.{Err, is_timeout}
use tsbridge.App.Lifecycle.{
  Parts, Lifecycle, perform_shutdown, shutdown, close_error, shutdown_error,
}

errors_iff :
    (s m c : Option Err)
    → (shutdown_error s m c ≡ none)
      ↔ ((s ≡ none) × (m ≡ none) × ((c ≡ none) ⊎ (is_timeout c ≡ true)))
unfolding shutdown_error close_error
errors_iff (some e) m c = (λ h. cc, λ (h, _, _). cc)
errors_iff none (some e) c = (λ h. cc, λ (_, h, _). cc)
errors_iff none none none = (λ h. (refl, refl, inl refl), λ h. refl)
errors_iff none none (some e) = elim (Bool-cases (is_timeout (some e))) [
  | inl late ↦ (λ h. (refl, refl, inr late), λ h. ground arith)
  | inr other ↦ (λ h. ground arith, λ h. ground arith)
]

module _ {W : Type 0} (parts : Parts W) (a : Lifecycle W) where
  -- The shutdowns in their order, each in the state that the one before has left.
  abbrev pub services_down : W × Option Err
  services_down =
      parts.shutdown_services (if a.watching then parts.cancel_watch a.world else a.world)

  abbrev pub metrics_down : W × Option Err
  metrics_down =
      if a.has_metrics then parts.shutdown_metrics services_down.0 else (services_down.0, none)

  abbrev pub server_down : W × Option Err
  server_down = parts.close_server metrics_down.0

  -- The first shutdown of an application stops the services, the metrics server and the Tailscale
  -- server in this order, whatever fails on the way; it returns no error exactly if the first two
  -- return none and the error of the third, if there is one, has a timeout anywhere in it. A second
  -- shutdown does nothing and returns no error.
  pub shutdown_iff :
      a.stopped ≡ false
      → ((shutdown parts a).0.world ≡ server_down.0)
        × (((shutdown parts a).1 ≡ none) ↔ (
            (services_down.1 ≡ none)
            × (metrics_down.1 ≡ none)
            × ((server_down.1 ≡ none) ⊎ (is_timeout server_down.1 ≡ true))))
        × (shutdown parts (shutdown parts a).0 ≡ ((shutdown parts a).0, none))
  unfolding shutdown perform_shutdown close_error
  shutdown_iff first = (
    ground arith,
    (
      λ h. (errors_iff services_down.1 metrics_down.1 server_down.1).0 (ground arith),
      λ h. ground (arith, (errors_iff services_down.1 metrics_down.1 server_down.1).1 h),
    ),
    ground arith,
  )

-- ===== src/App/Outcome.antt =====
-- What the three loops of a reload leave under one name.
use tsbridge.Prelude.{
  String, List, [], ◌∷◌, Option, none, some, true, ◌&&◌, is_empty, ◌<◌, if◌then◌else◌, ◌≡◌, ◌≢◌,
  refl, arith, ◌↔◌, ◌⊎◌, inl, inr, ◌∙◌,
}
use tsbridge.Errors.{Err}
use tsbridge.Errors.Reload.{ReloadError, new_reload_error, to_error}
use tsbridge.Config.{Service}
use tsbridge.App.{RegistryOps, process, apply_changes}
use tsbridge.App.Steps.{remove_law, add_law, update_law}
use tsbridge.App.Contract.{RegistryContract}
use tsbridge.App.Loop.{is_recorded, process_frame, process_keeps, process_done}
use tsbridge.App.Keys.{find_by, UniqueKeys}
use tsbridge.App.Lists.{find_service, UniqueNames}

pub to_error_iff : (e : ReloadError) → (to_error e ≢ none) ↔ (0 < e.failed)
unfolding to_error
to_error_iff e = ground arith

module _ {R : Type 0} (ops : RegistryOps R) {view : R → String → Option Service}
    (c : RegistryContract ops view) where
  -- The outcome at one name: an error is recorded under it, or the registry shows what is wanted.
  abbrev pub Outcome : String → R × ReloadError → Option Service → Type 0
  Outcome n out wanted = (is_recorded n out.1 ≡ true) ⊎ (view out.0 n ≡ wanted)

  module _ (rs : List String) (adds ups : List Service) (r : R) (n : String) where
    pub apply_changes_frame :
        find_by (λ (m : String). m) n rs ≡ none
        → find_service n adds ≡ none
        → find_service n ups ≡ none
        → view (apply_changes ops rs adds ups r).0 n ≡ view r n
    unfolding apply_changes
    apply_changes_frame a b d =
        process_frame _ _ _ _ (update_law ops c) ups _ _ n d
        ∙ process_frame _ _ _ _ (add_law ops c) adds _ _ n b
        ∙ process_frame _ _ _ _ (remove_law ops c) rs r new_reload_error n a

    pub apply_changes_updated :
        (s : Service)
        → UniqueNames ups
        → find_service n ups ≡ some s
        → Outcome n (apply_changes ops rs adds ups r) (some s)
    unfolding apply_changes
    apply_changes_updated s u d = process_done _ _ _ _ (update_law ops c) ups _ _ n s u d

    pub apply_changes_added :
        (s : Service)
        → UniqueNames adds
        → find_service n adds ≡ some s
        → find_service n ups ≡ none
        → Outcome n (apply_changes ops rs adds ups r) (some s)
    unfolding apply_changes
    apply_changes_added s u b d = elim (process_done _ _ _ _ (add_law ops c) adds _ _ n s u b) [
      | inl failed ↦ inl (process_keeps _ _ _ _ (update_law ops c) ups _ _ n failed)
      | inr there ↦ inr (process_frame _ _ _ _ (update_law ops c) ups _ _ n d ∙ there)
    ]

    pub apply_changes_removed :
        (m : String)
        → UniqueKeys (λ (k : String). k) rs
        → find_by (λ (k : String). k) n rs ≡ some m
        → find_service n adds ≡ none
        → find_service n ups ≡ none
        → Outcome n (apply_changes ops rs adds ups r) none
    unfolding apply_changes
    apply_changes_removed m u a b d =
        elim (process_done _ _ _ _ (remove_law ops c) rs r new_reload_error n m u a) [
          | inl failed ↦ inl (
              process_keeps _ _ _ _ (update_law ops c) ups _ _ n
                (process_keeps _ _ _ _ (add_law ops c) adds _ _ n failed))
          | inr gone ↦ inr (
              process_frame _ _ _ _ (update_law ops c) ups _ _ n d
              ∙ process_frame _ _ _ _ (add_law ops c) adds _ _ n b
              ∙ gone)
        ]

  pub early_return :
      (rs : List String) (adds ups : List Service) (r : R)
      → ◌≡◌ {A = R × Option Err}
          (if is_empty rs && (is_empty adds && is_empty ups) then (r, none) else (
            (apply_changes ops rs adds ups r).0,
            to_error (apply_changes ops rs adds ups r).1,
          ))
          ((apply_changes ops rs adds ups r).0, to_error (apply_changes ops rs adds ups r).1)
  unfolding apply_changes process to_error new_reload_error
  early_return [] [] [] r = refl
  early_return [] [] (x ∷ ups) r = refl
  early_return [] (x ∷ adds) ups r = refl
  early_return (x ∷ rs) adds ups r = refl

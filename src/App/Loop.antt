-- ===== src/App/Loop.antt =====
-- One loop of a reload, over any kind of item.
use tsbridge.Prelude.Assoc.{has_key}
use tsbridge.Prelude.{
  ◌<◌, String, List, [], ◌∷◌, Option, none, some, Bool, true, false, ◌||◌, ◌≡◌, refl, arith, str_eq,
  str_eq_iff, Bool-cases, ◌⊎◌, inl, inr, ◌∙◌,
}
use tsbridge.Errors.Reload.{ReloadError}
use tsbridge.Config.{Service}
use tsbridge.App.{process}
use tsbridge.App.Keys.{find_by, UniqueKeys}

-- An error is recorded under the name.
abbrev pub is_recorded : String → ReloadError → Bool
is_recorded n e = has_key n e.add_errors || (has_key n e.remove_errors || has_key n e.update_errors)

module _ {R X : Type 0} (view : R → String → Option Service) (key : X → String)
    (target : X → Option Service) (step : X → R → ReloadError → R × ReloadError) where
  pub record StepLaw : Type 0 where
    pub frame :
        (x : X) (r : R) (e : ReloadError) (n : String)
        → str_eq (key x) n ≡ false
        → view (step x r e).0 n ≡ view r n
    pub keeps :
        (x : X) (r : R) (e : ReloadError) (n : String)
        → is_recorded n e ≡ true
        → is_recorded n (step x r e).1 ≡ true
    pub done :
        (x : X) (r : R) (e : ReloadError)
        → (is_recorded (key x) (step x r e).1 ≡ true) ⊎ (view (step x r e).0 (key x) ≡ target x)
    pub counted :
        (x : X) (r : R) (e : ReloadError) (n : String)
        → (is_recorded n e ≡ true → 0 < e.failed)
        → is_recorded n (step x r e).1 ≡ true
        → 0 < (step x r e).1.failed

  module _ (law : StepLaw) where
    pub process_frame :
        (xs : List X) (r : R) (e : ReloadError) (n : String)
        → find_by key n xs ≡ none
        → view (process step xs r e).0 n ≡ view r n
    unfolding process find_by
    process_frame [] r e n h = refl
    process_frame (x ∷ xs) r e n h = elim (Bool-cases (str_eq (key x) n)) [
      | inl here ↦ ground arith
      | inr there ↦
          process_frame xs (step x r e).0 (step x r e).1 n (ground arith) ∙ law.frame x r e n there
    ]

    pub process_keeps :
        (xs : List X) (r : R) (e : ReloadError) (n : String)
        → is_recorded n e ≡ true
        → is_recorded n (process step xs r e).1 ≡ true
    unfolding process
    process_keeps [] r e n h = h
    process_keeps (x ∷ xs) r e n h =
        process_keeps xs (step x r e).0 (step x r e).1 n (law.keeps x r e n h)

    pub process_counted :
        (xs : List X) (r : R) (e : ReloadError) (n : String)
        → (is_recorded n e ≡ true → 0 < e.failed)
        → is_recorded n (process step xs r e).1 ≡ true
        → 0 < (process step xs r e).1.failed
    unfolding process
    process_counted [] r e n h k = h k
    process_counted (x ∷ xs) r e n h k =
        process_counted xs (step x r e).0 (step x r e).1 n (law.counted x r e n h) k

    -- The item with the name has its error recorded, or the registry shows its target.
    pub process_done :
        (xs : List X) (r : R) (e : ReloadError) (n : String) (x : X)
        → UniqueKeys key xs
        → find_by key n xs ≡ some x
        → (is_recorded n (process step xs r e).1 ≡ true)
          ⊎ (view (process step xs r e).0 n ≡ target x)
    unfolding process find_by
    process_done [] r e n x u h = cc
    process_done (y ∷ ys) r e n x u h = elim (Bool-cases (str_eq (key y) n)) [
      | inl here ↦
          finish (law.done y r e) ((str_eq_iff (key y) n).0 here)
            (let met : some y ≡ some x = rw (here, find_by) at h in cc)
      | inr there ↦ process_done ys (step y r e).0 (step y r e).1 n x u.1 (rw (there, find_by) at h)
    ]
      where
        finish :
            (is_recorded (key y) (step y r e).1 ≡ true) ⊎ (view (step y r e).0 (key y) ≡ target y)
            → key y ≡ n
            → target y ≡ target x
            → (is_recorded n (process step ys (step y r e).0 (step y r e).1).1 ≡ true)
              ⊎ (view (process step ys (step y r e).0 (step y r e).1).0 n ≡ target x)
        finish (inl failed) same _ =
            inl (process_keeps ys (step y r e).0 (step y r e).1 n (rw same at failed))
        finish (inr there) same is = inr (
            process_frame ys (step y r e).0 (step y r e).1 n (rw same at u.0)
            ∙ (rw same at there)
            ∙ is)

-- What holds of the registry and is kept by each step is kept by the loop.
pub process_invariant :
    {R X : Type 0} (P : R → Type 0) (step : X → R → ReloadError → R × ReloadError)
    → ((x : X) (r : R) (e : ReloadError) → P r → P (step x r e).0)
    → (xs : List X) (r : R) (e : ReloadError) → P r
    → P (process step xs r e).0
unfolding process
process_invariant P step keep [] r e h = h
process_invariant P step keep (x ∷ xs) r e h =
    process_invariant P step keep xs (step x r e).0 (step x r e).1 (keep x r e h)

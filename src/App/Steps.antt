-- ===== src/App/Steps.antt =====
-- The bodies of the three loops of a reload as steps of a loop.
use tsbridge.Prelude.Assoc.{lookup-insert}
use tsbridge.Prelude.{
  String, Option, none, some, false, ◌≡◌, ◌≢◌, arith, str_eq, str_eq_iff, str_eq_refl, Option-cases,
  inl, inr,
}
use tsbridge.Errors.Reload.{
  record_add_error, record_remove_error, record_update_error, record_success,
}
use tsbridge.Config.{Service}
use tsbridge.App.{RegistryOps, remove_step, add_step, update_step}
use tsbridge.App.Contract.{RegistryContract}
use tsbridge.App.Loop.{StepLaw}

pub ne_of_false : (m n : String) → str_eq m n ≡ false → m ≢ n
ne_of_false m n h e = ground (arith, str_eq_iff m n)

module _ {R : Type 0} (ops : RegistryOps R) {view : R → String → Option Service}
    (c : RegistryContract ops view) where
  pub remove_law : StepLaw view (λ (m : String). m) (λ (m : String). none) (remove_step ops)
  unfolding remove_step record_remove_error record_success
  remove_law = record {
    frame = λ m r e n h. c.remove_frame m r n (ne_of_false m n h);
    keeps = λ m r e n h. elim (Option-cases (ops.remove_service m r).1) [
      | inl fine ↦ rw fine h
      | inr (x, failed) ↦ rw failed (ground (arith, lookup-insert m n x e.remove_errors))
    ];
    done = λ m r e. elim (Option-cases (ops.remove_service m r).1) [
      | inl fine ↦ inr (c.remove_ok m r fine)
      | inr (x, failed) ↦
          inl (rw failed (ground (arith, lookup-insert m m x e.remove_errors, str_eq_refl m)))
    ];
    counted = λ m r e n h k. elim (Option-cases (ops.remove_service m r).1) [
      | inl fine ↦ ground arith
      | inr (x, failed) ↦ rw failed (omega arith)
    ];
  }

  pub add_law : StepLaw view (λ (s : Service). s.name) (λ (s : Service). some s) (add_step ops)
  unfolding add_step record_add_error record_success
  add_law = record {
    frame = λ s r e n h. c.add_frame s r n (ne_of_false s.name n h);
    keeps = λ s r e n h. elim (Option-cases (ops.add_service s r).1) [
      | inl fine ↦ rw fine h
      | inr (x, failed) ↦ rw failed (ground (arith, lookup-insert s.name n x e.add_errors))
    ];
    done = λ s r e. elim (Option-cases (ops.add_service s r).1) [
      | inl fine ↦ inr (c.add_ok s r fine)
      | inr (x, failed) ↦ inl (
          rw failed
            (ground (arith, lookup-insert s.name s.name x e.add_errors, str_eq_refl s.name)))
    ];
    counted = λ s r e n h k. elim (Option-cases (ops.add_service s r).1) [
      | inl fine ↦ ground arith
      | inr (x, failed) ↦ rw failed (omega arith)
    ];
  }

  pub update_law :
      StepLaw view (λ (s : Service). s.name) (λ (s : Service). some s) (update_step ops)
  unfolding update_step record_update_error record_success
  update_law = record {
    frame = λ s r e n h. c.update_frame s.name s r n (ne_of_false s.name n h);
    keeps = λ s r e n h. elim (Option-cases (ops.update_service s.name s r).1) [
      | inl fine ↦ rw fine h
      | inr (x, failed) ↦ rw failed (ground (arith, lookup-insert s.name n x e.update_errors))
    ];
    done = λ s r e. elim (Option-cases (ops.update_service s.name s r).1) [
      | inl fine ↦ inr (c.update_ok s.name s r fine)
      | inr (x, failed) ↦ inl (
          rw failed
            (ground (arith, lookup-insert s.name s.name x e.update_errors, str_eq_refl s.name)))
    ];
    counted = λ s r e n h k. elim (Option-cases (ops.update_service s.name s r).1) [
      | inl fine ↦ ground arith
      | inr (x, failed) ↦ rw failed (omega arith)
    ];
  }

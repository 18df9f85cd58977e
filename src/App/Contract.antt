-- ===== src/App/Contract.antt =====
-- What a reload relies on from the registry: the contract of the three operations, in terms of
-- `view`, the configuration that runs under each name.
use tsbridge.Prelude.{String, Option, none, some, ◌≡◌, ◌≢◌, ◌⊎◌}
use tsbridge.Errors.{Err}
use tsbridge.Config.{Service}
use tsbridge.App.{RegistryOps}

pub record RegistryContract {R : Type 0} (ops : RegistryOps R) (view : R → String → Option Service)
    : Type 0 where
  -- An operation on one name leaves the others alone.
  pub add_frame :
      (s : Service) (r : R) (n : String) → s.name ≢ n → view (ops.add_service s r).0 n ≡ view r n
  pub remove_frame :
      (m : String) (r : R) (n : String) → m ≢ n → view (ops.remove_service m r).0 n ≡ view r n
  pub update_frame :
      (m : String) (s : Service) (r : R) (n : String)
      → m ≢ n
      → view (ops.update_service m s r).0 n ≡ view r n
  -- One that reports no error has done what it says.
  pub add_ok :
      (s : Service) (r : R)
      → (ops.add_service s r).1 ≡ none
      → view (ops.add_service s r).0 s.name ≡ some s
  pub remove_ok :
      (m : String) (r : R)
      → (ops.remove_service m r).1 ≡ none
      → view (ops.remove_service m r).0 m ≡ none
  pub update_ok :
      (m : String) (s : Service) (r : R)
      → (ops.update_service m s r).1 ≡ none
      → view (ops.update_service m s r).0 m ≡ some s
  -- A failed addition or removal changes nothing; a failed update may lose the service.
  pub add_err :
      (s : Service) (r : R) (e : Err)
      → (ops.add_service s r).1 ≡ some e
      → view (ops.add_service s r).0 s.name ≡ view r s.name
  pub remove_err :
      (m : String) (r : R) (e : Err)
      → (ops.remove_service m r).1 ≡ some e
      → view (ops.remove_service m r).0 m ≡ view r m
  pub update_err :
      (m : String) (s : Service) (r : R) (e : Err)
      → (ops.update_service m s r).1 ≡ some e
      → (view (ops.update_service m s r).0 m ≡ view r m)
        ⊎ (view (ops.update_service m s r).0 m ≡ none)
  -- A service that is not there is not updated.
  pub update_missing :
      (m : String) (s : Service) (r : R)
      → view r m ≡ none
      → ((ops.update_service m s r).1 ≢ none) × (view (ops.update_service m s r).0 m ≡ none)

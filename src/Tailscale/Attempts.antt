-- ===== src/Tailscale/Attempts.antt =====
-- About generateAuthKeyWithOAuth: how often it asks for a key, and when it asks again.
-- `RetryLaw` is what the code relies on of the library of retries.
use tsbridge.Prelude.{
  ℕ, ◌+◌, ◌≤◌, ◌<◌, String, some, Bool, true, false, ◌≡◌, ◌≢◌, arith, Bool-cases, inl, inr, ◌⊎◌,
  ◌∙◌, sym, ◌||◌, [], ◌∷◌,
}
use tsbridge.Constants.{retry_max_attempts}
use tsbridge.Errors.{
  Err, Result, err, Result-cases, network, is_type, as_target, new_network_error_with_status, num,
}
use tsbridge.Tailscale.Secrets.{
  Api, AuthKeyRequest, answered, generate_auth_key_direct, operation, Outcome, again, outcome,
  generate_auth_key_with_oauth, is_retryable_error,
}

-- The documented behaviour of `backoff.Retry` with `WithMaxRetries`, for one limit: there is an
-- attempt, and one more at most for each retry; after an attempt there is another exactly if its
-- error is not permanent, retries are left and the time for retries is not used up.
pub record RetryLaw (gives_up : ℕ → Bool) (max_retries : ℕ) (retry : ℕ → (ℕ → Outcome) → ℕ)
    : Type 0 where
  pub at_least_one : (op : ℕ → Outcome) → 1 ≤ retry max_retries op
  pub limited : (op : ℕ → Outcome) → retry max_retries op ≤ max_retries + 1
  pub goes_on :
      (op : ℕ → Outcome) (n : ℕ)
      → 1 ≤ n
      → n < retry max_retries op
      → ((e : Err) × (op n ≡ again e)) × (gives_up n ≡ false)
  pub ends :
      (op : ℕ → Outcome) (e : Err)
      → op (retry max_retries op) ≡ again e
      → (retry max_retries op ≡ max_retries + 1) ⊎ (gives_up (retry max_retries op) ≡ true)

-- The errors after which the code asks again.
abbrev pub IsTransient : Api → Err → Type 0
IsTransient api e = (is_type (some e) network || is_retryable_error api e) ≡ true

module _ (api : Api) (token_url api_base : String) (request : AuthKeyRequest) where
  outcome-operation :
      (n : ℕ)
      → outcome (operation api n token_url api_base request)
        ≡ generate_auth_key_direct api n token_url api_base request
  unfolding operation outcome
  outcome-operation n =
      elim (Result-cases (generate_auth_key_direct api n token_url api_base request)) [
        | inr (k, found) ↦ ground arith
        | inl (e, failed) ↦
            elim (Bool-cases (is_type (some e) network || is_retryable_error api e)) [
              | inl transient ↦ ground arith
              | inr final ↦ ground arith
            ]
      ]

  operation-again :
      (n : ℕ) (e : Err)
      → operation api n token_url api_base request ≡ again e
      → (generate_auth_key_direct api n token_url api_base request ≡ err e) × IsTransient api e
  unfolding operation
  operation-again n e h =
      elim (Result-cases (generate_auth_key_direct api n token_url api_base request)) [
        | inr (k, found) ↦ ground arith
        | inl (x, failed) ↦
            elim (Bool-cases (is_type (some x) network || is_retryable_error api x)) [
              | inl transient ↦ ground arith
              | inr final ↦ ground arith
            ]
      ]

  operation-transient :
      (n : ℕ) (e : Err)
      → generate_auth_key_direct api n token_url api_base request ≡ err e
      → IsTransient api e
      → operation api n token_url api_base request ≡ again e
  unfolding operation
  operation-transient n e failed transient = ground arith

-- Where the library of retries keeps its law: a key is asked for at least once and at most three
-- times, and the result is that of the last attempt; every attempt before the last has failed with
-- an error of type network or another error to retry; and where the last attempt failed with
-- such an error, it was the third or the time for retries was used up.
pub generate_auth_key_with_oauth-attempts :
    (api : Api) (gives_up : ℕ → Bool)
    → RetryLaw gives_up retry_max_attempts api.retry
    → (token_url api_base : String) (request : AuthKeyRequest)
    → let (attempts, answer) = generate_auth_key_with_oauth api token_url api_base request in
      (1 ≤ attempts)
      × (attempts ≤ 3)
      × (answer ≡ generate_auth_key_direct api attempts token_url api_base request)
      × ((n : ℕ)
          → 1 ≤ n
          → n < attempts
          → (e : Err) × (generate_auth_key_direct api n token_url api_base request ≡ err e)
            × IsTransient api e)
      × ((e : Err)
          → answer ≡ err e
          → IsTransient api e
          → (attempts ≡ 3) ⊎ (gives_up attempts ≡ true))
unfolding generate_auth_key_with_oauth
generate_auth_key_with_oauth-attempts api gives_up law token_url api_base request = (
  law.at_least_one op,
  law.limited op,
  direct,
  (λ n low high.
      let ((e, once_more), _) = law.goes_on op n low high in
      let (failed, transient) = operation-again api token_url api_base request n e once_more in
      (e, failed, transient)),
  (λ e failed transient.
      law.ends op e
        (operation-transient api token_url api_base request _ e (sym direct ∙ failed) transient)),
)
  where
    op : ℕ → Outcome
    op n = operation api n token_url api_base request

    last : ℕ
    last = api.retry retry_max_attempts op

    direct : outcome (op last) ≡ generate_auth_key_direct api last token_url api_base request
    direct = outcome-operation api token_url api_base request last

operation-refused :
    (api : Api) (n : ℕ) (token_url api_base : String) (request : AuthKeyRequest) (status : ℕ)
    (body : Result String)
    → status ≢ 200
    → api.respond n token_url api_base request ≡ answered status body
    → (e : Err) × (operation api n token_url api_base request ≡ again e)
unfolding operation generate_auth_key_direct is_type as_target new_network_error_with_status
operation-refused api n token_url api_base request status body h k = (
  new_network_error_with_status
      (record { format = "API returned status %d: %v"; args = num status ∷ [] }) status,
  ground (arith, k),
)

-- Where the library of retries keeps its law and the time for retries lasts, an API that refuses
-- every attempt with a status other than 200, 401 and 403 included, is asked three times.
pub generate_auth_key_with_oauth-refused :
    (api : Api)
    → RetryLaw (λ attempt. false) retry_max_attempts api.retry
    → (token_url api_base : String) (request : AuthKeyRequest) (status : ℕ) (body : Result String)
    → status ≢ 200
    → ((n : ℕ) → api.respond n token_url api_base request ≡ answered status body)
    → (generate_auth_key_with_oauth api token_url api_base request).0 ≡ 3
unfolding generate_auth_key_with_oauth
generate_auth_key_with_oauth-refused api law token_url api_base request status body h k =
    let (e, refused) =
      operation-refused api last token_url api_base request status body h (k last) in
    elim (law.ends op e refused) [ inl third ↦ third | inr late ↦ cc ]
  where
    op : ℕ → Outcome
    op n = operation api n token_url api_base request

    last : ℕ
    last = api.retry retry_max_attempts op

-- ===== src/Tests/Servers.antt =====
-- The tsnet servers of two services, one of which cannot listen.
use tsbridge.Prelude.Assoc.{lookup, insert}
use tsbridge.Prelude.{
  ℕ, zero, suc, ◌+◌, ◌≤◌, ◌<◌, String, ◌⊎◌, inl, inr, subst, Bool-cases, List, [], ◌∷◌, none, true,
  false, ◌≡◌, refl, arith, ◌==◌, if◌then◌else◌,
}
use tsbridge.Errors.{Err, Result, ok, err, foreign}
use tsbridge.Tailscale.{Call, listen_tls, Tsnet, closed, Server}
use tsbridge.Tailscale.Directory.{Files, has_existing_state}
use tsbridge.Tailscale.Secrets.{
  Api, AuthKeyRequest, answered, generate_auth_key_direct, generate_auth_key_with_oauth, Outcome,
  key, again, permanent,
}
use tsbridge.Tailscale.Listening.{new_server_with_factory, fresh_server}
use tsbridge.Tailscale.Leaks.{
  Operation, listening, closing_service, closing, operate, operate_all, AreFresh,
  operate_all-IsTracked,
}
use tsbridge.Tailscale.Tracked.{IsTracked}
use tsbridge.Tailscale.Attempts.{
  RetryLaw, IsTransient, generate_auth_key_with_oauth-attempts,
  generate_auth_key_with_oauth-refused,
}
use tsbridge.Service.{Host}
use tsbridge.Service.Operations.{new_registry}
use tsbridge.Service.Gauge
use tsbridge.Service.Gauge.{add, remove, update, run_calls}
use tsbridge.Network.{Outer, network_host}
use tsbridge.Network.Linked.{IsLinked, run_calls-IsLinked}
use tsbridge.Samples.{sample_config, sample_parse, sample_service, sample_tailscale, sample_os}

-- The second server cannot listen.
abbrev answer : List Call → Result ℕ
answer (listen_tls server addr ∷ calls) = if server == 0 then ok 7 else err (foreign "listen")
answer calls = err (foreign "listen")

abbrev sample_tsnet : Tsnet
sample_tsnet = record {
  up_error = λ calls. none;
  is_deadline = λ e. false;
  listener = answer;
  closing = λ calls. closed;
}

Outcome-cases :
    (o : Outcome)
    → ((e : Err) × (o ≡ again e)) ⊎ ((k : String) × (o ≡ key k)) ⊎ ((e : Err) × (o ≡ permanent e))
Outcome-cases (key k) = inr (inl (k, refl))
Outcome-cases (again e) = inl (e, refl)
Outcome-cases (permanent e) = inr (inr (e, refl))

-- A library of retries that never gives up early.
loop : ℕ → ℕ → (ℕ → Outcome) → ℕ
loop zero n op = n
loop (suc retries) n op =
    let rest = loop retries (suc n) op in elim (op n) [ again e ↦ rest | _ ↦ n ]

loop_counts :
    (retries n : ℕ) (op : ℕ → Outcome) → (n ≤ loop retries n op) × (loop retries n op ≤ n + retries)
unfolding loop
loop_counts zero n op = omega arith
loop_counts (suc retries) n op = ground (arith, loop_counts retries (suc n) op)

loop_goes_on :
    (retries n : ℕ) (op : ℕ → Outcome) (m : ℕ)
    → n ≤ m
    → m < loop retries n op
    → (e : Err) × (op m ≡ again e)
unfolding loop
loop_goes_on zero n op m h k = absurd (omega arith)
loop_goes_on (suc retries) n op m h k = elim (Outcome-cases (op n)) [
  | inl (e, more) ↦ elim (Bool-cases (n == m)) [
    | inl same ↦ let here : n ≡ m = ground arith in (e, subst (λ (i : ℕ). op i ≡ again e) here more)
    | inr other ↦
        let later : suc n ≤ m = ground arith in
        loop_goes_on retries (suc n) op m later (rw (more, loop) at k)
  ]
  | inr (inl (x, done)) ↦ absurd (ground arith)
  | inr (inr (x, done)) ↦ absurd (ground arith)
]

loop_ends :
    (retries n : ℕ) (op : ℕ → Outcome) (e : Err)
    → op (loop retries n op) ≡ again e
    → loop retries n op ≡ n + retries
unfolding loop
loop_ends zero n op e h = omega arith
loop_ends (suc retries) n op e h = elim (Outcome-cases (op n)) [
  | inl (x, more) ↦ ground (arith, loop_ends retries (suc n) op e (rw (more, loop) at h))
  | inr (inl (x, done)) ↦ absurd (ground arith)
  | inr (inr (x, done)) ↦ absurd (ground arith)
]

loop_law : RetryLaw (λ attempt. false) 2 (λ retries op. loop retries 1 op)
loop_law = record {
  at_least_one = λ op. (loop_counts 2 1 op).0;
  limited = λ op. (loop_counts 2 1 op).1;
  goes_on = λ op n low high. (loop_goes_on 2 1 op n low high, refl);
  ends = λ op e h. inl (loop_ends 2 1 op e h);
}

abbrev sample_api : Api
sample_api = record {
  respond = λ n token_url api_base request. answered 403 (ok "");
  retry = λ retries op. loop retries 1 op;
  is_transient_text = λ e. false;
}

abbrev sample_files : Files
sample_files = record { join = λ dir name. name; data_home = "/data"; is_dir = λ path. ok true }

abbrev some_operations : List Operation
some_operations =
    listening sample_api sample_files sample_os (sample_service "web" "localhost:80") "auto" false
    ∷ listening sample_api sample_files sample_os (sample_service "api" "localhost:81") "auto" false
    ∷ closing_service "web"
    ∷ closing
    ∷ []

abbrev ready : Server
ready = fresh_server sample_tailscale

made : new_server_with_factory sample_tailscale ≡ ok ready
unfolding new_server_with_factory
made = refl

all_fresh : AreFresh sample_tsnet some_operations ready
unfolding lookup operate has_existing_state insert
all_fresh = (refl, (refl, (tt, (tt, tt))))

operate_all-IsTracked_example : IsTracked (operate_all sample_tsnet some_operations ready)
operate_all-IsTracked_example =
    operate_all-IsTracked sample_tsnet some_operations sample_tailscale ready made all_fresh

abbrev sample_request : AuthKeyRequest
sample_request = record {
  expiry_seconds = 300;
  tags = none;
  reusable = false;
  ephemeral = true;
  preauthorized = true;
}

abbrev asked : ℕ × Result String
asked = generate_auth_key_with_oauth sample_api "token" "api" sample_request

generate_auth_key_with_oauth-attempts_example :
    (1 ≤ asked.0)
    × (asked.0 ≤ 3)
    × (asked.1 ≡ generate_auth_key_direct sample_api asked.0 "token" "api" sample_request)
    × ((n : ℕ)
        → 1 ≤ n
        → n < asked.0
        → (e : Err) × (generate_auth_key_direct sample_api n "token" "api" sample_request ≡ err e)
          × IsTransient sample_api e)
    × ((e : Err) → asked.1 ≡ err e → IsTransient sample_api e → (asked.0 ≡ 3) ⊎ (false ≡ true))
generate_auth_key_with_oauth-attempts_example =
    generate_auth_key_with_oauth-attempts sample_api (λ attempt. false) loop_law "token" "api"
      sample_request

generate_auth_key_with_oauth-refused_example :
    (generate_auth_key_with_oauth sample_api "token" "api" sample_request).0 ≡ 3
generate_auth_key_with_oauth-refused_example =
    generate_auth_key_with_oauth-refused sample_api loop_law "token" "api" sample_request 403
      (ok "") (λ e. ground arith) (λ n. refl)

-- The proxy accepts every service; nothing fails to close.
abbrev sample_outer : Outer ℕ ℕ
sample_outer = record {
  new_handler = λ cfg u. (suc u, ok u);
  serve = λ server listener handler u. suc u;
  shutdown_server = λ server listener u. (suc u, none);
  close_listener = λ listener u. (suc u, none);
  close_handler = λ handler u. (suc u, none);
}

abbrev sample_network : Host (Server × ℕ) ℕ ℕ
sample_network = network_host sample_tsnet sample_api sample_files sample_os sample_outer

abbrev some_calls : List (Gauge.Call sample_network sample_parse)
some_calls =
    add (sample_service "web" "localhost:80")
    ∷ add (sample_service "api" "localhost:81")
    ∷ update (sample_service "web" "localhost:82")
    ∷ remove "web"
    ∷ []

run_calls-IsLinked_example : IsLinked (
    run_calls sample_network sample_parse some_calls
      (new_registry sample_network (sample_config []) none (ready, 0)))
run_calls-IsLinked_example =
    run_calls-IsLinked sample_tsnet sample_api sample_files sample_os sample_outer sample_parse
      (sample_config []) none ready 0 some_calls made

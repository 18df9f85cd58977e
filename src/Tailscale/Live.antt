-- ===== src/Tailscale/Live.antt =====
-- About the tsnet servers that have been started: each is closed again or known to the map.
use tsbridge.Prelude.Assoc.{insert, delete}
use tsbridge.Prelude.{
  ℕ, String, List, [], ◌∷◌, Option, Bool, true, false, ◌||◌, deref, ◌≡◌, refl, arith, str_eq, ◌==◌,
  if◌then◌else◌, Bool-cases, Option-cases, inl, inr,
}
use tsbridge.Constants.{default_startup_timeout, tls_mode_auto, tls_mode_off}
use tsbridge.Errors.{Err, Result, ok, err, Result-cases}
use tsbridge.Config.{Service}
use tsbridge.Config.Credentials.{Os}
use tsbridge.Config.Validate.{is_set}
use tsbridge.Tailscale.{Call, up, Tsnet, Server, call}
use tsbridge.Tailscale.Secrets.{Api}
use tsbridge.Tailscale.Directory.{Files}
use tsbridge.Tailscale.Listening.{
  configure, start_server_with_timeout, create_service_listener, discard, open_server,
}

abbrev is_up : ℕ → Call → Bool
is_up id (up server timeout) = server == id
is_up id _ = false

abbrev is_close : ℕ → Call → Bool
is_close id (Call.close server) = server == id
is_close id _ = false

-- Whether one of the calls has started, or closed, the server.
abbrev pub is_started : ℕ → List Call → Bool
is_started id [] = false
is_started id (c ∷ cs) = is_up id c || is_started id cs

abbrev pub is_closed : ℕ → List Call → Bool
is_closed id [] = false
is_closed id (c ∷ cs) = is_close id c || is_closed id cs

-- What the calls have done to the servers.
pub record IsTouched (id : ℕ) (before after : List Call) (starts closes : Bool) : Type 0 where
  pub starting : is_started id after ≡ (starts || is_started id before)
  pub closing : is_closed id after ≡ (closes || is_closed id before)

pub configure-untouched :
    (api : Api) (files : Files) (os : Os) (s : Server) (svc : Service) (dir : String) (id : ℕ)
    → IsTouched id s.calls (configure api files os s svc dir).calls false false
unfolding configure call
configure-untouched api files os s svc dir id = elim (Bool-cases (is_set s.config.control_url)) [
  | inl given ↦ record { starting = ground arith; closing = ground arith }
  | inr missing ↦ record { starting = ground arith; closing = ground arith }
]

create-untouched :
    (tsnet : Tsnet) (server : ℕ) (svc : Service) (tls_mode : String) (funnel : Bool) (s : Server)
    (id : ℕ)
    → IsTouched id s.calls
        (create_service_listener tsnet server svc tls_mode funnel s).0.calls
        false
        false
unfolding create_service_listener call
create-untouched tsnet server svc tls_mode true s id = record { starting = refl; closing = refl }
create-untouched tsnet server svc tls_mode false s id =
    elim (Bool-cases (str_eq tls_mode tls_mode_auto)) [
      | inl auto ↦ record { starting = ground arith; closing = ground arith }
      | inr other ↦ elim (Bool-cases (str_eq tls_mode tls_mode_off)) [
        | inl plain ↦ record { starting = ground arith; closing = ground arith }
        | inr unknown ↦ record { starting = ground arith; closing = ground arith }
      ]
    ]

create-servers :
    (tsnet : Tsnet) (server : ℕ) (svc : Service) (tls_mode : String) (funnel : Bool) (s : Server)
    → ((create_service_listener tsnet server svc tls_mode funnel s).0.service_servers
        ≡ s.service_servers)
      × ((create_service_listener tsnet server svc tls_mode funnel s).0.next ≡ s.next)
unfolding create_service_listener call
create-servers tsnet server svc tls_mode funnel s = ground arith

abbrev pub is_err : {A : Type 0} → Result A → Bool
is_err (ok a) = false
is_err (err e) = true

-- What opening does, by its result: it starts the server, and stores it or closes it again.
pub record IsOpening (server : ℕ) (name : String) (s s' : Server) (failed : Bool) : Type 0 where
  pub next_same : s'.next ≡ s.next
  pub starting : (id : ℕ) → is_started id s'.calls ≡ (server == id || is_started id s.calls)
  pub closing :
      (id : ℕ)
      → is_closed id s'.calls
        ≡ (if failed then server == id || is_closed id s.calls else is_closed id s.calls)
  pub servers : s'.service_servers ≡ (
      if failed
      then delete name (insert name server s.service_servers)
      else insert name server s.service_servers)

module _ (tsnet : Tsnet) (server : ℕ) (svc : Service) (tls_mode : String) (funnel : Bool)
    (s : Server) where
  stored : Server
  stored = record s { service_servers = insert svc.name server s.service_servers }

  started : Server × Option Err
  started =
      start_server_with_timeout tsnet server svc.name
        (deref svc.startup_timeout default_startup_timeout) stored

  pub open_server-IsOpening :
      IsOpening server svc.name s
        (open_server tsnet server svc tls_mode funnel s).0
        (is_err (open_server tsnet server svc tls_mode funnel s).1)
  unfolding open_server start_server_with_timeout discard call started stored
  open_server-IsOpening = elim (Option-cases started.1) [
    | inr (e, failed) ↦ record {
      next_same = ground arith;
      starting = λ id. ground arith;
      closing = λ id. ground arith;
      servers = ground arith;
    }
    | inl fine ↦
        elim (Result-cases (create_service_listener tsnet server svc tls_mode funnel started.0).1) [
          | inl (e, refused) ↦ record {
            next_same = ground (arith, create-servers tsnet server svc tls_mode funnel started.0);
            starting = λ id.
                ground (
                  arith,
                  (create-untouched tsnet server svc tls_mode funnel started.0 id).starting,
                );
            closing = λ id.
                ground
                  (arith, (create-untouched tsnet server svc tls_mode funnel started.0 id).closing);
            servers = ground (arith, create-servers tsnet server svc tls_mode funnel started.0);
          }
          | inr (l, listening) ↦ record {
            next_same = ground (arith, create-servers tsnet server svc tls_mode funnel started.0);
            starting = λ id.
                ground (
                  arith,
                  (create-untouched tsnet server svc tls_mode funnel started.0 id).starting,
                );
            closing = λ id.
                ground
                  (arith, (create-untouched tsnet server svc tls_mode funnel started.0 id).closing);
            servers = ground (arith, create-servers tsnet server svc tls_mode funnel started.0);
          }
        ]
  ]

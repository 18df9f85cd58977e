-- ===== src/Tailscale/Leaks.antt =====
-- About the Tailscale server over any sequence of its operations.
use tsbridge.Prelude.Assoc.{lookup}
use tsbridge.Prelude.{
  ℕ, String, List, [], ◌∷◌, none, some, Bool, true, false, ◌≡◌, refl, arith, str_eq, Bool-cases,
  inl, inr, All, ◌<◌, ◌≤◌, subst, sym,
}
use tsbridge.Errors.{ok}
use tsbridge.Config.{Tailscale, Service}
use tsbridge.Config.Credentials.{Os}
use tsbridge.Config.Validate.{is_set}
use tsbridge.Tailscale.{Call, Tsnet, Server, call}
use tsbridge.Tailscale.Secrets.{Api}
use tsbridge.Tailscale.Directory.{Files}
use tsbridge.Tailscale.Listening.{
  listen, close_server_with_timeout, close_service, close_all, close, new_server_with_factory,
  fresh_server,
}
use tsbridge.Tailscale.Live.{is_started, is_closed}
use tsbridge.Tailscale.Tracked.{IsTracked}
use tsbridge.Tailscale.Operations.{listen-IsTracked, close_service-IsTracked}

-- The loop of `Close` closes what it is given, and starts nothing.
module _ (tsnet : Tsnet) where
  close_all-kept :
      (servers : List (String × ℕ)) (s : Server)
      → ((close_all tsnet servers s).0.service_servers ≡ s.service_servers)
        × ((close_all tsnet servers s).0.next ≡ s.next)
  unfolding close_all close_server_with_timeout call
  close_all-kept [] s = (refl, refl)
  close_all-kept ((name, server) ∷ servers) s = close_all-kept servers (call (Call.close server) s)

  close_all-started :
      (servers : List (String × ℕ)) (s : Server) (id : ℕ)
      → is_started id (close_all tsnet servers s).0.calls ≡ is_started id s.calls
  unfolding close_all close_server_with_timeout call
  close_all-started [] s id = refl
  close_all-started ((name, server) ∷ servers) s id =
      close_all-started servers (call (Call.close server) s) id

  close_all-keeps :
      (servers : List (String × ℕ)) (s : Server) (id : ℕ)
      → is_closed id s.calls ≡ true
      → is_closed id (close_all tsnet servers s).0.calls ≡ true
  unfolding close_all close_server_with_timeout call
  close_all-keeps [] s id h = h
  close_all-keeps ((name, server) ∷ servers) s id h =
      close_all-keeps servers (call (Call.close server) s) id (ground arith)

  close_all-closes :
      (servers : List (String × ℕ)) (s : Server) (name : String) (id : ℕ)
      → lookup name servers ≡ some id
      → is_closed id (close_all tsnet servers s).0.calls ≡ true
  unfolding close_all close_server_with_timeout call lookup
  close_all-closes [] s name id h = cc
  close_all-closes ((n, server) ∷ servers) s name id h = elim (Bool-cases (str_eq n name)) [
    | inl here ↦ close_all-keeps servers (call (Call.close server) s) id (ground arith)
    | inr there ↦ close_all-closes servers (call (Call.close server) s) name id (ground arith)
  ]

  close_all-unused :
      (servers : List (String × ℕ)) (s : Server) (next id : ℕ)
      → All (λ (n, i). i < next) servers
      → next ≤ id
      → is_closed id s.calls ≡ false
      → is_closed id (close_all tsnet servers s).0.calls ≡ false
  unfolding close_all close_server_with_timeout call
  close_all-unused [] s next id h k e = e
  close_all-unused ((n, server) ∷ servers) s next id (first, rest) k e =
      close_all-unused servers (call (Call.close server) s) next id rest k (ground arith)

  close-IsTracked : (s : Server) → IsTracked s → IsTracked (close tsnet s).0
  unfolding close lookup
  close-IsTracked s t =
      let emptied = record s { service_servers = [] } in
      let left = (close_all tsnet s.service_servers emptied).0 in
      let (servers, next) = close_all-kept s.service_servers emptied in
      record {
        known = λ id h.
            inl
              (elim (t.known id (ground (arith, close_all-started s.service_servers emptied id))) [
                | inl gone ↦ close_all-keeps s.service_servers emptied id gone
                | inr (n, found) ↦ close_all-closes s.service_servers emptied n id found
              ]);
        alive = λ n id h. absurd (ground (arith, servers));
        one_name = λ a b id h k. absurd (ground (arith, servers));
        unused = λ id h. (
          ground (arith, close_all-started s.service_servers emptied id, t.unused id, next),
          close_all-unused s.service_servers emptied s.next id t.below (ground (arith, next))
              (t.unused id (ground (arith, next))).1,
        );
        below = subst (λ servers. All (λ (n, i). i < left.next) servers) (sym servers) tt;
      }

-- The operations of the server, with what the API, the files and the environment answer.
pub data Operation : Type 0 where
  listening : Api → Files → Os → Service → (tls_mode : String) → (funnel : Bool) → Operation
  closing_service : String → Operation
  closing : Operation

unfoldable pub operate : Tsnet → Operation → Server → Server
unfolding listen close_service close
operate tsnet (listening api files os svc tls_mode funnel) s =
    (listen tsnet api files os svc tls_mode funnel s).0
operate tsnet (closing_service name) s = (close_service tsnet name s).0
operate tsnet closing s = (close tsnet s).0

unfoldable pub operate_all : Tsnet → List Operation → Server → Server
unfolding operate
operate_all tsnet [] s = s
operate_all tsnet (o ∷ os) s = operate_all tsnet os (operate tsnet o s)

-- Whether an operation listens under a name that the map does not have.
abbrev pub IsFresh : Operation → Server → Type 0
IsFresh (listening api files os svc tls_mode funnel) s = lookup svc.name s.service_servers ≡ none
IsFresh (closing_service name) s = Unit
IsFresh closing s = Unit

abbrev pub AreFresh : Tsnet → List Operation → Server → Type 0
AreFresh tsnet [] s = Unit
AreFresh tsnet (o ∷ os) s = IsFresh o s × AreFresh tsnet os (operate tsnet o s)

operate-IsTracked :
    (tsnet : Tsnet) (o : Operation) (s : Server)
    → IsFresh o s
    → IsTracked s
    → IsTracked (operate tsnet o s)
unfolding operate
operate-IsTracked tsnet (listening api files os svc tls_mode funnel) s h t =
    listen-IsTracked tsnet api files os svc tls_mode funnel s t h
operate-IsTracked tsnet (closing_service name) s h t = close_service-IsTracked tsnet name s t
operate-IsTracked tsnet closing s h t = close-IsTracked tsnet s t

operate_all_keeps :
    (tsnet : Tsnet) (os : List Operation) (s : Server)
    → AreFresh tsnet os s
    → IsTracked s
    → IsTracked (operate_all tsnet os s)
unfolding operate_all
operate_all_keeps tsnet [] s h t = t
operate_all_keeps tsnet (o ∷ os) s (first, rest) t =
    operate_all_keeps tsnet os (operate tsnet o s) rest (operate-IsTracked tsnet o s first t)

pub new_server-fresh :
    (cfg : Tailscale) (s : Server) → new_server_with_factory cfg ≡ ok s → fresh_server cfg ≡ s
unfolding new_server_with_factory
new_server-fresh cfg s h = elim (Bool-cases (is_set cfg.oauth_client_id)) [
  | inl here ↦ elim (Bool-cases (is_set cfg.oauth_client_secret)) [
    | inl both ↦ ground arith
    | inr one ↦ absurd (ground arith)
  ]
  | inr missing ↦ elim (Bool-cases (is_set cfg.oauth_client_secret)) [
    | inl one ↦ absurd (ground arith)
    | inr neither ↦ ground arith
  ]
]

pub new_server-IsTracked :
    (cfg : Tailscale) (s : Server) → new_server_with_factory cfg ≡ ok s → IsTracked s
unfolding lookup
new_server-IsTracked cfg s h =
    subst (λ s. IsTracked s) (new_server-fresh cfg s h)
      (record {
        known = λ id h. cc;
        alive = λ n id h. cc;
        one_name = λ a b id h k. cc;
        unused = λ id h. (refl, refl);
        below = tt;
      })

-- After any sequence of listens, closings of services and closings of the whole server, failing
-- ones included, in which a service listens under a name that is not in the map: every tsnet server
-- that has been started has been closed or stands in the map, and every one in the map has been
-- started, is not closed and stands there under one name only.
pub operate_all-IsTracked :
    (tsnet : Tsnet) (os : List Operation) (cfg : Tailscale) (s : Server)
    → new_server_with_factory cfg ≡ ok s
    → AreFresh tsnet os s
    → IsTracked (operate_all tsnet os s)
operate_all-IsTracked tsnet os cfg s h k =
    operate_all_keeps tsnet os s k (new_server-IsTracked cfg s h)

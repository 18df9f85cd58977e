-- ===== src/Tailscale/Listening.antt =====
-- internal/tailscale/tailscale.go: Listen, CloseService and Close.
-- The mutex makes each of them one step. The priming of a certificate runs beside them and only
-- sends a request.
use tsbridge.Prelude.Int.{ℤ}
use tsbridge.Prelude.Assoc.{lookup, insert, delete}
use tsbridge.Prelude.{
  ℕ, suc, String, List, [], ◌∷◌, Option, none, some, Bool, not, ◌&&◌, deref, if◌then◌else◌, str_eq,
}
use tsbridge.Constants.{
  default_startup_timeout, tls_mode_auto, tls_mode_off, tsnet_server_close_timeout,
}
use tsbridge.Errors.{
  Err, Errs, no_errs, more_errs, joined, Result, ok, err, wrap_config, wrap_resource,
  new_timeout_error, new_config_error, new_validation_error, str,
}
use tsbridge.Errors.{text}
use tsbridge.Config.{Tailscale, Service}
use tsbridge.Config.Validate.{is_set}
use tsbridge.Config.Credentials.{Os}
use tsbridge.Tailscale.{
  Call, set_hostname, set_ephemeral, set_control_url, set_dir, set_auth_key, up, listen_funnel,
  listen_tls, closed, timed_out, close_failed, Tsnet, Server, call,
}
use tsbridge.Tailscale.Secrets.{Api, validate_tailscale_secrets, generate_or_resolve_auth_key}
use tsbridge.Tailscale.Directory.{Files, resolve_base_state_dir, has_existing_state}

abbrev pub fresh_server : Tailscale → Server
fresh_server cfg = record { config = cfg; service_servers = []; next = 0; calls = [] }

unfoldable pub new_server_with_factory : Tailscale → Result Server
new_server_with_factory cfg =
    if is_set cfg.oauth_client_id
    then if is_set cfg.oauth_client_secret
      then ok (fresh_server cfg)
      else err (new_config_error (text "OAuth client ID provided without client secret"))
    else if is_set cfg.oauth_client_secret
    then err (new_config_error (text "OAuth client secret provided without client ID"))
    else ok (fresh_server cfg)

unfoldable pub determine_listen_addr : Service → String → String
determine_listen_addr svc tls_mode =
    if is_set svc.listen_addr
    then svc.listen_addr
    else if str_eq tls_mode "off"
    then ":80"
    else ":443"

module _ (api : Api) (files : Files) (os : Os) where
  -- The key for a service that needs one; none where its state is there.
  unfoldable pub prepare_service_auth : Server → Service → String → Result (Option String)
  prepare_service_auth s svc base_state_dir =
      if not svc.ephemeral && has_existing_state files base_state_dir svc.name
      then ok none
      else elim (validate_tailscale_secrets s.config) [
        | some e ↦ err (
            wrap_config (some e) (record {
              format = "service %q needs authentication but %s";
              args = str svc.name ∷ [];
            }))
        | none ↦ elim (generate_or_resolve_auth_key api os s.config svc) [
          | err e ↦ err (
              wrap_config (some e)
                (record { format = "resolving auth key for service %q"; args = str svc.name ∷ [] }))
          | ok auth_key ↦ ok (some auth_key)
        ]
      ]

  -- The server of a service with its settings, before it is started.
  unfoldable pub configure : Server → Service → String → Server
  unfolding call
  configure s svc base_state_dir =
      let named =
        call (set_ephemeral s.next svc.ephemeral)
          (call (set_hostname s.next svc.name) (record s { next = suc s.next })) in
      let controlled =
        if is_set s.config.control_url
        then call (set_control_url s.next s.config.control_url) named
        else named in
      call (set_dir s.next (files.join base_state_dir svc.name)) controlled

module _ (tsnet : Tsnet) where
  unfoldable pub start_server_with_timeout : ℕ → String → ℤ → Server → Server × Option Err
  unfolding call
  start_server_with_timeout server service_name timeout s =
      let s' = call (up server timeout) s in
      (
        s',
        elim (tsnet.up_error s'.calls) [
          | none ↦ none
          | some e ↦
              if tsnet.is_deadline e
              then some (
                  new_timeout_error
                    (record {
                      format =
                          "starting tsnet server for service %q (check network connectivity to Tailscale)";
                      args = str service_name ∷ [];
                    })
                    timeout)
              else some (
                  wrap_resource (some e) (record {
                    format = "starting tsnet server for service %q";
                    args = str service_name ∷ [];
                  }))
        ],
      )

  -- A listener that the library opens.
  abbrev opened : Call → Server → Server × Result ℕ
  opened c s = (call c s, tsnet.listener (c ∷ s.calls))

  unfoldable pub create_service_listener : ℕ → Service → String → Bool → Server → Server × Result ℕ
  unfolding determine_listen_addr call
  create_service_listener server svc tls_mode funnel_enabled s =
      let listen_addr = determine_listen_addr svc tls_mode in
      if funnel_enabled
      then opened (listen_funnel server ":443") s
      else if str_eq tls_mode tls_mode_auto
      then opened (listen_tls server listen_addr) s
      else if str_eq tls_mode tls_mode_off
      then opened (Call.listen server listen_addr) s
      else (
        s,
        err (
            new_validation_error
              (record { format = "invalid TLS mode: %q"; args = str tls_mode ∷ [] })),
      )

  -- After a failure the server leaves the map and is closed.
  unfoldable pub discard : ℕ → String → Server → Server
  unfolding call
  discard server service_name s =
      call (Call.close server)
        (record s { service_servers = delete service_name s.service_servers })

  unfoldable pub close_server_with_timeout : ℕ → String → Server → Server × Option Err
  unfolding call
  close_server_with_timeout server service_name s =
      let s' = call (Call.close server) s in
      (
        s',
        elim (tsnet.closing s'.calls) [
          | closed ↦ none
          | close_failed e ↦ some (
              wrap_resource (some e)
                (record { format = "closing service %q"; args = str service_name ∷ [] }))
          | timed_out ↦ some (
              new_timeout_error
                (record { format = "closing service %q"; args = str service_name ∷ [] })
                tsnet_server_close_timeout)
        ],
      )

  unfoldable pub close_service : String → Server → Server × Option Err
  unfolding close_server_with_timeout
  close_service service_name s = elim (lookup service_name s.service_servers) [
    | none ↦ (s, none)
    | some server ↦
        close_server_with_timeout server service_name
          (record s { service_servers = delete service_name s.service_servers })
  ]

  -- The loop over the servers, with the errors that it collects.
  unfoldable pub close_all : List (String × ℕ) → Server → Server × Errs
  unfolding close_server_with_timeout
  close_all [] s = (s, no_errs)
  close_all ((service_name, server) ∷ servers) s =
      let (s', e) = close_server_with_timeout server service_name s in
      let (s'', errs) = close_all servers s' in
      (s'', elim e [ none ↦ errs | some x ↦ more_errs x errs ])

  unfoldable pub close : Server → Server × Option Err
  unfolding close_all
  close s =
      let (s', errs) = close_all s.service_servers (record s { service_servers = [] }) in
      (s', elim errs [ no_errs ↦ none | more_errs e es ↦ some (joined (more_errs e es)) ])

  unfoldable pub get_service_server : String → Server → Option ℕ
  get_service_server service_name s = lookup service_name s.service_servers

  -- The part of `Listen` behind the configuration of the server: it is stored, started and opened.
  unfoldable pub open_server : ℕ → Service → String → Bool → Server → Server × Result ℕ
  unfolding start_server_with_timeout create_service_listener discard
  open_server server svc tls_mode funnel_enabled s =
      let stored = record s { service_servers = insert svc.name server s.service_servers } in
      let (started, failed) =
        start_server_with_timeout server svc.name
          (deref svc.startup_timeout default_startup_timeout) stored in
      let (listening, listener) =
        create_service_listener server svc tls_mode funnel_enabled started in
      elim failed [
        | some e ↦ (discard server svc.name started, err e)
        | none ↦ elim listener [
          | err e ↦ (discard server svc.name listening, err e)
          | ok l ↦ (listening, ok l)
        ]
      ]

  -- What `Listen` does once the key is prepared, if the service needs one.
  unfoldable pub after_auth :
      Service → String → Bool → ℕ → Server → Result (Option String) → Server × Result ℕ
  unfolding open_server call
  after_auth svc tls_mode funnel_enabled server s (err e) = (s, err e)
  after_auth svc tls_mode funnel_enabled server s (ok none) =
      open_server server svc tls_mode funnel_enabled s
  after_auth svc tls_mode funnel_enabled server s (ok (some auth_key)) =
      open_server server svc tls_mode funnel_enabled (call (set_auth_key server auth_key) s)

  module _ (api : Api) (files : Files) (os : Os) where
    unfoldable pub listen : Service → String → Bool → Server → Server × Result ℕ
    unfolding prepare_service_auth configure after_auth
    listen svc tls_mode funnel_enabled s =
        let (base_state_dir, _) = resolve_base_state_dir files os s.config.state_dir in
        after_auth svc tls_mode funnel_enabled s.next (configure api files os s svc base_state_dir)
          (prepare_service_auth api files os s svc base_state_dir)

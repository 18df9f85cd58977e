-- ===== src/Proxy/Rewrite.antt =====
-- internal/proxy/proxy.go: the headers of the request to the backend and of its response.
use Prim.Native.String.{◌++◌ as append}
use tsbridge.Prelude.Assoc.{lookup, insert, delete}
use tsbridge.Prelude.Text.{split_text}
use tsbridge.Prelude.{String, List, [], ◌∷◌, none, some, Bool, deref, is_empty, if◌then◌else◌}
use tsbridge.Errors.{ok, err}
use tsbridge.Config.Credentials.{trim_space}
use tsbridge.Config.Validate.{is_set}
use tsbridge.Middleware.{Header, set, get}
use tsbridge.Proxy.{Web, Incoming}
use tsbridge.Proxy.Backend.{is_trusted_proxy}

-- The texts with a separator between them.
abbrev join_values : List String → String
join_values [] = ""
join_values (v ∷ vs) = elim vs [ [] ↦ v | _ ∷ _ ↦ append v (append ", " (join_values vs)) ]

-- The first part before a comma, without blanks.
abbrev first_part : String → String
first_part s = elim (split_text b',' s) [ [] ↦ "" | part ∷ parts ↦ trim_space part ]

module _ (web : Web) where
  -- `Header.Del` for each of the names.
  unfoldable pub remove_headers : List String → Header → Header
  remove_headers [] h = h
  remove_headers (name ∷ names) h = remove_headers names (delete (web.canonical name) h)

  -- `Header.Set` for each entry of the map.
  unfoldable pub override_headers : List (String × String) → Header → Header
  unfolding set
  override_headers [] h = h
  override_headers ((key, value) ∷ headers) h =
      override_headers headers (set (web.canonical key) value h)

  -- The headers with which the standard library calls the rewrite: without the forwarding headers.
  unfoldable pub outgoing : Header → Header
  outgoing h = delete "X-Forwarded-Proto" (
      delete "X-Forwarded-Host"
        (delete "X-Forwarded-For" (delete "Forwarded" (web.without_hop_by_hop h))))

  -- The host part of the client's address; empty if the address does not split.
  abbrev pub client_ip_of : Incoming → String
  client_ip_of r = elim (web.split_host_port r.remote_addr) [ err e ↦ "" | ok (host, port) ↦ host ]

  -- `ProxyRequest.SetXForwarded`: the client's address behind those that are there.
  unfoldable pub set_x_forwarded : Incoming → Header → Header
  unfolding set
  set_x_forwarded r h =
      let forwarded : Header = elim (web.split_host_port r.remote_addr) [
        | err e ↦ delete "X-Forwarded-For" h
        | ok (host, port) ↦ elim (deref (lookup "X-Forwarded-For" h) []) [
          | [] ↦ set "X-Forwarded-For" host h
          | prior ∷ more ↦
              set "X-Forwarded-For" (append (join_values (prior ∷ more)) (append ", " host)) h
        ]
      ] in
      set "X-Forwarded-Proto" (if r.is_tls then "https" else "http")
        (set "X-Forwarded-Host" r.host forwarded)

  -- The chain of addresses before the client's own is added.
  unfoldable pub inherit_forwarded : Bool → Incoming → Header → Header
  unfolding set
  inherit_forwarded is_trusted r h = elim r.funnel_src [
    | some source ↦ set "X-Forwarded-For" source h
    | none ↦
        let chain = deref (lookup "X-Forwarded-For" r.header) [] in
        if is_trusted then if is_empty chain then h else insert "X-Forwarded-For" chain h else h
  ]

  unfoldable pub set_real_ip : Bool → Incoming → Header → Header
  unfolding set get
  set_real_ip is_trusted r h = elim r.funnel_src [
    | some source ↦ set "X-Real-Ip" source h
    | none ↦
        let existing = get "X-Forwarded-For" r.header in
        let client_ip = client_ip_of r in
        if is_trusted
        then if is_set existing
          then set "X-Real-Ip" (first_part existing) h
          else if is_set client_ip
          then set "X-Real-Ip" client_ip h
          else h
        else if is_set client_ip
        then set "X-Real-Ip" client_ip h
        else h
  ]

  -- The headers of the request to the backend.
  unfoldable pub proxy_rewrite :
      List web.IpNet
      → (remove_upstream : List String) → (upstream_headers : List (String × String)) → Incoming
      → Header
  unfolding remove_headers override_headers outgoing set_x_forwarded inherit_forwarded set_real_ip
      is_trusted_proxy
  proxy_rewrite trusted_proxies remove_upstream upstream_headers r =
      let is_trusted = is_trusted_proxy web trusted_proxies (client_ip_of r) in
      override_headers upstream_headers (
        remove_headers remove_upstream (
          set_real_ip is_trusted r
            (set_x_forwarded r (inherit_forwarded is_trusted r (outgoing r.header)))))

  unfoldable pub modify_response :
      (remove_downstream : List String)
      → (downstream_headers : List (String × String)) → Header
      → Header
  unfolding remove_headers override_headers
  modify_response remove_downstream downstream_headers h =
      override_headers downstream_headers (remove_headers remove_downstream h)

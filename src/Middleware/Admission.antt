-- ===== src/Middleware/Admission.antt =====
-- Which requests reach the handler of a service, and with what request id.
use tsbridge.Prelude.Int.{ℤ, pos, negsuc, is_pos, is_neg, ltz}
use tsbridge.Prelude.Assoc.{lookup-insert}
use tsbridge.Prelude.{
  List, [], ◌∷◌, Option, some, Bool, true, false, ◌&&◌, deref, str_eq_iff, str_eq_refl, ◌≡◌, ◌≢◌,
  refl, sym, ◌∙◌, arith, ap,
}
use tsbridge.Config.{Service, Config}
use tsbridge.Config.Address.{Net}
use tsbridge.Constants.{default_whois_timeout}
use tsbridge.Service.{Layer}
use tsbridge.Service.Handler.{layers, is_access_log_enabled, get_max_request_body_size}
use tsbridge.Middleware.{
  Request, Upstream, set, get, strip_headers, perform_whois_lookup, with_request_id, serve,
}
use tsbridge.Middleware.Spoofing.{inner_layers, who_layers, outer_lem}

not_negative : (n : ℤ) → is_pos n ≡ true → is_neg n ≡ false
not_negative (pos n) h = refl
not_negative (negsuc n) h = ground arith

module _ {S : Type 0} (net : Net) (up : Upstream S) where
  -- A service's layers reach the handler as the layers from whois on do.
  abbrev inside : Config → Service → Bool → List Layer
  inside c svc has_server =
      who_layers net up (deref svc.whois_enabled false && has_server)
        (deref svc.whois_timeout default_whois_timeout) (is_pos (get_max_request_body_size c svc))
        (get_max_request_body_size c svc)

  serve-layers_inside :
      (c : Config) (svc : Service) (has_server collects : Bool) (r : Request) (s : S)
      → serve net up (layers c svc has_server collects) r s
        ≡ serve net up (inside c svc has_server) (record r { header = strip_headers r.header }) s
  unfolding layers who_layers inner_layers
  serve-layers_inside c svc has_server collects r s =
      outer_lem net up (is_access_log_enabled c svc) collects svc.name _ r s

  bounded_inside :
      (w : Bool) (timeout limit : ℤ) (r : Request) (s : S) (r' : Request)
      → is_pos limit ≡ true
      → (serve net up (who_layers net up w timeout (is_pos limit) limit) r s).1 ≡ some r'
      → ltz limit r.content_length ≡ false
  unfolding serve who_layers inner_layers perform_whois_lookup
  bounded_inside true timeout limit r s r' p h = ground (arith, not_negative limit p)
  bounded_inside false timeout limit r s r' p h = ground (arith, not_negative limit p)

  -- Where the body limit of a service is positive, no request that announces a longer body reaches
  -- the proxy handler.
  pub serve-layers_bounded :
      (c : Config) (svc : Service) (has_server collects : Bool) (r : Request) (s : S) (r' : Request)
      → is_pos (get_max_request_body_size c svc) ≡ true
      → (serve net up (layers c svc has_server collects) r s).1 ≡ some r'
      → ltz (get_max_request_body_size c svc) r.content_length ≡ false
  serve-layers_bounded c svc has_server collects r s r' p h =
      bounded_inside (deref svc.whois_enabled false && has_server) _ _ _ s r' p (
        sym
          (ap (λ (x : S × Option Request). x.1) (serve-layers_inside c svc has_server collects r s))
        ∙ h)

  with_request_id_given :
      (r : Request) (s : S)
      → (up.new_uuid s).1 ≢ ""
      → get "X-Request-Id" (with_request_id net up r s).1.header ≢ ""
  unfolding with_request_id set get
  with_request_id_given r s u h = ground (
    arith,
    h,
    str_eq_refl "X-Request-Id",
    lookup-insert "X-Request-Id" "X-Request-Id" ((up.new_uuid s).1 ∷ []) r.header,
    str_eq_iff (get "X-Request-Id" r.header) "",
  )

  given_inside :
      (w b : Bool) (timeout limit : ℤ) (r : Request) (s : S) (r' : Request)
      → ((s' : S) → (up.new_uuid s').1 ≢ "")
      → (serve net up (who_layers net up w timeout b limit) r s).1 ≡ some r'
      → get "X-Request-Id" r'.header ≢ ""
  unfolding serve who_layers inner_layers perform_whois_lookup
  given_inside true b timeout limit r s r' u h none_given =
      let (s', q) = perform_whois_lookup net up timeout r s in
      ground (arith, with_request_id_given q s' (u s'))
  given_inside false b timeout limit r s r' u h none_given =
      ground (arith, with_request_id_given r s (u s))

  -- Where the UUIDs made are not empty, every request that reaches the proxy handler of a service
  -- has a request id.
  pub serve-layers_identified :
      (c : Config) (svc : Service) (has_server collects : Bool) (r : Request) (s : S) (r' : Request)
      → ((s' : S) → (up.new_uuid s').1 ≢ "")
      → (serve net up (layers c svc has_server collects) r s).1 ≡ some r'
      → get "X-Request-Id" r'.header ≢ ""
  serve-layers_identified c svc has_server collects r s r' u h =
      given_inside (deref svc.whois_enabled false && has_server) _ _ _ _ s r' u (
        sym
          (ap (λ (x : S × Option Request). x.1) (serve-layers_inside c svc has_server collects r s))
        ∙ h)

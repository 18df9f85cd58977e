-- ===== src/Middleware/Spoofing.antt =====
-- What the handler of a service may rely on of the headers that name a Tailscale user.
use tsbridge.Prelude.Int.{ℤ, is_pos}
use tsbridge.Prelude.Assoc.{lookup, lookup-insert}
use tsbridge.Prelude.Bytes.{cut_prefix}
use tsbridge.Prelude.{
  String, List, [], ◌∷◌, Option, none, some, Bool, true, false, ◌&&◌, deref, if◌then◌else◌, str_eq,
  str_eq_iff, ◌≡◌, refl, sym, ◌∙◌, arith, Bool-cases, inl, inr, ap,
}
use tsbridge.Config.{Service, Config}
use tsbridge.Config.Address.{Net}
use tsbridge.Constants.{default_whois_timeout}
use tsbridge.Service.{
  Layer, request_id, max_bytes, whois, strip_tailscale_headers, metrics, access_log,
}
use tsbridge.Service.Handler.{layers, is_access_log_enabled, get_max_request_body_size}
use tsbridge.Middleware.{
  Header, Request, WhoIsResponse, UserProfile, Upstream, set, set_given, sanitize_header_value,
  is_tailscale_key, strip_headers, add_user_headers, add_address_headers, identify, whois_answer,
  perform_whois_lookup, with_request_id, serve,
}

strip_headers_lem :
    (k : String) (h : Header) → is_tailscale_key k ≡ true → lookup k (strip_headers h) ≡ none
unfolding strip_headers lookup
strip_headers_lem k [] t = refl
strip_headers_lem k ((j, v) ∷ h) t = ground (arith, strip_headers_lem k h t, str_eq_iff j k)

-- A header that is set does not depend on what the map held under other keys.
set_same :
    (k key value : String) (g h : Header)
    → lookup k g ≡ lookup k h
    → lookup k (set key value g) ≡ lookup k (set key value h)
unfolding set
set_same k key value g h e =
    ground (arith, e, lookup-insert key k (value ∷ []) g, lookup-insert key k (value ∷ []) h)

set_given_same :
    (k key value : String) (g h : Header)
    → lookup k g ≡ lookup k h
    → lookup k (set_given key value g) ≡ lookup k (set_given key value h)
set_given_same k key value g h e =
    ground (arith, e, set_same k key (sanitize_header_value value) g h e)

user_same :
    (k : String) (u : Option UserProfile) (g h : Header)
    → lookup k g ≡ lookup k h
    → lookup k (add_user_headers u g) ≡ lookup k (add_user_headers u h)
unfolding add_user_headers
user_same k none g h e = e
user_same k (some u) g h e = set_given_same k "X-Tailscale-Profile-Picture" u.profile_pic_url _ _ (
    set_given_same k "X-Tailscale-Name" u.display_name _ _ (
      set_given_same k "X-Tailscale-Login" u.login_name _ _
        (set_given_same k "X-Tailscale-User" u.login_name g h e)))

address_same :
    (k : String) (addresses : Option (List String)) (g h : Header)
    → lookup k g ≡ lookup k h
    → lookup k (add_address_headers addresses g) ≡ lookup k (add_address_headers addresses h)
unfolding add_address_headers
address_same k none g h e = e
address_same k (some []) g h e = e
address_same k (some (a ∷ addresses)) g h e = set_same k "X-Tailscale-Addresses" _ g h e

module _ {S : Type 0} (net : Net) (up : Upstream S) where
  identify_same :
      (k : String) (answer : Option WhoIsResponse) (g h : Header)
      → lookup k g ≡ lookup k h
      → lookup k (identify net up answer g) ≡ lookup k (identify net up answer h)
  unfolding identify
  identify_same k none g h e = e
  identify_same k (some resp) g h e =
      address_same k resp.node _ _ (user_same k resp.user_profile g h e)

  other_key : (k : String) → is_tailscale_key k ≡ true → str_eq "X-Request-Id" k ≡ false
  unfolding cut_prefix
  other_key k t = elim (Bool-cases (str_eq "X-Request-Id" k)) [
    | inl same ↦ cc (rw (← (str_eq_iff "X-Request-Id" k).0 same) at t)
    | inr other ↦ other
  ]

  with_request_id_lem :
      (k : String) (r : Request) (s : S)
      → is_tailscale_key k ≡ true
      → lookup k (with_request_id net up r s).1.header ≡ lookup k r.header
  unfolding with_request_id set
  with_request_id_lem k r s t =
      ground
        (arith, other_key k t, lookup-insert "X-Request-Id" k ((up.new_uuid s).1 ∷ []) r.header)

  -- The two inner layers keep the headers of the form `X-Tailscale-`.
  unfoldable pub inner_layers : Bool → ℤ → List Layer
  inner_layers b limit = if b then max_bytes limit ∷ request_id ∷ [] else request_id ∷ []

  inner_lem :
      (k : String) (b : Bool) (limit : ℤ) (r : Request) (s : S) (r' : Request)
      → is_tailscale_key k ≡ true
      → (serve net up (inner_layers b limit) r s).1 ≡ some r'
      → lookup k r'.header ≡ lookup k r.header
  unfolding serve inner_layers
  inner_lem k b limit r s r' t h = ground (arith, with_request_id_lem k r s t)

  -- With the whois layer, if there is one.
  unfoldable pub who_layers : Bool → ℤ → Bool → ℤ → List Layer
  unfolding inner_layers
  who_layers w timeout b limit =
      if w then whois timeout ∷ inner_layers b limit else inner_layers b limit

  who_lem :
      (k : String) (w : Bool) (timeout : ℤ) (b : Bool) (limit : ℤ) (r : Request) (s : S)
      (r' : Request)
      → is_tailscale_key k ≡ true
      → lookup k r.header ≡ none
      → (serve net up (who_layers w timeout b limit) r s).1 ≡ some r'
      → lookup k r'.header
        ≡ lookup k (
            identify net up
              (if w then (whois_answer net up timeout r.remote_addr s).1 else none)
              [])
  unfolding serve who_layers perform_whois_lookup lookup identify
  who_lem k true timeout b limit r s r' t none_given h =
      inner_lem k b limit _ _ r' t h
      ∙ identify_same k (whois_answer net up timeout r.remote_addr s).1 r.header [] none_given
  who_lem k false timeout b limit r s r' t none_given h =
      inner_lem k b limit r s r' t h ∙ none_given

  -- The outer layers.
  pub outer_lem :
      (a m : Bool) (name : String) (inner : List Layer) (r : Request) (s : S)
      → serve net up
          (let measured =
              if m
              then metrics name ∷ strip_tailscale_headers ∷ inner
              else strip_tailscale_headers ∷ inner in
            if a then access_log name ∷ measured else measured)
          r
          s
        ≡ serve net up inner (record r { header = strip_headers r.header }) s
  unfolding serve
  outer_lem true true name inner r s = refl
  outer_lem true false name inner r s = refl
  outer_lem false true name inner r s = refl
  outer_lem false false name inner r s = refl

  -- Whatever headers a client sends: in the request that reaches the proxy handler of a service, a
  -- header whose name begins with `X-Tailscale-` in any case has the value that the whois answer
  -- for the client's address sets, and is missing if it sets none, or if whois is off or the
  -- service has no server.
  pub serve-layers_trusted :
      (c : Config) (svc : Service) (has_server collects : Bool) (r : Request) (s : S) (r' : Request)
      (k : String)
      → is_tailscale_key k ≡ true
      → (serve net up (layers c svc has_server collects) r s).1 ≡ some r'
      → lookup k r'.header
        ≡ lookup k (
            identify net up
              (if deref svc.whois_enabled false && has_server
                then (whois_answer net up
                    (deref svc.whois_timeout default_whois_timeout)
                    r.remote_addr
                    s).1
                else none)
              [])
  unfolding serve layers who_layers inner_layers
  serve-layers_trusted c svc has_server collects r s r' k t h =
      who_lem k (deref svc.whois_enabled false && has_server)
        (deref svc.whois_timeout default_whois_timeout) (is_pos (get_max_request_body_size c svc))
        (get_max_request_body_size c svc) (record r { header = strip_headers r.header }) s r' t
        (strip_headers_lem k r.header t)
        (sym (
            ap (λ (x : S × Option Request). x.1)
              (outer_lem (is_access_log_enabled c svc) collects svc.name _ r s))
          ∙ h)

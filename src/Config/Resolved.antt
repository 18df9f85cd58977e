-- ===== src/Config/Resolved.antt =====
-- What SetDefaults and Normalize guarantee together.
use tsbridge.Prelude.{
  Option, none, some, or_else, List, [], ◌∷◌, map, str_eq_iff, ◌≡◌, ◌≢◌, refl, arith, All, true,
}
use tsbridge.Config.{Config, Tailscale, Global, Service}
use tsbridge.Config.Defaults.{
  set_defaults, set_service_defaults, set_global_defaults, set_tailscale_defaults,
  normalize_service, normalize,
}
use tsbridge.Constants.{
  default_tls_mode, default_read_header_timeout, default_write_timeout, default_idle_timeout,
  default_startup_timeout, default_max_request_body_size,
}

-- Every pointer that the program reads without a nil test is set.
pub record IsResolved (svc : Service) : Type 0 where
  pub whois_enabled : svc.whois_enabled ≢ none
  pub whois_timeout : svc.whois_timeout ≢ none
  pub tls_mode : svc.tls_mode ≢ ""
  pub startup_timeout : svc.startup_timeout ≢ none
  pub read_header_timeout : svc.read_header_timeout ≢ none
  pub write_timeout : svc.write_timeout ≢ none
  pub idle_timeout : svc.idle_timeout ≢ none
  pub access_log : svc.access_log ≢ none
  pub max_request_body_size : svc.max_request_body_size ≢ none

service-IsResolved :
    (ts : Tailscale) (g : Global) (svc : Service)
    → IsResolved (normalize_service ts (set_global_defaults g) (set_service_defaults svc))
unfolding normalize_service set_global_defaults set_service_defaults
service-IsResolved ts g svc = record {
  whois_enabled = ground arith;
  whois_timeout = ground arith;
  tls_mode = ground (arith, str_eq_iff svc.tls_mode "", str_eq_iff default_tls_mode "");
  startup_timeout = ground arith;
  read_header_timeout = ground arith;
  write_timeout = ground arith;
  idle_timeout = ground arith;
  access_log = ground arith;
  max_request_body_size = ground arith;
}

services-IsResolved :
    (ts : Tailscale) (g : Global) (svcs : List Service)
    → All IsResolved
        (map (normalize_service ts (set_global_defaults g)) (map set_service_defaults svcs))
services-IsResolved ts g [] = tt
services-IsResolved ts g (svc ∷ svcs) = (service-IsResolved ts g svc, services-IsResolved ts g svcs)

-- After SetDefaults and Normalize every service has its whois, TLS, timeout, access log and body
-- size settings set, the response header timeout and the flush interval excepted.
pub normalize-set_defaults-IsResolved :
    (c : Config) → All IsResolved (normalize (set_defaults c)).services
unfolding normalize set_defaults
normalize-set_defaults-IsResolved c = services-IsResolved _ c.global c.services

-- The service's own value, then the global one, then the constant.
abbrev pub prefer {ℓ} : {A : Type ℓ} → Option A → Option A → Option A → Option A
prefer own inherited default = or_else own (or_else inherited default)

-- What the resolved service has in the place of each setting.
pub record Inherits (ts : Tailscale) (g : Global) (svc out : Service) : Type 0 where
  pub startup :
      out.startup_timeout
      ≡ prefer svc.startup_timeout g.startup_timeout (some default_startup_timeout)
  pub header :
      out.read_header_timeout
      ≡ prefer svc.read_header_timeout g.read_header_timeout (some default_read_header_timeout)
  pub write :
      out.write_timeout ≡ prefer svc.write_timeout g.write_timeout (some default_write_timeout)
  pub idle : out.idle_timeout ≡ prefer svc.idle_timeout g.idle_timeout (some default_idle_timeout)
  pub response :
      out.response_header_timeout
      ≡ prefer svc.response_header_timeout g.response_header_timeout none
  pub log : out.access_log ≡ prefer svc.access_log g.access_log (some true)
  pub body :
      out.max_request_body_size
      ≡ prefer svc.max_request_body_size g.max_request_body_size
          (some default_max_request_body_size)
  pub flush : out.flush_interval ≡ prefer svc.flush_interval g.flush_interval none
  pub tags : out.tags ≡ prefer svc.tags ts.default_tags none
  pub name : out.name ≡ svc.name
  pub backend : out.backend_addr ≡ svc.backend_addr

-- The resolved list beside the list as given, service by service.
abbrev pub AllInherit : Tailscale → Global → List Service → List Service → Type 0
AllInherit ts g [] [] = Unit
AllInherit ts g (svc ∷ svcs) (out ∷ outs) = Inherits ts g svc out × AllInherit ts g svcs outs
AllInherit ts g [] (out ∷ outs) = ⊥
AllInherit ts g (svc ∷ svcs) [] = ⊥

service-Inherits :
    (ts : Tailscale) (g : Global) (svc : Service)
    → Inherits ts g svc (
        normalize_service
          (set_tailscale_defaults ts)
          (set_global_defaults g)
          (set_service_defaults svc))
unfolding normalize_service set_global_defaults set_tailscale_defaults set_service_defaults
service-Inherits ts g svc = record {
  startup = refl;
  header = refl;
  write = refl;
  idle = refl;
  response = ground arith;
  log = refl;
  body = refl;
  flush = ground arith;
  tags = ground arith;
  name = refl;
  backend = refl;
}

services-AllInherit :
    (ts : Tailscale) (g : Global) (svcs : List Service)
    → AllInherit ts g svcs (
        map
          (normalize_service (set_tailscale_defaults ts) (set_global_defaults g))
          (map set_service_defaults svcs))
services-AllInherit ts g [] = tt
services-AllInherit ts g (svc ∷ svcs) = (service-Inherits ts g svc, services-AllInherit ts g svcs)

-- Resolution keeps the services in order with their names and backends, and the timeouts, the
-- access log, the body limit, the flush interval and the tags are the service's own value if it is
-- set, else the global (for tags, the Tailscale) value, else the default, where there is one.
pub normalize-set_defaults-AllInherit :
    (c : Config) → AllInherit c.tailscale c.global c.services (normalize (set_defaults c)).services
unfolding normalize set_defaults
normalize-set_defaults-AllInherit c = services-AllInherit c.tailscale c.global c.services

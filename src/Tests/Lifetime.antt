-- ===== src/Tests/Lifetime.antt =====
-- A request of a client that claims another address, and an application that is shut down.
use tsbridge.Prelude.Assoc.{lookup}
use tsbridge.Prelude.{ℕ, suc, String, [], ◌∷◌, none, some, true, false, ◌≡◌, ◌⊎◌, ◌↔◌, refl, str_eq}
use tsbridge.Errors.{ok, err, foreign, is_timeout}
use tsbridge.App.Lifecycle.{Parts, Lifecycle, shutdown}
use tsbridge.App.Once.{services_down, metrics_down, server_down, shutdown_iff}
use tsbridge.Proxy.{Web, Incoming}
use tsbridge.Proxy.Backend.{is_trusted_proxy}
use tsbridge.Proxy.Rewrite.{proxy_rewrite}
use tsbridge.Proxy.Forwarded.{proxy_rewrite-honest}

-- Addresses are compared as text.
abbrev sample_web : Web
sample_web = record {
  Ip = String;
  IpNet = String;
  parse_ip = λ s. some s;
  parse_cidr = λ s. ok s;
  single = λ ip. ip;
  contains = λ net ip. str_eq net ip;
  split_host_port = λ addr. ok ("203.0.113.9", "5000");
  parse_url = λ addr. err (foreign "url");
  canonical = λ name. name;
  without_hop_by_hop = λ h. h;
}

abbrev claiming : Incoming
claiming = record {
  header = ("X-Forwarded-For", "127.0.0.1" ∷ []) ∷ ("X-Real-Ip", "127.0.0.1" ∷ []) ∷ [];
  remote_addr = "203.0.113.9:5000";
  host = "web";
  is_tls = true;
  funnel_src = none;
}

stranger : is_trusted_proxy sample_web ("10.0.0.1" ∷ []) "203.0.113.9" ≡ false
unfolding is_trusted_proxy
stranger = refl

proxy_rewrite-honest_example :
    (lookup "X-Forwarded-For"
        (proxy_rewrite sample_web ("10.0.0.1" ∷ []) ("Cookie" ∷ []) (("X-Team", "a") ∷ []) claiming)
      ≡ some ("203.0.113.9" ∷ []))
    × (lookup "X-Real-Ip" (
          proxy_rewrite sample_web
            ("10.0.0.1" ∷ [])
            ("Cookie" ∷ [])
            (("X-Team", "a") ∷ [])
            claiming)
        ≡ some ("203.0.113.9" ∷ []))
proxy_rewrite-honest_example =
    proxy_rewrite-honest sample_web ("10.0.0.1" ∷ []) ("Cookie" ∷ []) (("X-Team", "a") ∷ [])
      claiming "203.0.113.9" "5000" refl (λ e. cc) refl stranger ((λ e. cc), tt) ((λ e. cc), tt)
      ((λ e. cc), tt) ((λ e. cc), tt)

-- Parts that count what is done to them; the services do not stop cleanly.
abbrev sample_parts : Parts ℕ
sample_parts = record {
  watch = suc;
  cancel_watch = suc;
  start_metrics = λ w. (suc w, none);
  shutdown_metrics = λ w. (suc w, none);
  start_services = λ w. (suc w, none);
  shutdown_services = λ w. (suc w, some (foreign "services"));
  close_server = λ w. (suc w, none);
}

abbrev sample_app : Lifecycle ℕ
sample_app = record {
  world = 0;
  has_provider = true;
  has_metrics = true;
  watching = true;
  started = true;
  stopped = false;
}

shutdown_iff_example :
    ((shutdown sample_parts sample_app).0.world ≡ (server_down sample_parts sample_app).0)
    × (((shutdown sample_parts sample_app).1 ≡ none) ↔ (
        ((services_down sample_parts sample_app).1 ≡ none)
        × ((metrics_down sample_parts sample_app).1 ≡ none)
        × (((server_down sample_parts sample_app).1 ≡ none)
            ⊎ (is_timeout (server_down sample_parts sample_app).1 ≡ true))))
    × (shutdown sample_parts (shutdown sample_parts sample_app).0
        ≡ ((shutdown sample_parts sample_app).0, none))
shutdown_iff_example = shutdown_iff sample_parts sample_app refl

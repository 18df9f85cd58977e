-- ===== src/Tests/Requests.antt =====
-- Requests with headers of a client's own making.
use tsbridge.Prelude.Int.{pos, ltz, is_pos}
use tsbridge.Prelude.Assoc.{lookup, insert}
use tsbridge.Prelude.Bytes.{bytes, cut_prefix, split}
use tsbridge.Prelude.{ℕ, suc, [], ◌∷◌, Option, none, some, true, false, ◌≡◌, ◌≢◌, refl}
use tsbridge.Config.{Service, Config}
use tsbridge.Constants.{default_whois_timeout}
use tsbridge.Service.Handler.{layers, get_max_request_body_size}
use tsbridge.Middleware.{
  Request, WhoIsResponse, Upstream, set, get, is_tailscale_key, strip_headers, identify,
  whois_answer, serve, sanitize_header_value,
}
use tsbridge.Middleware.Spoofing.{serve-layers_trusted}
use tsbridge.Middleware.Admission.{serve-layers_bounded, serve-layers_identified}
use tsbridge.Samples.{sample_service, sample_config, sample_net}

abbrev alice : WhoIsResponse
alice = record {
  user_profile =
      some (record { login_name = "alice"; display_name = "Alice"; profile_pic_url = "" });
  node = some ("100.64.0.1" ∷ []);
}

-- A client that knows one user, an empty cache and one UUID.
abbrev sample_upstream : Upstream ℕ
sample_upstream = record {
  who_is = λ timeout addr s. (suc s, some alice, none);
  is_whois_retryable_error = λ e. false;
  next_back_off = λ s. (s, true);
  cache_get = λ key s. (s, none);
  cache_add = λ key resp s. s;
  new_uuid = λ s. (suc s, "uuid");
}

abbrev spoofed : Request
spoofed = record {
  header = ("X-Tailscale-User", "root" ∷ []) ∷ ("Accept", "*/*" ∷ []) ∷ [];
  remote_addr = bytes "100.64.0.1:5000";
  content_length = pos 12;
}

abbrev open_service : Service
open_service = record (sample_service "web" "localhost:8080") { whois_enabled = some true }

abbrev config : Config
config = sample_config (open_service ∷ [])

abbrev served : ℕ × Option Request
served = serve sample_net sample_upstream (layers config open_service true false) spoofed 0

is_tailscale_user : is_tailscale_key "X-Tailscale-User" ≡ true
unfolding cut_prefix
is_tailscale_user = refl

is_limited : is_pos (get_max_request_body_size config open_service) ≡ true
unfolding get_max_request_body_size
is_limited = refl

reaches : (r' : Request) × (served.1 ≡ some r')
unfolding serve layers get set lookup insert cut_prefix split sanitize_header_value strip_headers
reaches = (_, refl)

serve-layers_trusted_example :
    lookup "X-Tailscale-User" reaches.0.header
    ≡ lookup "X-Tailscale-User" (
        identify sample_net sample_upstream
          (whois_answer sample_net sample_upstream default_whois_timeout spoofed.remote_addr 0).1
          [])
serve-layers_trusted_example =
    serve-layers_trusted sample_net sample_upstream config open_service true false spoofed 0
      reaches.0 "X-Tailscale-User" is_tailscale_user reaches.1

serve-layers_bounded_example :
    ltz (get_max_request_body_size config open_service) spoofed.content_length ≡ false
serve-layers_bounded_example =
    serve-layers_bounded sample_net sample_upstream config open_service true false spoofed 0
      reaches.0 is_limited reaches.1

uuid_given : (s : ℕ) → (sample_upstream.new_uuid s).1 ≢ ""
uuid_given s e = cc

serve-layers_identified_example : get "X-Request-Id" reaches.0.header ≢ ""
serve-layers_identified_example =
    serve-layers_identified sample_net sample_upstream config open_service true false spoofed 0
      reaches.0 uuid_given reaches.1

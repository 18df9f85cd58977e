-- ===== src/Middleware.antt =====
-- internal/middleware: the request on its way through the layers around a proxy.
-- A header map is an association list with keys in the form of `http.CanonicalHeaderKey`; names of
-- headers are ASCII. `Upstream` holds what the layers call: the whois client, the backoff and cache
-- libraries, the UUID generator and `isWhoisRetryableError`, over a state of any type.
pub mod Spoofing
pub mod Admission
use Prim.Native.Char.{code}
use tsbridge.Prelude.Int.{ℤ, pos, is_neg, ltz}
use tsbridge.Prelude.Assoc.{lookup, insert}
use tsbridge.Prelude.Bytes.{bytes, has_prefix, to_lower}
use tsbridge.Prelude.{
  ℕ, suc, zero, String, List, [], ◌∷◌, Option, none, some, Bool, true, false, ◌&&◌, ◌||◌, not,
  is_empty, deref, ◌==◌, keep, if◌then◌else◌, str_eq,
}
use tsbridge.Errors.{Err, Result, ok, err}
use tsbridge.Config.Address.{Net}
use tsbridge.Service.{
  Layer, request_id, max_bytes, whois, strip_tailscale_headers, metrics, access_log,
}

-- `http.Header`
abbrev pub Header : Type 0
Header = List (String × List String)

pub record Request : Type 0 where
  pub header : Header
  pub remote_addr : List ℕ
  pub content_length : ℤ

pub record UserProfile : Type 0 where
  pub login_name : String
  pub display_name : String
  pub profile_pic_url : String

-- `apitype.WhoIsResponse`: the profile, and the addresses of the node as text.
pub record WhoIsResponse : Type 0 where
  pub user_profile : Option UserProfile
  pub node : Option (List String)

-- `r.Header.Set`
unfoldable pub set : String → String → Header → Header
set key value h = insert key (value ∷ []) h

-- `r.Header.Get`
unfoldable pub get : String → Header → String
get key h = elim (lookup key h) [ none ↦ "" | some [] ↦ "" | some (value ∷ values) ↦ value ]

abbrev pub is_tailscale_key : String → Bool
is_tailscale_key key = has_prefix (to_lower (bytes key)) (bytes "x-tailscale-")

unfoldable pub strip_headers : Header → Header
strip_headers h = keep (λ (key, values). not (is_tailscale_key key)) h

unfoldable pub sanitize_header_value : String → String
sanitize_header_value String.[] = String.[]
sanitize_header_value (String.◌∷◌ c s) =
    let rest = sanitize_header_value s in
    if (code c == 13) || (code c == 10) then rest else String.◌∷◌ c rest

-- Sets a header to a cleaned value, if there is a value.
abbrev pub set_given : String → String → Header → Header
set_given key value h = if str_eq value "" then h else set key (sanitize_header_value value) h

unfoldable pub add_user_headers : Option UserProfile → Header → Header
unfolding set sanitize_header_value
add_user_headers none h = h
add_user_headers (some u) h = set_given "X-Tailscale-Profile-Picture" u.profile_pic_url (
    set_given "X-Tailscale-Name" u.display_name
      (set_given "X-Tailscale-Login" u.login_name (set_given "X-Tailscale-User" u.login_name h)))

abbrev append : String → String → String
append String.[] t = t
append (String.◌∷◌ c s) t = String.◌∷◌ c (append s t)

-- `strings.Join(addresses, ",")`
abbrev join : String → List String → String
join s [] = s
join s (t ∷ ts) = append s (append "," (join t ts))

unfoldable pub add_address_headers : Option (List String) → Header → Header
unfolding set
add_address_headers none h = h
add_address_headers (some []) h = h
add_address_headers (some (a ∷ addresses)) h = set "X-Tailscale-Addresses" (join a addresses) h

pub record Upstream (S : Type 0) : Type 0 where
  -- One call of the whois client, with the timeout.
  pub who_is : ℤ → List ℕ → S → S × Option WhoIsResponse × Option Err
  pub is_whois_retryable_error : Err → Bool
  -- Whether the backoff, the context and the elapsed time allow one more attempt.
  pub next_back_off : S → S × Bool
  -- The cache, whose size is not 0.
  pub cache_get : List ℕ → S → S × Option WhoIsResponse
  pub cache_add : List ℕ → WhoIsResponse → S → S
  pub new_uuid : S → S × String

unfoldable pub extract_host_from_remote_addr : Net → List ℕ → List ℕ
extract_host_from_remote_addr net addr = elim (net.split_host_port addr) [
  | err e ↦ addr
  | ok (host, port) ↦ host
]

module _ {S : Type 0} (net : Net) (up : Upstream S) where
  -- One call, and at most `retries` more.
  unfoldable pub perform_whois_with_retry_logic :
      (retries : ℕ) → ℤ → List ℕ → S → S × Option WhoIsResponse × Option Err
  perform_whois_with_retry_logic zero timeout addr s = up.who_is timeout addr s
  perform_whois_with_retry_logic (suc retries) timeout addr s =
      let (s1, resp, failed) = up.who_is timeout addr s in
      elim failed [
        | none ↦ (s1, resp, none)
        | some e ↦
            let (s2, again) = up.next_back_off s1 in
            let (s3, later, failed_later) =
              perform_whois_with_retry_logic retries timeout addr s2 in
            if not (up.is_whois_retryable_error e)
            then (s1, resp, some e)
            else if again
            then (s3, later, failed_later)
            else (s2, resp, some e)
      ]

  -- The answer that performWhoisLookup takes from the cache or from the client.
  unfoldable pub whois_answer : ℤ → List ℕ → S → S × Option WhoIsResponse
  unfolding perform_whois_with_retry_logic extract_host_from_remote_addr
  whois_answer timeout addr s =
      let cache_key = extract_host_from_remote_addr net addr in
      let (s1, cached) = up.cache_get cache_key s in
      elim cached [
        | some resp ↦ (s1, some resp)
        | none ↦
            let (s2, found, failed) = perform_whois_with_retry_logic 2 timeout addr s1 in
            elim failed [
              | some e ↦ (s2, none)
              | none ↦ elim found [
                | none ↦ (s2, none)
                | some resp ↦ (up.cache_add cache_key resp s2, some resp)
              ]
            ]
      ]

  -- The headers that an answer sets.
  unfoldable pub identify : Option WhoIsResponse → Header → Header
  unfolding add_user_headers add_address_headers
  identify none h = h
  identify (some resp) h = add_address_headers resp.node (add_user_headers resp.user_profile h)

  unfoldable pub perform_whois_lookup : ℤ → Request → S → S × Request
  unfolding whois_answer identify
  perform_whois_lookup timeout r s =
      let (s', answer) = whois_answer timeout r.remote_addr s in
      (s', record r { header = identify answer r.header })

  unfoldable pub with_request_id : Request → S → S × Request
  unfolding get set
  with_request_id r s =
      let (s', made) = up.new_uuid s in
      if str_eq (get "X-Request-Id" r.header) ""
      then (s', record r { header = set "X-Request-Id" made r.header })
      else (s, r)

  -- The request that reaches the handler under the layers, if none of them answers before.
  unfoldable pub serve : List Layer → Request → S → S × Option Request
  unfolding strip_headers perform_whois_lookup with_request_id
  serve [] r s = (s, some r)
  serve (request_id ∷ ls) r s = let (s', r') = with_request_id r s in serve ls r' s'
  serve (max_bytes limit ∷ ls) r s =
      let rest = serve ls r s in
      if is_neg limit then rest else if ltz limit r.content_length then (s, none) else rest
  serve (whois timeout ∷ ls) r s = let (s', r') = perform_whois_lookup timeout r s in serve ls r' s'
  serve (strip_tailscale_headers ∷ ls) r s =
      serve ls (record r { header = strip_headers r.header }) s
  serve (metrics service ∷ ls) r s = serve ls r s
  serve (access_log service ∷ ls) r s = serve ls r s

-- ===== src/Config/Valid.antt =====
-- Which credentials and global settings Validate accepts.
use tsbridge.Prelude.Bytes.{bytes, contains}
use tsbridge.Prelude.{
  String, List, [], ◌∷◌, map, Option, none, some, true, false, or_else, str_eq_iff, ◌≡◌, ◌≢◌, ◌↔◌,
  ◌⊎◌, refl, arith, All,
}
use tsbridge.Errors.{Err}
use tsbridge.Config.Timeout.{
  IsTimeout, IsFlushInterval, IsPositiveTimeout, validate_timeout_iff, validate_flush_iff,
  validate_timeout_positive_iff,
}
use tsbridge.Config.Address.{Net}
use tsbridge.Config.Validate.{
  first_error, validate_auth_method_selection, validate_oauth, metrics_addr_error, proxy_error,
  global_checks, validate_global,
}
use tsbridge.Config.{Tailscale, Global}

-- One way to authenticate, in full, or none.
abbrev pub IsAuth : Tailscale → Type 0
IsAuth ts =
    ((ts.oauth_client_id ≡ "") × (ts.oauth_client_secret ≡ ""))
    ⊎ ((ts.auth_key ≡ "") × (ts.oauth_client_id ≢ "") × (ts.oauth_client_secret ≢ ""))

pub validate_oauth_iff : (ts : Tailscale) → (validate_oauth ts ≡ none) ↔ IsAuth ts
unfolding validate_oauth validate_auth_method_selection
validate_oauth_iff ts =
    let (k, k') = str_eq_iff ts.auth_key "" in
    let (i, i') = str_eq_iff ts.oauth_client_id "" in
    let (s, s') = str_eq_iff ts.oauth_client_secret "" in
    (λ h. ground (arith, k, k', i, i', s, s'), λ h. ground (arith, k, k', i, i', s, s'))

or_else_iff {ℓ} : {A : Type ℓ} (a b : Option A) → (or_else a b ≡ none) ↔ ((a ≡ none) × (b ≡ none))
or_else_iff none b = (λ h. (refl, h), λ h. h.1)
or_else_iff (some a) b = (λ h. cc, λ h. cc)

pub first_error_iff : (es : List (Option Err)) → (first_error es ≡ none) ↔ All (λ e. e ≡ none) es
first_error_iff [] = (λ _. tt, λ _. refl)
first_error_iff (e ∷ es) =
    let (to, from) = or_else_iff e (first_error es) in
    let (tos, froms) = first_error_iff es in
    (λ h. ((to h).0, tos (to h).1), λ h. from (h.0, froms h.1))

module _ (net : Net) where
  -- A range with a slash, or one address.
  abbrev IsProxy : String → Type 0
  IsProxy proxy =
      ((contains (bytes proxy) (bytes "/") ≡ true) × (net.cidr_error (bytes proxy) ≡ none))
      ⊎ ((contains (bytes proxy) (bytes "/") ≡ false) × (net.is_ip (bytes proxy) ≡ true))

  pub record IsGlobal (g : Global) : Type 0 where
    pub read_header_timeout : IsTimeout g.read_header_timeout
    pub write_timeout : IsTimeout g.write_timeout
    pub idle_timeout : IsTimeout g.idle_timeout
    pub shutdown_timeout : IsPositiveTimeout g.shutdown_timeout
    pub startup_timeout : IsPositiveTimeout g.startup_timeout
    pub response_header_timeout : IsTimeout g.response_header_timeout
    pub dial_timeout : IsTimeout g.dial_timeout
    pub keep_alive_timeout : IsTimeout g.keep_alive_timeout
    pub idle_conn_timeout : IsTimeout g.idle_conn_timeout
    pub tls_handshake_timeout : IsTimeout g.tls_handshake_timeout
    pub expect_continue_timeout : IsTimeout g.expect_continue_timeout
    pub metrics_read_header_timeout : IsTimeout g.metrics_read_header_timeout
    pub flush_interval : IsFlushInterval g.flush_interval
    pub metrics_addr : (g.metrics_addr ≡ "") ⊎ (net.tcp_addr_error (bytes g.metrics_addr) ≡ none)
    pub trusted_proxies : All IsProxy g.trusted_proxies

  proxy_error_iff : (p : String) → (proxy_error net p ≡ none) ↔ IsProxy p
  unfolding proxy_error
  proxy_error_iff p = (λ h. ground arith, λ h. ground arith)

  proxies_iff : (ps : List String) → All (λ e. e ≡ none) (map (proxy_error net) ps) ↔ All IsProxy ps
  proxies_iff [] = (λ _. tt, λ _. tt)
  proxies_iff (p ∷ ps) =
      let (to, from) = proxy_error_iff p in
      let (tos, froms) = proxies_iff ps in (λ h. (to h.0, tos h.1), λ h. (from h.0, froms h.1))

  metrics_addr_error_iff :
      (a : String)
      → (metrics_addr_error net a ≡ none) ↔ ((a ≡ "") ⊎ (net.tcp_addr_error (bytes a) ≡ none))
  unfolding metrics_addr_error
  metrics_addr_error_iff a =
      let (k, k') = str_eq_iff a "" in (λ h. ground (arith, k, k'), λ h. ground (arith, k, k'))

  pub validate_global_iff : (g : Global) → (validate_global net g ≡ none) ↔ IsGlobal g
  unfolding validate_global
  validate_global_iff g = (
    λ h.
        let (a, (b, (c, (d, (e, (f, (i, (j, (k, (l, (m, (n, (o, (p, q)))))))))))))) =
          (first_error_iff (global_checks net g)).0 h in
        record {
          read_header_timeout = (validate_timeout_iff _ _).0 a;
          write_timeout = (validate_timeout_iff _ _).0 b;
          idle_timeout = (validate_timeout_iff _ _).0 c;
          shutdown_timeout = (validate_timeout_positive_iff _ _).0 d;
          startup_timeout = (validate_timeout_positive_iff _ _).0 e;
          response_header_timeout = (validate_timeout_iff _ _).0 f;
          dial_timeout = (validate_timeout_iff _ _).0 i;
          keep_alive_timeout = (validate_timeout_iff _ _).0 j;
          idle_conn_timeout = (validate_timeout_iff _ _).0 k;
          tls_handshake_timeout = (validate_timeout_iff _ _).0 l;
          expect_continue_timeout = (validate_timeout_iff _ _).0 m;
          metrics_read_header_timeout = (validate_timeout_iff _ _).0 n;
          flush_interval = (validate_flush_iff _ _).0 o;
          metrics_addr = (metrics_addr_error_iff _).0 p;
          trusted_proxies = (proxies_iff _).0 q;
        },
    λ v. (first_error_iff (global_checks net g)).1 (
      (validate_timeout_iff _ _).1 v.read_header_timeout,
      (
        (validate_timeout_iff _ _).1 v.write_timeout,
        (
          (validate_timeout_iff _ _).1 v.idle_timeout,
          (
            (validate_timeout_positive_iff _ _).1 v.shutdown_timeout,
            (
              (validate_timeout_positive_iff _ _).1 v.startup_timeout,
              (
                (validate_timeout_iff _ _).1 v.response_header_timeout,
                (
                  (validate_timeout_iff _ _).1 v.dial_timeout,
                  (
                    (validate_timeout_iff _ _).1 v.keep_alive_timeout,
                    (
                      (validate_timeout_iff _ _).1 v.idle_conn_timeout,
                      (
                        (validate_timeout_iff _ _).1 v.tls_handshake_timeout,
                        (
                          (validate_timeout_iff _ _).1 v.expect_continue_timeout,
                          (
                            (validate_timeout_iff _ _).1 v.metrics_read_header_timeout,
                            (
                              (validate_flush_iff _ _).1 v.flush_interval,
                              (
                                (metrics_addr_error_iff _).1 v.metrics_addr,
                                (proxies_iff _).1 v.trusted_proxies,
                              ),
                            ),
                          ),
                        ),
                      ),
                    ),
                  ),
                ),
              ),
            ),
          ),
        ),
      ),
    ),
  )

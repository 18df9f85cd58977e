-- ===== src/Config/ValidService.antt =====
-- Which services validateService accepts.
use tsbridge.Prelude.Bytes.{bytes, has_prefix, to_lower}
use tsbridge.Prelude.{
  ℕ, String, List, [], none, true, false, is_empty, deref, str_eq, str_eq_iff, ◌≡◌, ◌↔◌, ◌⊎◌, inl,
  inr, arith, Bool-cases,
}
use tsbridge.Config.Timeout.{
  IsTimeout, IsFlushInterval, IsPositiveTimeout, validate_timeout_iff, validate_flush_iff,
  validate_timeout_positive_iff,
}
use tsbridge.Config.Address.{Net}
use tsbridge.Config.Backend.{
  IsSocket, IsWebUrl, IsTcp, validate_addr_iff, validate_backend_address_iff,
}
use tsbridge.Config.Address.{IsAddr}
use tsbridge.Config.Validate.{
  service_checks, insecure_error, whois_error, tls_mode_error, listen_error, tags_error,
  validate_service,
}
use tsbridge.Config.{Tailscale, Service}
use tsbridge.Config.Valid.{first_error_iff}

-- With OAuth, a service has a tag.
abbrev IsTags : Tailscale → Service → Type 0
IsTags ts svc =
    ((ts.oauth_client_id ≡ "") × (ts.oauth_client_secret ≡ ""))
    ⊎ (is_empty (deref svc.tags []) ≡ false)

abbrev IsTlsMode : String → Type 0
IsTlsMode mode = (mode ≡ "") ⊎ (mode ≡ "auto") ⊎ (mode ≡ "off")

module _ (net : Net) where
  abbrev IsBackend : List ℕ → Type 0
  IsBackend addr = IsSocket net addr ⊎ IsWebUrl net addr ⊎ IsTcp net addr

  pub record IsService (ts : Tailscale) (svc : Service) : Type 0 where
    pub backend_addr : IsBackend (bytes svc.backend_addr)
    pub https :
        (deref svc.insecure_skip_verify false ≡ false)
        ⊎ (has_prefix (to_lower (bytes svc.backend_addr)) (bytes "https://") ≡ true)
    pub whois : (deref svc.whois_enabled true ≡ false) ⊎ IsTimeout svc.whois_timeout
    pub tls_mode : IsTlsMode svc.tls_mode
    pub startup_timeout : IsPositiveTimeout svc.startup_timeout
    pub read_header_timeout : IsTimeout svc.read_header_timeout
    pub write_timeout : IsTimeout svc.write_timeout
    pub idle_timeout : IsTimeout svc.idle_timeout
    pub response_header_timeout : IsTimeout svc.response_header_timeout
    pub flush_interval : IsFlushInterval svc.flush_interval
    pub listen_addr : (svc.listen_addr ≡ "") ⊎ IsAddr net (bytes svc.listen_addr)
    pub tags : IsTags ts svc

  insecure_error_iff :
      (svc : Service)
      → (insecure_error net svc ≡ none) ↔ (
          (deref svc.insecure_skip_verify false ≡ false)
          ⊎ (has_prefix (to_lower (bytes svc.backend_addr)) (bytes "https://") ≡ true))
  unfolding insecure_error
  insecure_error_iff svc = (λ h. ground arith, λ h. ground arith)

  whois_error_iff :
      (svc : Service)
      → (whois_error net svc ≡ none)
        ↔ ((deref svc.whois_enabled true ≡ false) ⊎ IsTimeout svc.whois_timeout)
  unfolding whois_error
  whois_error_iff svc =
      let (to, from) = validate_timeout_iff "whois_timeout" svc.whois_timeout in
      elim (Bool-cases (deref svc.whois_enabled true)) [
        | inl on ↦ (
          λ h. inr (to (ground arith)),
          λ h. elim h [ inl off ↦ ground arith | inr t ↦ ground (arith, from t) ],
        )
        | inr off ↦ (λ h. inl off, λ h. ground arith)
      ]

  tls_mode_error_iff : (svc : Service) → (tls_mode_error net svc ≡ none) ↔ IsTlsMode svc.tls_mode
  unfolding tls_mode_error
  tls_mode_error_iff svc =
      let (e, e') = str_eq_iff svc.tls_mode "" in
      let (a, a') = str_eq_iff svc.tls_mode "auto" in
      let (o, o') = str_eq_iff svc.tls_mode "off" in
      (λ h. ground (arith, e, e', a, a', o, o'), λ h. ground (arith, e, e', a, a', o, o'))

  listen_error_iff :
      (svc : Service)
      → (listen_error net svc ≡ none)
        ↔ ((svc.listen_addr ≡ "") ⊎ IsAddr net (bytes svc.listen_addr))
  unfolding listen_error
  listen_error_iff svc =
      let (e, e') = str_eq_iff svc.listen_addr "" in
      let (to, from) = validate_addr_iff net (bytes svc.listen_addr) "listen_addr" in
      elim (Bool-cases (str_eq svc.listen_addr "")) [
        | inl empty ↦ (λ h. inl (e empty), λ h. ground arith)
        | inr given ↦ (
          λ h. inr (to (ground arith)),
          λ h. elim h [ inl x ↦ ground (arith, e' x) | inr t ↦ ground (arith, from t) ],
        )
      ]

  tags_error_iff : (ts : Tailscale) (svc : Service) → (tags_error net ts svc ≡ none) ↔ IsTags ts svc
  unfolding tags_error
  tags_error_iff ts svc =
      let (i, i') = str_eq_iff ts.oauth_client_id "" in
      let (s, s') = str_eq_iff ts.oauth_client_secret "" in
      (λ h. ground (arith, i, i', s, s'), λ h. ground (arith, i, i', s, s'))

  pub validate_service_iff :
      (ts : Tailscale) (svc : Service) → (validate_service net ts svc ≡ none) ↔ IsService ts svc
  unfolding validate_service
  validate_service_iff ts svc = (
    λ h.
        let (a, (b, (c, (d, (e, (f, (i, (j, (k, (l, (m, (n, _)))))))))))) =
          (first_error_iff (service_checks net ts svc)).0 h in
        record {
          backend_addr = (validate_backend_address_iff net _).0 a;
          https = (insecure_error_iff svc).0 b;
          whois = (whois_error_iff svc).0 c;
          tls_mode = (tls_mode_error_iff svc).0 d;
          startup_timeout = (validate_timeout_positive_iff _ _).0 e;
          read_header_timeout = (validate_timeout_iff _ _).0 f;
          write_timeout = (validate_timeout_iff _ _).0 i;
          idle_timeout = (validate_timeout_iff _ _).0 j;
          response_header_timeout = (validate_timeout_iff _ _).0 k;
          flush_interval = (validate_flush_iff _ _).0 l;
          listen_addr = (listen_error_iff svc).0 m;
          tags = (tags_error_iff ts svc).0 n;
        },
    λ v. (first_error_iff (service_checks net ts svc)).1 (
      (validate_backend_address_iff net _).1 v.backend_addr,
      (
        (insecure_error_iff svc).1 v.https,
        (
          (whois_error_iff svc).1 v.whois,
          (
            (tls_mode_error_iff svc).1 v.tls_mode,
            (
              (validate_timeout_positive_iff _ _).1 v.startup_timeout,
              (
                (validate_timeout_iff _ _).1 v.read_header_timeout,
                (
                  (validate_timeout_iff _ _).1 v.write_timeout,
                  (
                    (validate_timeout_iff _ _).1 v.idle_timeout,
                    (
                      (validate_timeout_iff _ _).1 v.response_header_timeout,
                      (
                        (validate_flush_iff _ _).1 v.flush_interval,
                        (
                          (listen_error_iff svc).1 v.listen_addr,
                          ((tags_error_iff ts svc).1 v.tags, tt),
                        ),
                      ),
                    ),
                  ),
                ),
              ),
            ),
          ),
        ),
      ),
    ),
  )

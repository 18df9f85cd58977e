-- ===== src/Config/SameSettings.antt =====
-- internal/config/compare.go: which services ServiceConfigEqual regards as equal.
use mathlib.Core.List.{Permᴰ}
use mathlib.Core.List.Permᴰ
use tsbridge.Prelude.Int.{pos, negsuc, eqz, ℤ}
use tsbridge.Prelude.Assoc.{DistinctKeys}
use tsbridge.Prelude.{
  String, List, [], ◌∷◌, Option, none, some, Bool, true, false, ◌≡◌, ◌↔◌, refl, arith, subst, ap,
  deref, str_eq_iff, All,
}
use tsbridge.Config.{Service}
use tsbridge.Config.Compare.{
  bool_eq, option_eq, strings_eq, sort, slices_eq, comparers, all_equal, service_config_equal,
}
use tsbridge.Config.Sorted.{Perm-sort_eq, sort-Perm, length-Perm}
use tsbridge.Config.SameMap.{SameMap, maps_eq_iff}

-- The same settings: those that are given and those that are not, tags in any order, no tags and
-- an empty list of them alike, and the same headers.
pub record SameSettings (a b : Service) : Type 0 where
  pub name : a.name ≡ b.name
  pub backend_addr : a.backend_addr ≡ b.backend_addr
  pub listen_addr : a.listen_addr ≡ b.listen_addr
  pub whois_enabled : a.whois_enabled ≡ b.whois_enabled
  pub whois_timeout : a.whois_timeout ≡ b.whois_timeout
  pub tls_mode : a.tls_mode ≡ b.tls_mode
  pub tags : Permᴰ (deref a.tags []) (deref b.tags [])
  pub startup_timeout : a.startup_timeout ≡ b.startup_timeout
  pub read_header_timeout : a.read_header_timeout ≡ b.read_header_timeout
  pub write_timeout : a.write_timeout ≡ b.write_timeout
  pub idle_timeout : a.idle_timeout ≡ b.idle_timeout
  pub response_header_timeout : a.response_header_timeout ≡ b.response_header_timeout
  pub access_log : a.access_log ≡ b.access_log
  pub max_request_body_size : a.max_request_body_size ≡ b.max_request_body_size
  pub funnel_enabled : a.funnel_enabled ≡ b.funnel_enabled
  pub ephemeral : a.ephemeral ≡ b.ephemeral
  pub oauth_preauthorized : a.oauth_preauthorized ≡ b.oauth_preauthorized
  pub flush_interval : a.flush_interval ≡ b.flush_interval
  pub insecure_skip_verify : a.insecure_skip_verify ≡ b.insecure_skip_verify
  pub upstream_headers : SameMap a.upstream_headers b.upstream_headers
  pub downstream_headers : SameMap a.downstream_headers b.downstream_headers
  pub remove_upstream : a.remove_upstream ≡ b.remove_upstream
  pub remove_downstream : a.remove_downstream ≡ b.remove_downstream

-- Go maps hold each key once.
pub record HasMaps (s : Service) : Type 0 where
  pub upstream_headers : DistinctKeys s.upstream_headers
  pub downstream_headers : DistinctKeys s.downstream_headers

bool_eq_iff : (x y : Bool) → (bool_eq x y ≡ true) ↔ (x ≡ y)
bool_eq_iff true y = ground arith
bool_eq_iff false y = ground arith

eqz_iff : (x y : ℤ) → (eqz x y ≡ true) ↔ (x ≡ y)
eqz_iff (pos m) (pos n) = ground arith
eqz_iff (pos m) (negsuc n) = ground arith
eqz_iff (negsuc m) (pos n) = ground arith
eqz_iff (negsuc m) (negsuc n) = ground arith

option_eq_iff :
    {A : Type 0} (eq : A → A → Bool)
    → ((x y : A) → (eq x y ≡ true) ↔ (x ≡ y))
    → (o p : Option A) → (option_eq eq o p ≡ true) ↔ (o ≡ p)
option_eq_iff eq law none none = (λ h. refl, λ h. refl)
option_eq_iff eq law none (some y) = (λ h. cc, λ h. cc)
option_eq_iff eq law (some x) none = (λ h. cc, λ h. cc)
option_eq_iff eq law (some x) (some y) =
    (λ h. ap some ((law x y).0 h), λ h. (law x y).1 (let same : x ≡ y = cc in same))

strings_eq_iff : (x y : List String) → (strings_eq x y ≡ true) ↔ (x ≡ y)
strings_eq_iff [] [] = (λ h. refl, λ h. refl)
strings_eq_iff [] (b ∷ y) = (λ h. cc, λ h. cc)
strings_eq_iff (a ∷ x) [] = (λ h. cc, λ h. cc)
strings_eq_iff (a ∷ x) (b ∷ y) = ground (arith, str_eq_iff a b, strings_eq_iff x y)

slices_eq_iff : (x y : List String) → (slices_eq (λ xs. xs) x y ≡ true) ↔ (x ≡ y)
unfolding slices_eq
slices_eq_iff [] [] = (λ h. refl, λ h. refl)
slices_eq_iff [] (b ∷ y) = ground arith
slices_eq_iff (a ∷ x) [] = ground arith
slices_eq_iff (a ∷ x) (b ∷ y) = ground (arith, strings_eq_iff (a ∷ x) (b ∷ y))

sort_eq-Perm : (x y : List String) → sort x ≡ sort y → Permᴰ x y
sort_eq-Perm x y e = Permᴰ.trans (subst (Permᴰ x) e (sort-Perm x)) (Permᴰ.symm (sort-Perm y))

tags_eq_iff : (x y : List String) → (slices_eq sort x y ≡ true) ↔ Permᴰ x y
unfolding slices_eq
tags_eq_iff [] [] = (λ h. Permᴰ.nil, λ p. refl)
tags_eq_iff [] (b ∷ y) = (λ h. absurd (ground arith), λ p. absurd (omega (arith, length-Perm p)))
tags_eq_iff (a ∷ x) [] = (λ h. absurd (ground arith), λ p. absurd (omega (arith, length-Perm p)))
tags_eq_iff (a ∷ x) (b ∷ y) = (
  λ h.
      sort_eq-Perm (a ∷ x) (b ∷ y)
        ((strings_eq_iff (sort (a ∷ x)) (sort (b ∷ y))).0 (ground arith)),
  λ p.
      let same = (strings_eq_iff (sort (a ∷ x)) (sort (b ∷ y))).1 (Perm-sort_eq p) in
      ground (arith, length-Perm p, same),
)

all_equal_iff :
    (eqs : List (Service → Service → Bool)) (a b : Service)
    → (all_equal eqs a b ≡ true) ↔ All (λ (eq : Service → Service → Bool). eq a b ≡ true) eqs
all_equal_iff [] a b = (λ h. tt, λ h. refl)
all_equal_iff (eq ∷ eqs) a b = (
  λ h. (ground arith, (all_equal_iff eqs a b).0 (ground arith)),
  λ (e, es). let rest = (all_equal_iff eqs a b).1 es in ground arith,
)

-- ServiceConfigEqual of two services whose header maps hold each key once returns true exactly if
-- all 23 fields are the same: tags in any order, no tags and an empty list of them alike, headers as
-- maps, removed headers in order, optional settings given in both or in neither.
pub service_config_equal_iff :
    (a b : Service) → HasMaps a → HasMaps b → (service_config_equal a b ≡ true) ↔ SameSettings a b
unfolding service_config_equal
service_config_equal_iff a b da db =
    (λ h. same ((all_equal_iff comparers a b).0 h), λ s. (all_equal_iff comparers a b).1 (back s))
  where
    same : All (λ (eq : Service → Service → Bool). eq a b ≡ true) comparers → SameSettings a b
    same h = record {
      name = (str_eq_iff a.name b.name).0 h.0;
      backend_addr = (str_eq_iff a.backend_addr b.backend_addr).0 h.1.0;
      listen_addr = (str_eq_iff a.listen_addr b.listen_addr).0 h.1.1.0;
      whois_enabled =
          (option_eq_iff bool_eq bool_eq_iff a.whois_enabled b.whois_enabled).0 h.1.1.1.0;
      whois_timeout = (option_eq_iff eqz eqz_iff a.whois_timeout b.whois_timeout).0 h.1.1.1.1.0;
      tls_mode = (str_eq_iff a.tls_mode b.tls_mode).0 h.1.1.1.1.1.0;
      tags = (tags_eq_iff (deref a.tags []) (deref b.tags [])).0 h.1.1.1.1.1.1.0;
      startup_timeout =
          (option_eq_iff eqz eqz_iff a.startup_timeout b.startup_timeout).0 h.1.1.1.1.1.1.1.0;
      read_header_timeout =
          (option_eq_iff eqz eqz_iff a.read_header_timeout b.read_header_timeout).0
            h.1.1.1.1.1.1.1.1.0;
      write_timeout =
          (option_eq_iff eqz eqz_iff a.write_timeout b.write_timeout).0 h.1.1.1.1.1.1.1.1.1.0;
      idle_timeout =
          (option_eq_iff eqz eqz_iff a.idle_timeout b.idle_timeout).0 h.1.1.1.1.1.1.1.1.1.1.0;
      response_header_timeout =
          (option_eq_iff eqz eqz_iff a.response_header_timeout b.response_header_timeout).0
            h.1.1.1.1.1.1.1.1.1.1.1.0;
      access_log =
          (option_eq_iff bool_eq bool_eq_iff a.access_log b.access_log).0
            h.1.1.1.1.1.1.1.1.1.1.1.1.0;
      max_request_body_size =
          (option_eq_iff eqz eqz_iff a.max_request_body_size b.max_request_body_size).0
            h.1.1.1.1.1.1.1.1.1.1.1.1.1.0;
      funnel_enabled =
          (option_eq_iff bool_eq bool_eq_iff a.funnel_enabled b.funnel_enabled).0
            h.1.1.1.1.1.1.1.1.1.1.1.1.1.1.0;
      ephemeral = (bool_eq_iff a.ephemeral b.ephemeral).0 h.1.1.1.1.1.1.1.1.1.1.1.1.1.1.1.0;
      oauth_preauthorized =
          (option_eq_iff bool_eq bool_eq_iff a.oauth_preauthorized b.oauth_preauthorized).0
            h.1.1.1.1.1.1.1.1.1.1.1.1.1.1.1.1.0;
      flush_interval =
          (option_eq_iff eqz eqz_iff a.flush_interval b.flush_interval).0
            h.1.1.1.1.1.1.1.1.1.1.1.1.1.1.1.1.1.0;
      insecure_skip_verify =
          (option_eq_iff bool_eq bool_eq_iff a.insecure_skip_verify b.insecure_skip_verify).0
            h.1.1.1.1.1.1.1.1.1.1.1.1.1.1.1.1.1.1.0;
      upstream_headers =
          (maps_eq_iff a.upstream_headers b.upstream_headers da.upstream_headers
              db.upstream_headers).0
            h.1.1.1.1.1.1.1.1.1.1.1.1.1.1.1.1.1.1.1.0;
      downstream_headers =
          (maps_eq_iff a.downstream_headers b.downstream_headers da.downstream_headers
              db.downstream_headers).0
            h.1.1.1.1.1.1.1.1.1.1.1.1.1.1.1.1.1.1.1.1.0;
      remove_upstream =
          (slices_eq_iff a.remove_upstream b.remove_upstream).0
            h.1.1.1.1.1.1.1.1.1.1.1.1.1.1.1.1.1.1.1.1.1.0;
      remove_downstream =
          (slices_eq_iff a.remove_downstream b.remove_downstream).0
            h.1.1.1.1.1.1.1.1.1.1.1.1.1.1.1.1.1.1.1.1.1.1.0;
    }

    back : SameSettings a b → All (λ (eq : Service → Service → Bool). eq a b ≡ true) comparers
    back s = (
      (str_eq_iff a.name b.name).1 s.name,
      (
        (str_eq_iff a.backend_addr b.backend_addr).1 s.backend_addr,
        (
          (str_eq_iff a.listen_addr b.listen_addr).1 s.listen_addr,
          (
            (option_eq_iff bool_eq bool_eq_iff a.whois_enabled b.whois_enabled).1 s.whois_enabled,
            (
              (option_eq_iff eqz eqz_iff a.whois_timeout b.whois_timeout).1 s.whois_timeout,
              (
                (str_eq_iff a.tls_mode b.tls_mode).1 s.tls_mode,
                (
                  (tags_eq_iff (deref a.tags []) (deref b.tags [])).1 s.tags,
                  (
                    (option_eq_iff eqz eqz_iff a.startup_timeout b.startup_timeout).1
                        s.startup_timeout,
                    (
                      (option_eq_iff eqz eqz_iff a.read_header_timeout b.read_header_timeout).1
                          s.read_header_timeout,
                      (
                        (option_eq_iff eqz eqz_iff a.write_timeout b.write_timeout).1
                            s.write_timeout,
                        (
                          (option_eq_iff eqz eqz_iff a.idle_timeout b.idle_timeout).1
                              s.idle_timeout,
                          (
                            (option_eq_iff eqz eqz_iff a.response_header_timeout
                                  b.response_header_timeout).1
                                s.response_header_timeout,
                            (
                              (option_eq_iff bool_eq bool_eq_iff a.access_log b.access_log).1
                                  s.access_log,
                              (
                                (option_eq_iff eqz eqz_iff a.max_request_body_size
                                      b.max_request_body_size).1
                                    s.max_request_body_size,
                                (
                                  (option_eq_iff bool_eq bool_eq_iff a.funnel_enabled
                                        b.funnel_enabled).1
                                      s.funnel_enabled,
                                  (
                                    (bool_eq_iff a.ephemeral b.ephemeral).1 s.ephemeral,
                                    (
                                      (option_eq_iff bool_eq bool_eq_iff a.oauth_preauthorized
                                            b.oauth_preauthorized).1
                                          s.oauth_preauthorized,
                                      (
                                        (option_eq_iff eqz eqz_iff a.flush_interval
                                              b.flush_interval).1
                                            s.flush_interval,
                                        (
                                          (option_eq_iff bool_eq bool_eq_iff a.insecure_skip_verify
                                                b.insecure_skip_verify).1
                                              s.insecure_skip_verify,
                                          (
                                            (maps_eq_iff a.upstream_headers b.upstream_headers
                                                  da.upstream_headers db.upstream_headers).1
                                                s.upstream_headers,
                                            (
                                              (maps_eq_iff a.downstream_headers b.downstream_headers
                                                    da.downstream_headers db.downstream_headers).1
                                                  s.downstream_headers,
                                              (
                                                (slices_eq_iff a.remove_upstream
                                                      b.remove_upstream).1
                                                    s.remove_upstream,
                                                (
                                                  (slices_eq_iff a.remove_downstream
                                                        b.remove_downstream).1
                                                      s.remove_downstream,
                                                  tt,
                                                ),
                                              ),
                                            ),
                                          ),
                                        ),
                                      ),
                                    ),
                                  ),
                                ),
                              ),
                            ),
                          ),
                        ),
                      ),
                    ),
                  ),
                ),
              ),
            ),
          ),
        ),
      ),
    )

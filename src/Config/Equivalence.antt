-- ===== src/Config/Equivalence.antt =====
-- About ServiceConfigEqual and the comparisons of its fields.
use tsbridge.Prelude.Int.{pos, negsuc, eqz}
use tsbridge.Prelude.Assoc.{lookup}
use tsbridge.Prelude.{
  String, List, [], ◌∷◌, none, some, Bool, true, false, all, deref, str_eq, str_eq_iff, ◌≡◌, refl,
  arith, All, Bool-cases, Option-cases, inl, inr,
}
use tsbridge.Config.{Service}
use tsbridge.Config.Compare.{
  bool_eq, option_eq, strings_eq, sort, slices_eq, deep_equal, maps_eq, on, comparers, all_equal,
  service_config_equal,
}

abbrev Transitive : {A : Type 0} → (A → A → Bool) → Type 0
Transitive {A} eq = (a b d : A) → eq a b ≡ true → eq b d ≡ true → eq a d ≡ true

str_eq_trans : Transitive str_eq
str_eq_trans a b d h k = ground (arith, str_eq_iff a b, str_eq_iff b d, str_eq_iff a d)

bool_eq_trans : Transitive bool_eq
bool_eq_trans true b d h k = ground arith
bool_eq_trans false b d h k = ground arith

eqz_trans : Transitive eqz
eqz_trans (pos a) b d h k = ground arith
eqz_trans (negsuc a) b d h k = ground arith

option_eq_trans : {A : Type 0} (eq : A → A → Bool) → Transitive eq → Transitive (option_eq eq)
option_eq_trans eq t none none d h k = k
option_eq_trans eq t (some a) (some b) (some d) h k = t a b d h k
option_eq_trans eq t none (some b) d h k = cc
option_eq_trans eq t (some a) none d h k = cc
option_eq_trans eq t (some a) (some b) none h k = cc

strings_eq_trans : Transitive strings_eq
strings_eq_trans [] [] d h k = k
strings_eq_trans (x ∷ xs) (y ∷ ys) (z ∷ zs) h k =
    ground (arith, str_eq_trans x y z, strings_eq_trans xs ys zs)
strings_eq_trans [] (y ∷ ys) d h k = cc
strings_eq_trans (x ∷ xs) [] d h k = cc
strings_eq_trans (x ∷ xs) (y ∷ ys) [] h k = cc

slices_eq_trans : (order : List String → List String) → Transitive (slices_eq order)
unfolding slices_eq
slices_eq_trans order [] [] z h k = k
slices_eq_trans order [] (b ∷ y) z h k = ground arith
slices_eq_trans order (a ∷ x) [] z h k = ground arith
slices_eq_trans order (a ∷ x) (b ∷ y) [] h k = ground arith
slices_eq_trans order (a ∷ x) (b ∷ y) (d ∷ z) h k =
    ground (arith, strings_eq_trans (order (a ∷ x)) (order (b ∷ y)) (order (d ∷ z)))

has_trans :
    (j v : String) (y z : List (String × String))
    → option_eq str_eq (lookup j y) (some v) ≡ true
    → all (λ (k, w). option_eq str_eq (lookup k z) (some w)) y ≡ true
    → option_eq str_eq (lookup j z) (some v) ≡ true
unfolding lookup
has_trans j v [] z h k = cc
has_trans j v ((i, w) ∷ y) z h k = elim (Bool-cases (str_eq i j)) [
  | inr there ↦ has_trans j v y z (ground arith) (ground arith)
  | inl here ↦
      let same = (str_eq_iff i j).0 here in
      elim (Option-cases (lookup i z)) [
        | inl missing ↦ ground arith
        | inr (u, found) ↦ ground (arith, str_eq_trans u w v, same)
      ]
]

all_has_trans :
    (x y z : List (String × String))
    → all (λ (k, v). option_eq str_eq (lookup k y) (some v)) x ≡ true
    → all (λ (k, v). option_eq str_eq (lookup k z) (some v)) y ≡ true
    → all (λ (k, v). option_eq str_eq (lookup k z) (some v)) x ≡ true
all_has_trans [] y z h k = refl
all_has_trans ((j, v) ∷ x) y z h k =
    let first = has_trans j v y z (ground arith) k in
    let rest = all_has_trans x y z (ground arith) k in ground (arith, first, rest)

deep_equal_trans : Transitive deep_equal
unfolding deep_equal
deep_equal_trans x y z h k =
    let every = all_has_trans x y z (ground arith) (ground arith) in ground (arith, every)

maps_eq_trans : Transitive maps_eq
unfolding maps_eq
maps_eq_trans [] [] z h k = k
maps_eq_trans [] (b ∷ y) [] h k = refl
maps_eq_trans [] (b ∷ y) (d ∷ z) h k = deep_equal_trans [] (b ∷ y) (d ∷ z) h k
maps_eq_trans (a ∷ x) [] [] h k = deep_equal_trans (a ∷ x) [] [] h refl
maps_eq_trans (a ∷ x) [] (d ∷ z) h k = deep_equal_trans (a ∷ x) [] (d ∷ z) h k
maps_eq_trans (a ∷ x) (b ∷ y) z h k = deep_equal_trans (a ∷ x) (b ∷ y) z h k

all_equal_trans :
    (eqs : List (Service → Service → Bool)) → All Transitive eqs → Transitive (all_equal eqs)
all_equal_trans [] t a b d h k = refl
all_equal_trans (eq ∷ eqs) (t, ts) a b d h k = ground (arith, t a b d, all_equal_trans eqs ts a b d)

-- A comparison of one field.
on_trans :
    {A : Type 0} (field : Service → A) (eq : A → A → Bool)
    → Transitive eq
    → Transitive (on field eq)
on_trans field eq t a b d = t (field a) (field b) (field d)

comparers_trans : All Transitive comparers
comparers_trans = (
  on_trans (λ (s : Service). s.name) str_eq str_eq_trans,
  (
    on_trans (λ (s : Service). s.backend_addr) str_eq str_eq_trans,
    (
      on_trans (λ (s : Service). s.listen_addr) str_eq str_eq_trans,
      (
        on_trans (λ (s : Service). s.whois_enabled) (option_eq bool_eq)
            (option_eq_trans bool_eq bool_eq_trans),
        (
          on_trans (λ (s : Service). s.whois_timeout) (option_eq eqz)
              (option_eq_trans eqz eqz_trans),
          (
            on_trans (λ (s : Service). s.tls_mode) str_eq str_eq_trans,
            (
              on_trans (λ (s : Service). deref s.tags []) (slices_eq sort) (slices_eq_trans sort),
              (
                on_trans (λ (s : Service). s.startup_timeout) (option_eq eqz)
                    (option_eq_trans eqz eqz_trans),
                (
                  on_trans (λ (s : Service). s.read_header_timeout) (option_eq eqz)
                      (option_eq_trans eqz eqz_trans),
                  (
                    on_trans (λ (s : Service). s.write_timeout) (option_eq eqz)
                        (option_eq_trans eqz eqz_trans),
                    (
                      on_trans (λ (s : Service). s.idle_timeout) (option_eq eqz)
                          (option_eq_trans eqz eqz_trans),
                      (
                        on_trans (λ (s : Service). s.response_header_timeout) (option_eq eqz)
                            (option_eq_trans eqz eqz_trans),
                        (
                          on_trans (λ (s : Service). s.access_log) (option_eq bool_eq)
                              (option_eq_trans bool_eq bool_eq_trans),
                          (
                            on_trans (λ (s : Service). s.max_request_body_size) (option_eq eqz)
                                (option_eq_trans eqz eqz_trans),
                            (
                              on_trans (λ (s : Service). s.funnel_enabled) (option_eq bool_eq)
                                  (option_eq_trans bool_eq bool_eq_trans),
                              (
                                on_trans (λ (s : Service). s.ephemeral) bool_eq bool_eq_trans,
                                (
                                  on_trans (λ (s : Service). s.oauth_preauthorized)
                                      (option_eq bool_eq) (option_eq_trans bool_eq bool_eq_trans),
                                  (
                                    on_trans (λ (s : Service). s.flush_interval) (option_eq eqz)
                                        (option_eq_trans eqz eqz_trans),
                                    (
                                      on_trans (λ (s : Service). s.insecure_skip_verify)
                                          (option_eq bool_eq)
                                          (option_eq_trans bool_eq bool_eq_trans),
                                      (
                                        on_trans (λ (s : Service). s.upstream_headers) maps_eq
                                            maps_eq_trans,
                                        (
                                          on_trans (λ (s : Service). s.downstream_headers) maps_eq
                                              maps_eq_trans,
                                          (
                                            on_trans (λ (s : Service). s.remove_upstream)
                                                (slices_eq (λ xs. xs)) (slices_eq_trans (λ xs. xs)),
                                            (
                                              on_trans (λ (s : Service). s.remove_downstream)
                                                  (slices_eq (λ xs. xs))
                                                  (slices_eq_trans (λ xs. xs)),
                                              tt,
                                            ),
                                          ),
                                        ),
                                      ),
                                    ),
                                  ),
                                ),
                              ),
                            ),
                          ),
                        ),
                      ),
                    ),
                  ),
                ),
              ),
            ),
          ),
        ),
      ),
    ),
  ),
)

-- ServiceConfigEqual is transitive: a service that equals a second, which equals a third, equals
-- the third.
pub service_config_equal_trans :
    (a b d : Service)
    → service_config_equal a b ≡ true
    → service_config_equal b d ≡ true
    → service_config_equal a d ≡ true
unfolding service_config_equal
service_config_equal_trans = all_equal_trans comparers comparers_trans

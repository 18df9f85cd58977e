-- ===== src/Config/Compare.antt =====
-- internal/config/compare.go: ServiceConfigEqual.
-- `cmp.Equal` compares two structs field by field, pointers by what they point to. The maps hold
-- each key once.
use Prim.Native.Nat.{Ordering}
use Prim.Native.String.{compare}
use tsbridge.Prelude.Int.{eqz}
use tsbridge.Prelude.Assoc.{lookup}
use tsbridge.Prelude.{
  String, List, [], ◌∷◌, Option, none, some, Bool, true, false, ◌&&◌, not, is_empty, length, all,
  deref, ◌==◌, if◌then◌else◌, str_eq,
}
use tsbridge.Config.{Service}

abbrev pub bool_eq : Bool → Bool → Bool
bool_eq true b = b
bool_eq false b = not b

abbrev pub option_eq : {A : Type 0} → (A → A → Bool) → Option A → Option A → Bool
option_eq eq none none = true
option_eq eq (some a) (some b) = eq a b
option_eq eq none (some b) = false
option_eq eq (some a) none = false

-- `slices.Equal`
abbrev pub strings_eq : List String → List String → Bool
strings_eq [] [] = true
strings_eq (x ∷ xs) (y ∷ ys) = str_eq x y && strings_eq xs ys
strings_eq [] (y ∷ ys) = false
strings_eq (x ∷ xs) [] = false

unfoldable pub insert_sorted : String → List String → List String
insert_sorted s [] = s ∷ []
insert_sorted s (t ∷ ts) =
    let rest = insert_sorted s ts in elim (compare s t) [ Ordering.gt ↦ t ∷ rest | _ ↦ s ∷ t ∷ ts ]

-- `slices.Sort` of a copy.
unfoldable pub sort : List String → List String
unfolding insert_sorted
sort [] = []
sort (s ∷ ss) = insert_sorted s (sort ss)

-- The comparers of slices, after a change of order that they allow.
unfoldable pub slices_eq : (List String → List String) → List String → List String → Bool
slices_eq order x y =
    if is_empty x && is_empty y
    then true
    else if not (length x == length y)
    then false
    else strings_eq (order x) (order y)

-- `reflect.DeepEqual` of two maps.
unfoldable pub deep_equal : List (String × String) → List (String × String) → Bool
deep_equal x y = (length x == length y) && all (λ (k, v). option_eq str_eq (lookup k y) (some v)) x

unfoldable pub maps_eq : List (String × String) → List (String × String) → Bool
unfolding deep_equal
maps_eq x y = if is_empty x && is_empty y then true else deep_equal x y

-- The comparison of one field.
abbrev pub on : {A : Type 0} → (Service → A) → (A → A → Bool) → Service → Service → Bool
on field eq a b = eq (field a) (field b)

abbrev pub comparers : List (Service → Service → Bool)
comparers =
    on (λ s. s.name) str_eq
    ∷ on (λ s. s.backend_addr) str_eq
    ∷ on (λ s. s.listen_addr) str_eq
    ∷ on (λ s. s.whois_enabled) (option_eq bool_eq)
    ∷ on (λ s. s.whois_timeout) (option_eq eqz)
    ∷ on (λ s. s.tls_mode) str_eq
    ∷ on (λ s. deref s.tags []) (slices_eq sort)
    ∷ on (λ s. s.startup_timeout) (option_eq eqz)
    ∷ on (λ s. s.read_header_timeout) (option_eq eqz)
    ∷ on (λ s. s.write_timeout) (option_eq eqz)
    ∷ on (λ s. s.idle_timeout) (option_eq eqz)
    ∷ on (λ s. s.response_header_timeout) (option_eq eqz)
    ∷ on (λ s. s.access_log) (option_eq bool_eq)
    ∷ on (λ s. s.max_request_body_size) (option_eq eqz)
    ∷ on (λ s. s.funnel_enabled) (option_eq bool_eq)
    ∷ on (λ s. s.ephemeral) bool_eq
    ∷ on (λ s. s.oauth_preauthorized) (option_eq bool_eq)
    ∷ on (λ s. s.flush_interval) (option_eq eqz)
    ∷ on (λ s. s.insecure_skip_verify) (option_eq bool_eq)
    ∷ on (λ s. s.upstream_headers) maps_eq
    ∷ on (λ s. s.downstream_headers) maps_eq
    ∷ on (λ s. s.remove_upstream) (slices_eq (λ xs. xs))
    ∷ on (λ s. s.remove_downstream) (slices_eq (λ xs. xs))
    ∷ []

abbrev pub all_equal : List (Service → Service → Bool) → Service → Service → Bool
all_equal [] a b = true
all_equal (eq ∷ eqs) a b = eq a b && all_equal eqs a b

unfoldable pub service_config_equal : Service → Service → Bool
service_config_equal = all_equal comparers

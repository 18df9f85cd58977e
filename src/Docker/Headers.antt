-- ===== src/Docker/Headers.antt =====
-- About the headers that labels set.
use Prim.Native.Char.{code}
use Prim.Native.String.{◌++◌ as append}
use tsbridge.Prelude.Assoc.{All-insert}
use tsbridge.Prelude.Text.{all_text, cut_text}
use tsbridge.Prelude.{
  ℕ, ◌<◌, String, List, [], ◌∷◌, none, some, Bool, true, not, All, ◌≡◌, ◌≢◌, arith, str_eq_iff,
  Bool-cases, subst, inl, inr,
}
use tsbridge.Errors.{ok, Result-cases}
use tsbridge.Config.{Service}
use tsbridge.Config.Hostname.{IsLabelChar, is_alpha_num}
use tsbridge.Docker.{Container}
use tsbridge.Docker.Labels.{
  LabelParser, get_headers, collect_headers, take_header, add_header, is_valid_header_name,
  is_valid_header_value, is_header_name_char, is_control_char, dotted,
}
use tsbridge.Docker.Parse.{
  Readers, parse_service_config, service_name, checked_backend_addr, parser_of, labelled_service,
}

abbrev AllText : (ℕ → Type 0) → String → Type 0
AllText P String.[] = Unit
AllText P (String.◌∷◌ c s) = P (code c) × AllText P s

-- No control character and no DEL.
abbrev IsPrintable : ℕ → Type 0
IsPrintable c = (31 < c) × (c ≢ 127)

-- A name of letters, digits, `-` and `_`, and a value without control characters.
abbrev pub IsSafeHeader : String × String → Type 0
IsSafeHeader (name, value) = (name ≢ "") × AllText IsLabelChar name × AllText IsPrintable value

all_text-AllText :
    (p : ℕ → Bool) (P : ℕ → Type 0)
    → ((c : ℕ) → p c ≡ true → P c)
    → (s : String) → all_text p s ≡ true
    → AllText P s
all_text-AllText p P h String.[] e = tt
all_text-AllText p P h (String.◌∷◌ c s) e =
    (h (code c) (ground arith), all_text-AllText p P h s (ground arith))

header_char : (c : ℕ) → is_header_name_char c ≡ true → IsLabelChar c
unfolding is_alpha_num
header_char c h = ground arith

printable : (c : ℕ) → not (is_control_char c) ≡ true → IsPrintable c
printable c h = ground arith

valid_header :
    (name value : String)
    → is_valid_header_name name ≡ true
    → is_valid_header_value value ≡ true
    → IsSafeHeader (name, value)
unfolding is_valid_header_name is_valid_header_value
valid_header name value h k = (
  ground (arith, str_eq_iff name ""),
  all_text-AllText is_header_name_char IsLabelChar header_char name (ground arith),
  all_text-AllText (λ c. not (is_control_char c)) IsPrintable printable value k,
)

add_header-All :
    (name value : String) (m : List (String × String))
    → All IsSafeHeader m
    → All IsSafeHeader (add_header name value m)
unfolding add_header
add_header-All name value m h = elim (Bool-cases (is_valid_header_name name)) [
  | inr bad ↦ rw (bad, All) h
  | inl fine ↦ elim (Bool-cases (is_valid_header_value value)) [
    | inr bad ↦ rw (fine, bad, All) h
    | inl good ↦
        rw (fine, good, All)
          (All-insert IsSafeHeader name value m (valid_header name value fine good) h)
  ]
]

take_header-All :
    (full_prefix label value : String) (m : List (String × String))
    → All IsSafeHeader m
    → All IsSafeHeader (take_header full_prefix label value m)
unfolding take_header
take_header-All full_prefix label value m h =
    elim (cut_text label full_prefix)
      as (λ found.
        All IsSafeHeader (elim found [ none ↦ m | some name ↦ add_header name value m ])) [
          | none ↦ h
          | some name ↦ add_header-All name value m h
        ]

collect_headers-All :
    (full_prefix : String) (m labels : List (String × String))
    → All IsSafeHeader m
    → All IsSafeHeader (collect_headers full_prefix m labels)
unfolding collect_headers
collect_headers-All full_prefix m [] h = h
collect_headers-All full_prefix m ((label, value) ∷ labels) h =
    collect_headers-All full_prefix (take_header full_prefix label value m) labels
      (take_header-All full_prefix label value m h)

get_headers-All : (p : LabelParser) (key : String) → All IsSafeHeader (get_headers p key)
unfolding get_headers
get_headers-All p key = collect_headers-All (dotted p.prefix (append key ".")) [] p.labels tt

-- Whatever the labels of a container say, every header that its service sets in requests or
-- responses has a name of letters, digits, `-` and `_` and a value without control characters.
pub parse_service_config-AllSafe :
    (rd : Readers) (label_prefix : String) (c : Container) (svc : Service)
    → parse_service_config rd label_prefix c ≡ ok svc
    → All IsSafeHeader svc.upstream_headers × All IsSafeHeader svc.downstream_headers
unfolding parse_service_config
parse_service_config-AllSafe rd label_prefix c svc h =
    let p = parser_of c label_prefix in
    elim (Result-cases (service_name p c)) [
      | inl (e, failed) ↦ absurd (ground arith)
      | inr (name, named) ↦ elim (Result-cases (checked_backend_addr rd p c)) [
        | inl (e, failed) ↦ absurd (ground arith)
        | inr (addr, checked) ↦
            let same : labelled_service rd p name addr ≡ svc = ground arith in
            subst
              (λ (s : Service).
                All IsSafeHeader s.upstream_headers × All IsSafeHeader s.downstream_headers)
              same
              (
                get_headers-All p "service.upstream_headers",
                get_headers-All p "service.downstream_headers",
              )
      ]
    ]

-- ===== src/Docker/Labels.antt =====
-- internal/docker/labels.go: labelParser and its getters.
-- The map of labels is an association list; `parse_duration` is `time.ParseDuration`.
use Prim.Native.String.{◌++◌ as append}
use tsbridge.Prelude.Int.{ℤ}
use tsbridge.Prelude.Assoc.{lookup, insert}
use tsbridge.Prelude.Bytes.{bytes}
use tsbridge.Prelude.Decimal.{atoi}
use tsbridge.Prelude.Text.{all_text, cut_text, parse_bool, split_text}
use tsbridge.Prelude.{
  ℕ, String, List, [], ◌∷◌, map, Option, none, some, Bool, ◌&&◌, ◌||◌, not, deref, leb, ◌==◌,
  if◌then◌else◌, str_eq,
}
use tsbridge.Errors.{ok, err}
use tsbridge.Config.Hostname.{is_alpha_num}
use tsbridge.Config.Credentials.{trim_space}
use tsbridge.Config.ByteSize.{Floats, parse_byte_size_string}

-- `headerNameRegex`
abbrev pub is_header_name_char : ℕ → Bool
is_header_name_char c = is_alpha_num c || (c == b'-' || c == b'_')

unfoldable pub is_valid_header_name : String → Bool
unfolding is_alpha_num
is_valid_header_name name = not (str_eq name "") && all_text is_header_name_char name

-- `controlCharRegex`
abbrev pub is_control_char : ℕ → Bool
is_control_char c = leb c 31 || c == 127

unfoldable pub is_valid_header_value : String → Bool
is_valid_header_value value = all_text (λ c. not (is_control_char c)) value

pub record LabelParser : Type 0 where
  pub labels : List (String × String)
  pub prefix : String

-- `fmt.Sprintf("%s.%s", prefix, key)`
abbrev pub dotted : String → String → String
dotted prefix key = append prefix (append "." key)

unfoldable pub parse_string_slice : String → ℕ → Option (List String)
parse_string_slice value separator =
    if str_eq value "" then none else some (map trim_space (split_text separator value))

-- The validation of a header that a label sets.
unfoldable pub add_header :
    (header_name value : String) → List (String × String) → List (String × String)
unfolding is_valid_header_name is_valid_header_value
add_header header_name value headers =
    if not (is_valid_header_name header_name)
    then headers
    else if not (is_valid_header_value value)
    then headers
    else insert header_name value headers

-- One round of the loop over the labels.
unfoldable pub take_header :
    String → (label value : String) → List (String × String) → List (String × String)
unfolding add_header
take_header full_prefix label value headers = elim (cut_text label full_prefix) [
  | none ↦ headers
  | some header_name ↦ add_header header_name value headers
]

unfoldable pub collect_headers :
    String → List (String × String) → List (String × String) → List (String × String)
unfolding take_header
collect_headers full_prefix headers [] = headers
collect_headers full_prefix headers ((label, value) ∷ later) =
    collect_headers full_prefix (take_header full_prefix label value headers) later

module _ (p : LabelParser) where
  unfoldable pub get_string : String → String
  get_string key = deref (lookup (dotted p.prefix key) p.labels) ""

  -- A value that is missing or that does not parse is nil.
  unfoldable pub get_bool : String → Option Bool
  unfolding get_string parse_bool
  get_bool key = let value = get_string key in if str_eq value "" then none else parse_bool value

  unfoldable pub get_int : String → Option ℤ
  unfolding get_string
  get_int key = let value = get_string key in if str_eq value "" then none else atoi (bytes value)

  unfoldable pub get_duration : (String → Option ℤ) → String → Option ℤ
  unfolding get_string
  get_duration parse_duration key =
      let value = get_string key in if str_eq value "" then none else parse_duration value

  unfoldable pub get_byte_size : Floats → String → Option ℤ
  unfolding get_string
  get_byte_size floats key =
      let value = get_string key in
      if str_eq value ""
      then none
      else elim (parse_byte_size_string floats value) [ err e ↦ none | ok result ↦ some result ]

  unfoldable pub get_string_slice : String → ℕ → Option (List String)
  unfolding get_string parse_string_slice
  get_string_slice key separator = parse_string_slice (get_string key) separator

  -- An empty map is nil.
  unfoldable pub get_headers : String → List (String × String)
  unfolding collect_headers
  get_headers key = collect_headers (dotted p.prefix (append key ".")) [] p.labels

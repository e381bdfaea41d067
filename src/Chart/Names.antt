-- ===== src/Chart/Names.antt =====
-- validate_name.go of pkg/chart/v2/util: which names a release may have.
pub mod Valid
use aws_ecommerce_k8s.Base.{
  ℕ, ltb, leb, ◌==◌, not, Bool, ◌&&◌, ◌||◌, Option, none, some, [], length, if◌then◌else◌,
}
use aws_ecommerce_k8s.Base.Bytes.{Bytes, bytes, str_eq}
use aws_ecommerce_k8s.Base.Regexp.{Regexp, class, seq, many, optional, match_string}

pub data NameError : Type 0 where
  missing_name invalid_name invalid_kubernetes_name : NameError

-- `[a-z0-9]`, `[-a-z0-9]` and `\.`, by character codes.
abbrev pub is_alphanumeric : ℕ → Bool
is_alphanumeric c = leb 97 c && leb c 122 || leb 48 c && leb c 57

abbrev is_inner : ℕ → Bool
is_inner c = c == 45 || is_alphanumeric c

abbrev is_dot : ℕ → Bool
is_dot c = c == 46

-- `[a-z0-9]([-a-z0-9]*[a-z0-9])?`
abbrev pub label_part : Regexp
label_part =
    seq (class is_alphanumeric) (optional (seq (many (class is_inner)) (class is_alphanumeric)))

abbrev pub valid_name : Regexp
valid_name = seq label_part (many (seq (class is_dot) label_part))

abbrev pub max_release_name_len : ℕ
max_release_name_len = 53

abbrev pub max_metadata_name_len : ℕ
max_metadata_name_len = 253

unfoldable pub validate_release_name : Bytes → Option NameError
unfolding match_string
validate_release_name name =
    if str_eq name []
    then some missing_name
    else if ltb max_release_name_len (length name) || not (match_string valid_name name)
    then some invalid_name
    else none

unfoldable pub validate_metadata_name : Bytes → Option NameError
unfolding match_string
validate_metadata_name name =
    if str_eq name []
      || ltb max_metadata_name_len (length name)
      || not (match_string valid_name name)
    then some invalid_kubernetes_name
    else none

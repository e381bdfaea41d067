-- ===== src/Tests/Names.antt =====
-- Names and keys that are accepted and refused.
use aws_ecommerce_k8s.Base.{◌≡◌, ◌≤◌, refl, true, none, some, [], All, arith}
use aws_ecommerce_k8s.Base.Bytes.{bytes, str_eq, contains}
use aws_ecommerce_k8s.Base.Int.{pos}
use aws_ecommerce_k8s.Base.Regexp.{match_string, derivative, nullable}
use aws_ecommerce_k8s.Chart.Names.{
  validate_release_name, validate_metadata_name, missing_name, invalid_name,
}
use aws_ecommerce_k8s.Chart.Names.Valid.{
  is_name_char, starts_alphanumeric, validate_release_name_lem,
}
use aws_ecommerce_k8s.Driver.Memory.{key_name}
use aws_ecommerce_k8s.Storage.Key.{make_key}
use aws_ecommerce_k8s.Storage.Key.Laws.{key_name-make_key}

empty_name : validate_release_name [] ≡ some missing_name
unfolding validate_release_name str_eq
empty_name = refl

trailing_dash : validate_release_name (bytes "shop-") ≡ some invalid_name
unfolding validate_release_name match_string derivative nullable str_eq
trailing_dash = refl

validate_release_name_example :
    (1 ≤ 7)
    × (7 ≤ 53)
    × All (λ c. is_name_char c ≡ true) (bytes "shop.v1")
    × (starts_alphanumeric (bytes "shop.v1") ≡ true)
    × (validate_metadata_name (bytes "shop.v1") ≡ none)
validate_release_name_example =
    validate_release_name_lem (bytes "shop.v1")
      (unfold validate_release_name match_string derivative nullable str_eq in refl)

key_name-make_key_example : key_name (make_key (bytes "shop") (pos 12)) ≡ some (bytes "shop")
key_name-make_key_example =
    key_name-make_key (bytes "shop") (pos 12) (unfold contains in refl) (omega arith)

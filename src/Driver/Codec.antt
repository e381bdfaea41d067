-- ===== src/Driver/Codec.antt =====
-- util.go of pkg/storage/driver: the encoding of a release as text, and the labels of the system.
pub mod Laws
use aws_ecommerce_k8s.Base.{
  Bool, true, false, List, [], ◌∷◌, length, take, if◌then◌else◌, ltb, ◌&&◌, not,
}
use aws_ecommerce_k8s.Base.Bytes.{Bytes, bytes, str_eq, slice_contains}
use aws_ecommerce_k8s.Base.Assoc.{Assoc}
use aws_ecommerce_k8s.Release.Defs.{Release}
use aws_ecommerce_k8s.Driver.Errors.{Result, ok, err}
use aws_ecommerce_k8s.Driver.Labels

-- The encoders of Go's packages encoding/json, compress/gzip and encoding/base64, at the calls here.
pub record Encoders : Type 0 where
  pub marshal : Release → Result Bytes
  pub unmarshal : Bytes → Result Release
  pub deflate : Bytes → Result Bytes
  pub inflate : Bytes → Result Bytes
  pub encode_to_string : Bytes → Bytes
  pub decode_string : Bytes → Result Bytes

-- Passes a result on, or returns its error.
abbrev pub then_result : {A B : Type 0} → Result A → (A → Result B) → Result B
then_result (ok a) f = f a
then_result (err e) f = err e

abbrev magic_gzip : Bytes
magic_gzip = 31 ∷ 139 ∷ 8 ∷ []

abbrev pub is_gzip : Bytes → Bool
is_gzip b = ltb 3 (length b) && str_eq (take 3 b) magic_gzip

module _ (enc : Encoders) where
  unfoldable pub encode_release : Release → Result Bytes
  encode_release rls =
      then_result (enc.marshal rls)
        (λ b. then_result (enc.deflate b) (λ z. ok (enc.encode_to_string z)))

  -- Data that does not start as gzip does was stored without compression.
  unfoldable pub decode_release : Bytes → Result Release
  decode_release text =
      then_result (enc.decode_string text)
        (λ b. then_result (if is_gzip b then enc.inflate b else ok b) enc.unmarshal)

abbrev system_labels : List Bytes
system_labels =
    bytes "name"
    ∷ bytes "owner"
    ∷ bytes "status"
    ∷ bytes "version"
    ∷ bytes "createdAt"
    ∷ bytes "modifiedAt"
    ∷ []

unfoldable pub is_system_label : Bytes → Bool
unfolding slice_contains
is_system_label key = slice_contains system_labels key

-- The loop of `filterSystemLabels`, with the map that it fills.
unfoldable pub filter_into : Assoc Bytes → Assoc Bytes → Assoc Bytes
filter_into result [] = result
filter_into result ((k, v) ∷ lbs) =
    filter_into (if not (is_system_label k) then Labels.set result k v else result) lbs

unfoldable pub filter_system_labels : Assoc Bytes → Assoc Bytes
unfolding filter_into
filter_system_labels lbs = filter_into [] lbs

unfoldable pub contains_system_labels : Assoc Bytes → Bool
contains_system_labels [] = false
contains_system_labels ((k, v) ∷ lbs) =
    let rest = contains_system_labels lbs in if is_system_label k then true else rest

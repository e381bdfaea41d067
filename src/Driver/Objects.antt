-- ===== src/Driver/Objects.antt =====
-- What secrets.go and cfgmaps.go ask of the Kubernetes API, over the state `S` of the API server and
-- its clock, and the code that both files have in the same words.
pub mod Laws
use aws_ecommerce_k8s.Base.{ℕ, Bool, Option, List, [], ◌∷◌, ◌++◌, if◌then◌else◌}
use aws_ecommerce_k8s.Base.Bytes.{Bytes, bytes, join}
use aws_ecommerce_k8s.Base.Assoc.{Assoc}
use aws_ecommerce_k8s.Base.Decimal.{itoa}
use aws_ecommerce_k8s.Release.Defs.{Release}
use aws_ecommerce_k8s.Driver.Errors.{Error, Result, ok, err, foreign, quote}
use aws_ecommerce_k8s.Driver.Labels
use aws_ecommerce_k8s.Driver.Labels.{Labels}
use aws_ecommerce_k8s.Driver.Codec.{Encoders, decode_release}

-- The fields of an API object that the drivers set or read. A config map has no type.
pub record Object : Type 0 where
  pub name : Bytes
  pub labels : Assoc Bytes
  pub type_name : Bytes
  pub content : Assoc Bytes

-- The methods of `SecretInterface` and `ConfigMapInterface` that are called, `IsNotFound` and
-- `IsAlreadyExists` of the API's errors, `time.Now().Unix()`, and `IsValidLabelValue`, which lists
-- what is wrong with a value. `list` takes the labels that a selector asks for.
pub record ObjectClient (S : Type 0) : Type 0 where
  pub get : Bytes → S → Result Object
  pub list : Assoc Bytes → S → Result (List Object)
  pub create : Object → S → Option Error × S
  pub update : Object → S → Option Error × S
  pub delete : Bytes → S → Option Error × S
  pub is_not_found : Error → Bool
  pub is_already_exists : Error → Bool
  pub now : S → ℕ
  pub invalid_label : Bytes → List Bytes

-- Every label map here has been made, so the test for nil of the code is left out.
unfoldable pub object_labels : Release → Labels → Labels
unfolding Labels.from_map Labels.set itoa
object_labels rls lbs =
    let lbs = Labels.from_map lbs rls.labels in
    let lbs = Labels.set lbs (bytes "name") rls.name in
    let lbs = Labels.set lbs (bytes "owner") (bytes "helm") in
    let lbs = Labels.set lbs (bytes "status") rls.info.status in
    Labels.set lbs (bytes "version") (itoa rls.version)

-- The labels that `Create` and `Update` start from, with the time under the given name.
unfoldable pub stamped : Bytes → Release → Bytes → Labels
unfolding Labels.from_map Labels.set
stamped label rls time = Labels.set (Labels.from_map Labels.init rls.labels) label time

abbrev pub with_labels : Assoc Bytes → Release → Release
with_labels lbs rls = record rls { labels = lbs }

-- `ls` after the loop of `Query`, or the error for a value that cannot be a label's.
unfoldable pub selector : (Bytes → List Bytes) → Labels → Assoc Bytes → Result Labels
unfolding Labels.set
selector invalid_label ls [] = ok ls
selector invalid_label ls ((k, v) ∷ kvs) =
    let rest = selector invalid_label (Labels.set ls k v) kvs in
    elim (invalid_label v) [
      | [] ↦ rest
      | e ∷ es ↦ err (
          foreign (
            bytes "invalid label value: "
            ++ (quote v ++ (bytes ": " ++ join (e ∷ es) (bytes "; ")))))
    ]

module _ (enc : Encoders) where
  -- The releases of a list of objects, without those that cannot be decoded.
  unfoldable pub decoded : List Object → List Release
  decoded [] = []
  decoded (item ∷ items) =
      let rest = decoded items in
      elim (decode_release enc (Labels.get item.content (bytes "release"))) [
        | err e ↦ rest
        | ok rls ↦ with_labels item.labels rls ∷ rest
      ]

  unfoldable pub listed : (Release → Bool) → List Object → List Release
  listed filter [] = []
  listed filter (item ∷ items) =
      let rest = listed filter items in
      elim (decode_release enc (Labels.get item.content (bytes "release"))) [
        | err e ↦ rest
        | ok rls ↦ let rls = with_labels item.labels rls in if filter rls then rls ∷ rest else rest
      ]

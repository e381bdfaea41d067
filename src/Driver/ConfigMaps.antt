-- ===== src/Driver/ConfigMaps.antt =====
-- cfgmaps.go: releases kept as config maps of the Kubernetes API.
pub mod Laws
use aws_ecommerce_k8s.Base.{Bool, Option, none, some, List, [], ◌∷◌, ◌++◌, if◌then◌else◌}
use aws_ecommerce_k8s.Base.Bytes.{Bytes, bytes, join}
use aws_ecommerce_k8s.Base.Int.{pos}
use aws_ecommerce_k8s.Base.Assoc.{Assoc}
use aws_ecommerce_k8s.Base.Decimal.{itoa}
use aws_ecommerce_k8s.Release.Defs.{Release}
use aws_ecommerce_k8s.Driver.Errors.{
  Error, Result, ok, err, release_not_found, release_exists, foreign, wrapped, quote,
}
use aws_ecommerce_k8s.Driver.Interface.{Driver}
use aws_ecommerce_k8s.Driver.Labels
use aws_ecommerce_k8s.Driver.Labels.{Labels}
use aws_ecommerce_k8s.Driver.Codec.{
  Encoders, encode_release, decode_release, filter_system_labels, then_result,
}
use aws_ecommerce_k8s.Driver.Objects.{
  Object, ObjectClient, object_labels, stamped, with_labels, selector, decoded, listed,
}

abbrev pub driver_name : Bytes
driver_name = bytes "ConfigMap"

module _ (enc : Encoders) where
  unfoldable pub new_config_maps_object : Bytes → Release → Labels → Result Object
  unfolding object_labels
  new_config_maps_object key rls lbs = then_result (encode_release enc rls) (λ s. ok (record {
    name = key;
    labels = object_labels rls lbs;
    type_name = [];
    content = (bytes "release", s) ∷ [];
  }))

  -- What `Get` makes of the object at a key.
  unfoldable pub object_release : Bytes → Object → Result Release
  unfolding filter_system_labels
  object_release key obj = elim (decode_release enc (Labels.get obj.content (bytes "release"))) [
    | err e ↦ err e
    | ok r ↦ ok (with_labels (filter_system_labels obj.labels) r)
  ]

  module _ {S : Type 0} (client : ObjectClient S) where
    unfoldable pub get_result : Bytes → Result Object → Result Release
    unfolding object_release
    get_result key (ok obj) = object_release key obj
    get_result key (err e) = if client.is_not_found e then err release_not_found else err e

    unfoldable pub get : Bytes → S → Result Release
    unfolding get_result
    get key s = get_result key (client.get key s)

    unfoldable pub list_result : (Release → Bool) → Result (List Object) → Result (List Release)
    list_result filter (ok items) = ok (listed enc filter items)
    list_result filter (err e) = err e

    unfoldable pub list : (Release → Bool) → S → Result (List Release)
    list filter s = list_result filter (client.list ((bytes "owner", bytes "helm") ∷ []) s)

    unfoldable pub query_result : Result (List Object) → Result (List Release)
    query_result (err e) = err e
    query_result (ok []) = err release_not_found
    query_result (ok (item ∷ items)) = ok (decoded enc (item ∷ items))

    unfoldable pub query : Assoc Bytes → S → Result (List Release)
    unfolding query_result
    query labels s =
        then_result (selector client.invalid_label Labels.init labels)
          (λ ls. query_result (client.list ls s))

    unfoldable pub create_error : Option Error → Option Error
    create_error none = none
    create_error (some e) = if client.is_already_exists e then some release_exists else some e

    unfoldable pub create_object : Release → Result Object → S → Option Error × S
    unfolding create_error
    create_object rls (err e) s = (some e, s)
    create_object rls (ok obj) s = let (e, s') = client.create obj s in (create_error e, s')

    unfoldable pub create : Bytes → Release → S → Option Error × S
    unfolding new_config_maps_object create_object stamped itoa
    create key rls s =
        create_object rls
          (new_config_maps_object key rls
            (stamped (bytes "createdAt") rls (itoa (pos (client.now s)))))
          s

    unfoldable pub update_error : Option Error → Option Error
    update_error none = none
    update_error (some e) = some e

    unfoldable pub update_object : Release → Result Object → S → Option Error × S
    unfolding update_error
    update_object rls (err e) s = (some e, s)
    update_object rls (ok obj) s = let (e, s') = client.update obj s in (update_error e, s')

    unfoldable pub update : Bytes → Release → S → Option Error × S
    unfolding new_config_maps_object update_object stamped itoa
    update key rls s =
        update_object rls
          (new_config_maps_object key rls
            (stamped (bytes "modifiedAt") rls (itoa (pos (client.now s)))))
          s

    unfoldable pub deleted_result : Release → Option Error → Result Release
    deleted_result rls none = ok rls
    deleted_result rls (some e) = err e

    unfoldable pub delete_found : Bytes → Result Release → S → Result Release × S
    unfolding deleted_result
    delete_found key (err e) s = (err e, s)
    delete_found key (ok rls) s = let (e, s') = client.delete key s in (deleted_result rls e, s')

    unfoldable pub delete : Bytes → S → Result Release × S
    unfolding delete_found get
    delete key s = delete_found key (get key s) s

    abbrev pub config_maps_driver : Driver S
    config_maps_driver = record {
      create = create;
      update = update;
      delete = delete;
      get = get;
      list = list;
      query = query;
      name = driver_name;
    }

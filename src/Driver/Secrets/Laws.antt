-- ===== src/Driver/Secrets/Laws.antt =====
-- secrets.go: the driver as a map from keys to releases.
use aws_ecommerce_k8s.Base.{
  true, ◌≡◌, refl, sym, ap, ◌∙◌, Option, none, some, [], ◌∷◌, if◌then◌else◌, is_some, arith,
  Option-cases, Bool-cases, inl, inr,
}
use aws_ecommerce_k8s.Base.Bytes.{Bytes, bytes, str_eq, str_eq_iff}
use aws_ecommerce_k8s.Base.Decimal.{itoa}
use aws_ecommerce_k8s.Base.Assoc.{lookup}
use aws_ecommerce_k8s.Base.Int.{pos}
use aws_ecommerce_k8s.Release.Defs.{Release}
use aws_ecommerce_k8s.Driver.Errors.{Error, Result, ok, err, release_not_found, release_exists}
use aws_ecommerce_k8s.Driver.Labels
use aws_ecommerce_k8s.Driver.Codec.{
  Encoders, encode_release, decode_release, is_system_label, filter_system_labels,
}
use aws_ecommerce_k8s.Driver.Codec.Laws.{IsEncoders, decode-encode, json_form}
use aws_ecommerce_k8s.Driver.Objects.{Object, ObjectClient, object_labels, stamped, with_labels}
use aws_ecommerce_k8s.Driver.Objects.Laws.{
  IsObjectClient, IsUsers, filter_system_labels-object_labels,
}
use aws_ecommerce_k8s.Driver.Secrets.{
  new_secrets_object, object_release, get, get_result, create, create_object, create_error, update,
  update_object, update_error,
}

module _ (enc : Encoders) where
  -- A release as it is read back: JSON may not keep all of its chart and of its configuration.
  abbrev pub as_read : IsEncoders enc → Release → Release
  as_read laws rls = record rls {
    chart = laws.kept_chart rls.chart;
    config = laws.kept_config rls.config;
  }

  -- What `Get` answers for what is stored under a key.
  abbrev pub read : Bytes → Option Object → Result Release
  read key none = err release_not_found
  read key (some obj) = object_release enc key obj

  module _ (laws : IsEncoders enc) (key : Bytes) (rls : Release) (text : Bytes)
      (utf8 : laws.IsUtf8 rls) (encoded : encode_release enc rls ≡ ok text)
      (users : IsUsers rls) where
    -- The object that holds a release.
    abbrev object : Bytes → Bytes → Object
    object label time = record {
      name = key;
      labels = object_labels rls (stamped label rls time);
      type_name = bytes "helm.sh/release.v1";
      content = (bytes "release", text) ∷ [];
    }

    object_release_ok :
        (obj : Object) (r : Release)
        → decode_release enc (Labels.get obj.content (bytes "release")) ≡ ok r
        → object_release enc key obj ≡ ok (with_labels (filter_system_labels obj.labels) r)
    unfolding object_release
    object_release_ok obj r h = rw (h, object_release)

    new_object :
        (lbs : Labels.Labels)
        → new_secrets_object enc key rls lbs
          ≡ ok (record {
            name = key;
            labels = object_labels rls lbs;
            type_name = bytes "helm.sh/release.v1";
            content = (bytes "release", text) ∷ [];
          })
    unfolding new_secrets_object
    new_object lbs = rw encoded

    read-object :
        (label time : Bytes)
        → is_system_label label ≡ true
        → object_release enc key (object label time) ≡ ok (as_read laws rls)
    unfolding Labels.get lookup str_eq
    read-object label time h =
        object_release_ok (object label time) (json_form laws.kept_chart laws.kept_config rls)
          (decode-encode enc rls text laws utf8 encoded)
        ∙ ap (λ lbs. ok (with_labels lbs (json_form laws.kept_chart laws.kept_config rls)))
            (filter_system_labels-object_labels rls label time h users)

module _ (enc : Encoders) {S : Type 0} (client : ObjectClient S)
    (stored : Bytes → S → Option Object) (api : IsObjectClient client stored) where
  pub get-stored : (key : Bytes) (s : S) → get enc client key s ≡ read enc key (stored key s)
  unfolding get get_result
  get-stored key s = elim (Option-cases (stored key s)) [
    | inr (o, there) ↦ rw (api.get_there key s o there, there)
    | inl missing ↦
        let (e, answer, recognised) = api.get_missing key s missing in
        rw (answer, recognised, missing)
  ]

  module _ (laws : IsEncoders enc) (key : Bytes) (rls : Release) (text : Bytes) (s : S)
      (utf8 : laws.IsUtf8 rls) (encoded : encode_release enc rls ≡ ok text)
      (users : IsUsers rls) where
    abbrev object_at : Bytes → Object
    object_at label =
        object enc laws key rls text utf8 encoded users label (itoa (pos (client.now s)))

    create_runs : create enc client key rls s ≡ (
      create_error enc client (client.create (object_at (bytes "createdAt")) s).0,
      (client.create (object_at (bytes "createdAt")) s).1,
    )
    unfolding create create_object
    create_runs = rw (new_object enc laws key rls text utf8 encoded users _)

    update_runs : update enc client key rls s ≡ (
      update_error enc client (client.update (object_at (bytes "modifiedAt")) s).0,
      (client.update (object_at (bytes "modifiedAt")) s).1,
    )
    unfolding update update_object
    update_runs = rw (new_object enc laws key rls text utf8 encoded users _)

    read_at :
        (label : Bytes)
        → is_system_label label ≡ true
        → object_release enc key (object_at label) ≡ ok (as_read enc laws rls)
    read_at label h = read-object enc laws key rls text utf8 encoded users label _ h

    after_done :
        (label : Bytes) (s' : S) (k : Bytes)
        → is_system_label label ≡ true
        → stored k s' ≡ (if str_eq key k then some (object_at label) else stored k s)
        → get enc client k s'
          ≡ (if str_eq key k then ok (as_read enc laws rls) else get enc client k s)
    after_done label s' k system there =
        ground
          (arith, there, str_eq_iff key k, get-stored k s', get-stored k s, read_at label system)

    after_refused :
        (s' : S) (k : Bytes) → stored k s' ≡ stored k s → get enc client k s' ≡ get enc client k s
    after_refused s' k same = get-stored k s' ∙ ap (read enc k) same ∙ sym (get-stored k s)

    -- If Create returns no error, then nothing was stored under the key, Get then gives the release for
    -- it, with its labels and as far as JSON keeps its chart and configuration, and every other key reads
    -- as before. If it returns an error, every key reads as before, and where the error is
    -- ErrReleaseExists, something was stored under the key. The release can be encoded and its texts are
    -- UTF-8; the labels are a map of none of the system's; encoders and API do what is documented, and
    -- the API may refuse any object.
    pub secrets_create_lem :
        ((create enc client key rls s).0 ≡ none
          → (stored key s ≡ none)
            × ((k : Bytes)
                → get enc client k (create enc client key rls s).1
                  ≡ (if str_eq key k then ok (as_read enc laws rls) else get enc client k s)))
        × ((e : Error)
            → (create enc client key rls s).0 ≡ some e
            → (k : Bytes) → get enc client k (create enc client key rls s).1 ≡ get enc client k s)
        × ((create enc client key rls s).0 ≡ some release_exists → is_some (stored key s) ≡ true)
    unfolding create_error is_system_label str_eq
    secrets_create_lem =
        let o = object_at (bytes "createdAt") in
        elim (Option-cases (client.create o s).0) [
          | inl created ↦
              let (free, there) = api.create_done o s created in
              rw (create_runs, created)
                (
                  (λ _. (free, λ k. after_done (bytes "createdAt") _ k refl (there k))),
                  (λ e bad. cc),
                  λ bad. cc,
                )
          | inr (e, refused) ↦
              let same = λ (k : Bytes).
                after_refused (client.create o s).1 k (api.create_refused o s e refused k) in
              elim (Bool-cases (client.is_already_exists e)) [
                | inl exists ↦
                    rw (create_runs, refused, exists)
                      ((λ bad. cc), (λ _ _. same), λ _. api.create_exists o s e refused exists)
                | inr other ↦
                    rw (create_runs, refused, other) ((λ bad. cc), (λ _ _. same), λ bad. cc)
              ]
        ]

    -- If Update returns no error, then something was stored under the key, Get then gives the release for
    -- it, with its labels and as far as JSON keeps its chart and configuration, and every other key reads
    -- as before. If it returns an error, as it does where nothing is stored under the key, every key
    -- reads as before. The conditions are those of Create.
    pub secrets_update_lem :
        ((update enc client key rls s).0 ≡ none
          → (is_some (stored key s) ≡ true)
            × ((k : Bytes)
                → get enc client k (update enc client key rls s).1
                  ≡ (if str_eq key k then ok (as_read enc laws rls) else get enc client k s)))
        × ((e : Error)
            → (update enc client key rls s).0 ≡ some e
            → (k : Bytes) → get enc client k (update enc client key rls s).1 ≡ get enc client k s)
    unfolding update_error is_system_label str_eq
    secrets_update_lem =
        let o = object_at (bytes "modifiedAt") in
        elim (Option-cases (client.update o s).0) [
          | inl updated ↦
              let (present, there) = api.update_done o s updated in
              rw (update_runs, updated)
                (
                  (λ _. (present, λ k. after_done (bytes "modifiedAt") _ k refl (there k))),
                  λ e bad. cc,
                )
          | inr (e, refused) ↦
              rw (update_runs, refused)
                (
                  (λ bad. cc),
                  λ _ _ k.
                      after_refused (client.update o s).1 k (api.update_refused o s e refused k),
                )
        ]

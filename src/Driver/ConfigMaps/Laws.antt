-- ===== src/Driver/ConfigMaps/Laws.antt =====
-- cfgmaps.go: its reads are those of secrets.go, but for the text around an error.
use aws_ecommerce_k8s.Base.{◌≡◌, refl, Bool, [], ◌∷◌, List, arith, inl, inr}
use aws_ecommerce_k8s.Base.Bytes.{Bytes}
use aws_ecommerce_k8s.Base.Assoc.{Assoc}
use aws_ecommerce_k8s.Release.Defs.{Release}
use aws_ecommerce_k8s.Driver.Errors.{Error, Result, ok, err, wrapped, Result-cases}
use aws_ecommerce_k8s.Driver.Labels
use aws_ecommerce_k8s.Driver.Codec.{Encoders}
use aws_ecommerce_k8s.Driver.Objects.{Object, ObjectClient, selector}
use aws_ecommerce_k8s.Driver.Secrets
use aws_ecommerce_k8s.Driver.ConfigMaps

-- An error without the text that the caller of the API put in front.
abbrev unwrap : Error → Error
unwrap (wrapped context e) = e
unwrap e = e

abbrev pub unwrapped : {A : Type 0} → Result A → Result A
unwrapped (ok a) = ok a
unwrapped (err e) = err (unwrap e)

selector_plain :
    (invalid_label : Bytes → List Bytes) (ls : Labels.Labels) (kvs : Assoc Bytes)
    → unwrapped (selector invalid_label ls kvs) ≡ selector invalid_label ls kvs
unfolding selector
selector_plain invalid_label ls [] = refl
selector_plain invalid_label ls ((k, v) ∷ kvs) =
    ground (arith, selector_plain invalid_label (Labels.set ls k v) kvs)

module _ (enc : Encoders) {S : Type 0} (client : ObjectClient S) where
  get_result_agrees :
      (key : Bytes) (r : Result Object)
      → unwrapped (Secrets.get_result enc client key r) ≡ ConfigMaps.get_result enc client key r
  unfolding Secrets.get_result ConfigMaps.get_result Secrets.object_release
      ConfigMaps.object_release
  get_result_agrees key r = ground arith

  list_result_agrees :
      (filter : Release → Bool) (r : Result (List Object))
      → unwrapped (Secrets.list_result enc client filter r)
        ≡ ConfigMaps.list_result enc client filter r
  unfolding Secrets.list_result ConfigMaps.list_result
  list_result_agrees filter (ok items) = refl
  list_result_agrees filter (err e) = refl

  query_result_agrees :
      (r : Result (List Object))
      → unwrapped (Secrets.query_result enc client r) ≡ ConfigMaps.query_result enc client r
  unfolding Secrets.query_result ConfigMaps.query_result
  query_result_agrees (ok []) = refl
  query_result_agrees (ok (item ∷ items)) = refl
  query_result_agrees (err e) = refl

  query_agrees :
      (labels : Assoc Bytes) (s : S)
      → unwrapped (Secrets.query enc client labels s) ≡ ConfigMaps.query enc client labels s
  unfolding Secrets.query ConfigMaps.query
  query_agrees labels s = elim (Result-cases (selector client.invalid_label Labels.init labels)) [
    | inl (ls, made) ↦ rw made (query_result_agrees (client.list ls s))
    | inr (e, failed) ↦
        let plain = selector_plain client.invalid_label Labels.init labels in
        let answers = rw failed at plain in
        let same : unwrap e ≡ e = cc answers in rw (failed, same)
  ]

  -- On the same objects the config map driver gets, lists and queries what the secrets driver does:
  -- the same releases, and the same errors but for the text that secrets.go puts in front.
  pub config_maps_reads :
      (key : Bytes) (filter : Release → Bool) (labels : Assoc Bytes) (s : S)
      → (unwrapped (Secrets.get enc client key s) ≡ ConfigMaps.get enc client key s)
        × (unwrapped (Secrets.list enc client filter s) ≡ ConfigMaps.list enc client filter s)
        × (unwrapped (Secrets.query enc client labels s) ≡ ConfigMaps.query enc client labels s)
  unfolding Secrets.get ConfigMaps.get Secrets.list ConfigMaps.list Secrets.query ConfigMaps.query
  config_maps_reads key filter labels s =
      (get_result_agrees key _, list_result_agrees filter _, query_agrees labels s)

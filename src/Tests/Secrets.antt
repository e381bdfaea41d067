-- ===== src/Tests/Secrets.antt =====
-- Runs of the secrets driver on a small API server.
use aws_ecommerce_k8s.Base.{
  Bool, true, false, ◌≡◌, refl, sym, ap, ◌∙◌, ltb, length, take, Option, none, some, [], ◌∷◌,
  if◌then◌else◌, is_some, drop, arith, map, keep_if,
}
use aws_ecommerce_k8s.Base.Bytes.{Bytes, bytes, str_eq, str_eq_iff}
use aws_ecommerce_k8s.Base.Assoc.{Assoc, lookup, insert, remove, lookup-insert, lookup-remove}
use aws_ecommerce_k8s.Release.Defs.{Release}
use aws_ecommerce_k8s.Driver.Errors.{Error, Result, ok, err, release_exists, foreign}
use aws_ecommerce_k8s.Release.Status.{status_deployed}
use aws_ecommerce_k8s.Tests.Data.{release}
use aws_ecommerce_k8s.Tests.Hooks.{migrate}
use aws_ecommerce_k8s.Driver.Labels
use aws_ecommerce_k8s.Driver.Codec.{
  Encoders, encode_release, decode_release, contains_system_labels, is_system_label,
}
use aws_ecommerce_k8s.Driver.Codec.Laws.{IsEncoders, json_form}
use aws_ecommerce_k8s.Driver.Objects.{Object, ObjectClient}
use aws_ecommerce_k8s.Driver.Objects.Laws.{IsObjectClient, IsUsers}
use aws_ecommerce_k8s.Driver.ConfigMaps
use aws_ecommerce_k8s.Driver.ConfigMaps.Laws.{unwrapped, config_maps_reads}
use aws_ecommerce_k8s.Driver.Secrets
use aws_ecommerce_k8s.Driver.Secrets.{create, update, delete, get}
use aws_ecommerce_k8s.Driver.Secrets.Laws.{as_read, secrets_create_lem, secrets_update_lem}

-- A release of the shop with a label of its own, and an encoding of the releases that are as it but for
-- the manifest. Of a chart it keeps a part.
abbrev shop_release : Release
shop_release = record (release (bytes "shop") 4 status_deployed) {
  chart = bytes "shop-1.2.0 with raw files";
  config = bytes "replicas: 2";
  manifest = bytes "kind: Service";
  hooks = migrate ∷ [];
  labels = (bytes "team", bytes "web") ∷ [];
}

abbrev kept_chart : Bytes → Bytes
kept_chart chart = take 10 chart

abbrev form : Release → Release
form = json_form kept_chart (λ config. config)

abbrev encoders : Encoders
encoders = record {
  marshal = λ r. ok r.manifest;
  unmarshal = λ b. ok (record (form shop_release) { manifest = b });
  deflate = λ b. ok (31 ∷ 139 ∷ 8 ∷ 0 ∷ b);
  inflate = λ z. ok (drop 4 z);
  encode_to_string = λ z. z;
  decode_string = λ s. ok s;
}

header : (b z : Bytes) → encoders.deflate b ≡ ok z → 31 ∷ 139 ∷ 8 ∷ 0 ∷ b ≡ z
header b z h = cc h

same_manifest : (r : Release) (b : Bytes) → encoders.marshal r ≡ ok b → r.manifest ≡ b
same_manifest r b h = cc h

abbrev encoders-IsEncoders : IsEncoders encoders
encoders-IsEncoders = record {
  kept_chart = kept_chart;
  kept_config = λ config. config;
  IsUtf8 = λ r. form r ≡ record (form shop_release) { manifest = r.manifest };
  unmarshal-marshal = λ r b like h.
      ap (λ m. ok (record (form shop_release) { manifest = m })) (sym (same_manifest r b h))
      ∙ ap ok (sym like);
  inflate-deflate = λ b z h. cc;
  deflate-header = λ b z h. (0, b, sym (header b z h));
  decode-encode = λ z. refl;
}

-- An API server as the objects by name.
abbrev answer : Option Object → Result Object
answer none = err (foreign (bytes "not found"))
answer (some o) = ok o

abbrev api_get : Bytes → Assoc Object → Result Object
api_get key s = answer (lookup key s)

-- It refuses names that are too long.
abbrev api_create : Object → Assoc Object → Option Error × Assoc Object
api_create o s =
    if ltb 253 (length o.name)
    then (some (foreign (bytes "invalid")), s)
    else if is_some (lookup o.name s)
    then (some (foreign (bytes "already exists")), s)
    else (none, insert o.name o s)

abbrev api_update : Object → Assoc Object → Option Error × Assoc Object
api_update o s =
    if is_some (lookup o.name s)
    then (none, insert o.name o s)
    else (some (foreign (bytes "not found")), s)

abbrev api_delete : Bytes → Assoc Object → Option Error × Assoc Object
api_delete key s =
    if is_some (lookup key s) then (none, remove key s) else (some (foreign (bytes "not found")), s)

abbrev is_text : Bytes → Error → Bool
is_text text (foreign msg) = str_eq msg text
is_text text e = false

abbrev api : ObjectClient (Assoc Object)
api = record {
  get = api_get;
  list = λ sel s. ok (keep_if (λ o. Labels.matches o.labels sel) (map (λ no. no.1) s));
  create = api_create;
  update = api_update;
  delete = api_delete;
  is_not_found = is_text (bytes "not found");
  is_already_exists = is_text (bytes "already exists");
  now = λ s. 1700000000;
  invalid_label = λ v. [];
}

api-IsObjectClient : IsObjectClient api (λ key s. lookup key s)
unfolding str_eq
api-IsObjectClient = record {
  get_there = λ key s o h. rw h;
  get_missing = λ key s h. (foreign (bytes "not found"), rw h, refl);
  create_done =
      λ o s h. (ground (arith, h), λ key. ground (arith, h, lookup-insert o.name key o s));
  create_refused = λ o s e h key. ground (arith, h);
  create_exists = λ o s e h exists. ground (arith, h, exists);
  update_done =
      λ o s h. (ground (arith, h), λ key. ground (arith, h, lookup-insert o.name key o s));
  update_refused = λ o s e h key. ground (arith, h);
  delete_there = λ key s o h. rw h;
  stored-delete = λ key s k. ground (arith, lookup-remove key k s, str_eq_iff key k);
}

abbrev shop_text : Bytes
shop_text = 31 ∷ 139 ∷ 8 ∷ 0 ∷ bytes "kind: Service"

shop_encoded : encode_release encoders shop_release ≡ ok shop_text
unfolding encode_release
shop_encoded = refl

abbrev key : Bytes
key = bytes "sh.helm.release.v1.shop.v4"

abbrev with_shop : Assoc Object
with_shop = (create encoders api key shop_release []).1

shop_release-IsUsers : IsUsers shop_release
unfolding lookup contains_system_labels is_system_label str_eq
shop_release-IsUsers = ((refl, tt), refl)

abbrev shop_read : Release
shop_read = record shop_release { chart = bytes "shop-1.2.0" }

get_shop : get encoders api key with_shop ≡ ok shop_read
unfolding get lookup create encode_release str_eq decode_release Labels.get is_system_label
get_shop = refl

creates : (create encoders api key shop_release []).0 ≡ none
unfolding create encode_release lookup str_eq
creates = refl

secrets_create_example :
    ((create encoders api key shop_release []).0 ≡ none
      → (lookup {V = Object} key [] ≡ none)
        × ((k : Bytes)
            → get encoders api k (create encoders api key shop_release []).1 ≡ (
                if str_eq key k
                then ok (as_read encoders encoders-IsEncoders shop_release)
                else get encoders api k [])))
    × ((e : Error)
        → (create encoders api key shop_release []).0 ≡ some e
        → (k : Bytes)
        → get encoders api k (create encoders api key shop_release []).1 ≡ get encoders api k [])
    × ((create encoders api key shop_release []).0 ≡ some release_exists
        → is_some (lookup {V = Object} key []) ≡ true)
secrets_create_example =
    secrets_create_lem encoders api (λ k s. lookup k s) api-IsObjectClient encoders-IsEncoders key
      shop_release shop_text [] refl shop_encoded shop_release-IsUsers

updates : (update encoders api key shop_release with_shop).0 ≡ none
unfolding update create encode_release lookup insert str_eq
updates = refl

secrets_update_example :
    ((update encoders api key shop_release with_shop).0 ≡ none
      → (is_some (lookup key with_shop) ≡ true)
        × ((k : Bytes)
            → get encoders api k (update encoders api key shop_release with_shop).1 ≡ (
                if str_eq key k
                then ok (as_read encoders encoders-IsEncoders shop_release)
                else get encoders api k with_shop)))
    × ((e : Error)
        → (update encoders api key shop_release with_shop).0 ≡ some e
        → (k : Bytes)
        → get encoders api k (update encoders api key shop_release with_shop).1
          ≡ get encoders api k with_shop)
secrets_update_example =
    secrets_update_lem encoders api (λ k s. lookup k s) api-IsObjectClient encoders-IsEncoders key
      shop_release shop_text with_shop refl shop_encoded shop_release-IsUsers

config_maps_reads_example :
    (unwrapped (Secrets.get encoders api key with_shop) ≡ ConfigMaps.get encoders api key with_shop)
    × (unwrapped (Secrets.list encoders api (λ r. true) with_shop)
        ≡ ConfigMaps.list encoders api (λ r. true) with_shop)
    × (unwrapped (Secrets.query encoders api [] with_shop)
        ≡ ConfigMaps.query encoders api [] with_shop)
config_maps_reads_example = config_maps_reads encoders api key (λ r. true) [] with_shop

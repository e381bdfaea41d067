-- ===== src/Driver/Codec/Laws.antt =====
-- util.go: what an encoding that succeeds is decoded to, and the labels that are kept for the system.
use aws_ecommerce_k8s.Base.{
  ℕ, true, false, ◌≡◌, refl, sym, ◌∙◌, [], ◌∷◌, if◌then◌else◌, arith, Bool-cases, inl, inr,
}
use mathlib.Core.Path.{subst}
use aws_ecommerce_k8s.Base.Bytes.{Bytes, str_eq, str_eq_iff}
use aws_ecommerce_k8s.Base.Assoc.{Assoc, insert, IsMap}
use aws_ecommerce_k8s.Release.Defs.{Release}
use aws_ecommerce_k8s.Driver.Errors.{ok, err, Result-cases}
use aws_ecommerce_k8s.Driver.Labels
use aws_ecommerce_k8s.Driver.Labels.Laws.{from_map_self}
use aws_ecommerce_k8s.Driver.Codec.{
  Encoders, encode_release, decode_release, is_gzip, is_system_label, filter_into,
  filter_system_labels, contains_system_labels,
}

-- What JSON keeps of a release: not the labels, and of the chart and the configuration what these
-- functions say.
abbrev pub json_form : (Bytes → Bytes) → (Bytes → Bytes) → Release → Release
json_form kept_chart kept_config rls = record rls {
  chart = kept_chart rls.chart;
  config = kept_config rls.config;
  labels = [];
}

-- What the packages document. JSON gives back the exported fields, and leaves out what a tag or a lower
-- case name excludes (of a chart its raw files, its parent and its dependencies); it reads any number of a
-- configuration as a float; and it changes texts that are not UTF-8, so this is asked of the release.
-- Inflating undoes deflating, gzip data has a header, and base64 is undone.
pub record IsEncoders (enc : Encoders) : Type 1 where
  pub kept_chart : Bytes → Bytes
  pub kept_config : Bytes → Bytes
  pub IsUtf8 : Release → Type 0
  pub unmarshal-marshal :
      (rls : Release) (b : Bytes)
      → IsUtf8 rls
      → enc.marshal rls ≡ ok b
      → enc.unmarshal b ≡ ok (json_form kept_chart kept_config rls)
  pub inflate-deflate : (b z : Bytes) → enc.deflate b ≡ ok z → enc.inflate z ≡ ok b
  pub deflate-header :
      (b z : Bytes)
      → enc.deflate b ≡ ok z
      → (c : ℕ) × (rest : Bytes) × (z ≡ 31 ∷ 139 ∷ 8 ∷ c ∷ rest)
  pub decode-encode : (z : Bytes) → enc.decode_string (enc.encode_to_string z) ≡ ok z

header-is_gzip : (z : Bytes) (c : ℕ) (rest : Bytes) → z ≡ 31 ∷ 139 ∷ 8 ∷ c ∷ rest → is_gzip z ≡ true
unfolding str_eq
header-is_gzip z c rest e = subst (λ z. is_gzip z ≡ true) (sym e) (ground arith)

-- An encoding that succeeds went through both steps.
pub decode-encode :
    (enc : Encoders) (rls : Release) (text : Bytes) (laws : IsEncoders enc)
    → laws.IsUtf8 rls
    → encode_release enc rls ≡ ok text
    → decode_release enc text ≡ ok (json_form laws.kept_chart laws.kept_config rls)
unfolding encode_release decode_release
decode-encode enc rls text laws utf8 h = elim (Result-cases (enc.marshal rls)) [
  | inr (e, failed) ↦ let bad : err e ≡ ok text = rw failed at h in cc
  | inl (b, json) ↦ elim (Result-cases (enc.deflate b)) [
    | inr (e, failed) ↦ let bad : err e ≡ ok text = rw (json, failed) at h in cc
    | inl (z, gzip) ↦
        let encoded : ok (enc.encode_to_string z) ≡ ok text = rw (json, gzip) at h in
        let same : enc.encode_to_string z ≡ text = cc encoded in
        let (c, rest, header) = laws.deflate-header b z gzip in
        subst (λ t. decode_release enc t ≡ ok (json_form laws.kept_chart laws.kept_config rls)) same
          (rw (laws.decode-encode z, header-is_gzip z c rest header, laws.inflate-deflate b z gzip)
            (laws.unmarshal-marshal rls b utf8 json))
  ]
]

-- The entries of a map that are not the system's.
unfoldable pub user_labels : Assoc Bytes → Assoc Bytes
user_labels [] = []
user_labels ((k, v) ∷ m) =
    let rest = user_labels m in if is_system_label k then rest else (k, v) ∷ rest

filter_into-user :
    (result m : Assoc Bytes) → filter_into result m ≡ Labels.from_map result (user_labels m)
unfolding filter_into user_labels Labels.from_map
filter_into-user result [] = refl
filter_into-user result ((k, v) ∷ m) = elim (Bool-cases (is_system_label k)) [
  | inl system ↦ rw system (filter_into-user result m)
  | inr user ↦ rw user (filter_into-user (Labels.set result k v) m)
]

pub user-set_system :
    (k v : Bytes) (m : Assoc Bytes)
    → is_system_label k ≡ true
    → user_labels (Labels.set m k v) ≡ user_labels m
unfolding user_labels insert Labels.set
user-set_system k v [] h = rw h
user-set_system k v ((j, w) ∷ m) h = ground (arith, user-set_system k v m h, str_eq_iff j k)

user-set :
    (k v : Bytes) (m : Assoc Bytes)
    → is_system_label k ≡ false
    → user_labels (Labels.set m k v) ≡ Labels.set (user_labels m) k v
unfolding user_labels insert Labels.set
user-set k v [] h = rw h
user-set k v ((j, w) ∷ m) h = ground (arith, user-set k v m h, str_eq_iff j k)

pub user-from_map :
    (m kvs : Assoc Bytes)
    → contains_system_labels kvs ≡ false
    → user_labels (Labels.from_map m kvs) ≡ Labels.from_map (user_labels m) kvs
unfolding contains_system_labels Labels.from_map
user-from_map m [] h = refl
user-from_map m ((k, v) ∷ kvs) h = elim (Bool-cases (is_system_label k)) [
  | inl system ↦ let bad : true ≡ false = rw system at h in cc
  | inr user ↦ user-from_map (Labels.set m k v) kvs (rw user at h) ∙ rw (user-set k v m user)
]

-- Labels are kept as they are where what remains of them without the system's is a map.
pub filter_system_labels-user :
    (m kvs : Assoc Bytes) → user_labels m ≡ kvs → IsMap kvs → filter_system_labels m ≡ kvs
unfolding filter_system_labels
filter_system_labels-user m kvs e d = filter_into-user [] m ∙ rw e (from_map_self kvs d)

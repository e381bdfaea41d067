-- ===== src/Release/ManifestSorter/Documents.antt =====
-- manifest_sorter.go: what one document adds to the hooks and the other manifests.
use mathlib.Core.List.{append-nil, append_assoc}
use aws_ecommerce_k8s.Base.{
  ◌≡◌, refl, sym, ap, ◌∙◌, Bool, true, false, not, Option, none, some, List, [], ◌∷◌, ◌++◌, map,
  keep_if, is_some, Option-cases, inl, inr, arith,
}
use aws_ecommerce_k8s.Base.Bytes.{Bytes, bytes}
use aws_ecommerce_k8s.Base.Assoc.{lookup}
use aws_ecommerce_k8s.Release.Hook.{Hook}
use aws_ecommerce_k8s.Release.Kinds.{Metadata, SimpleHead, Manifest}
use aws_ecommerce_k8s.Release.ManifestSorter.{
  Sorted, annotation_items, events_of, add_generic, add_hook, add_metadata, add_entry,
}
use aws_ecommerce_k8s.Release.ManifestSorter.Known.{are_known, are_known_lem}
use aws_ecommerce_k8s.Driver.Errors.{Result, ok, err}

-- A document: the path of its file, and its text.
abbrev pub Document : Type 0
Document = Bytes × Bytes

abbrev pub hook_types_of : Option Metadata → Option Bytes
hook_types_of none = none
hook_types_of (some metadata) = lookup (bytes "helm.sh/hook") metadata.annotations

abbrev pub head_has : (SimpleHead → Bool) → Result SimpleHead → Bool
head_has p (err e) = false
head_has p (ok head) = p head

abbrev pub hook_source : Hook → Document
hook_source h = (h.path, h.manifest)

abbrev pub manifest_source : Manifest → Document
manifest_source m = (m.name, m.content)

module _ {A : Type 0} (p : A → Bool) where
  keep_if-append : (xs ys : List A) → keep_if p (xs ++ ys) ≡ keep_if p xs ++ keep_if p ys
  unfolding keep_if
  keep_if-append [] ys = refl
  keep_if-append (x ∷ xs) ys = ground (arith, keep_if-append xs ys)

map-append : {A B : Type 0} (f : A → B) (xs ys : List A) → map f (xs ++ ys) ≡ map f xs ++ map f ys
map-append f [] ys = refl
map-append f (x ∷ xs) ys = ap (λ zs. f x ∷ zs) (map-append f xs ys)

module _ (parse_head : Bytes → Result SimpleHead) where
  abbrev pub is_hook : Document → Bool
  is_hook d = head_has (λ head. are_known (hook_types_of head.metadata)) (parse_head d.1)

  abbrev pub is_generic : Document → Bool
  is_generic d = head_has (λ head. not (is_some (hook_types_of head.metadata))) (parse_head d.1)

  -- `after` has what `before` has, and then the hooks and the other manifests of the documents.
  abbrev pub Adds : List Document → Sorted → Sorted → Type 0
  Adds docs before after =
      (map hook_source after.hooks ≡ map hook_source before.hooks ++ keep_if is_hook docs)
      × (map manifest_source after.generic
          ≡ map manifest_source before.generic ++ keep_if is_generic docs)

  joined :
      {A B : Type 0} (f : A → B) (p : B → Bool) (xs ys zs : List A) (ds es : List B)
      → map f ys ≡ map f xs ++ keep_if p ds
      → map f zs ≡ map f ys ++ keep_if p es
      → map f zs ≡ map f xs ++ keep_if p (ds ++ es)
  joined f p xs ys zs ds es h k =
      k
      ∙ ap (λ l. l ++ keep_if p es) h
      ∙ append_assoc (map f xs) (keep_if p ds) (keep_if p es)
      ∙ ap (λ l. map f xs ++ l) (sym (keep_if-append p ds es))

  pub Adds-append :
      (ds es : List Document) (a b c : Sorted) → Adds ds a b → Adds es b c → Adds (ds ++ es) a c
  Adds-append ds es a b c h k = (
    joined hook_source is_hook a.hooks b.hooks c.hooks ds es h.0 k.0,
    joined manifest_source is_generic a.generic b.generic c.generic ds es h.1 k.1,
  )

  pub Adds-none : (a : Sorted) → Adds [] a a
  unfolding keep_if
  Adds-none a =
      (sym (append-nil (map hook_source a.hooks)), sym (append-nil (map manifest_source a.generic)))

  abbrev Adding :
      {A : Type 0} → (A → Document) → (Document → Bool) → Document → List A → List A → Type 0
  Adding f p d xs ys = map f ys ≡ map f xs ++ keep_if p (d ∷ [])

  -- One document that is kept, or left out.
  kept :
      {A : Type 0} (f : A → Document) (p : Document → Bool) (xs : List A) (x : A)
      → p (f x) ≡ true
      → Adding f p (f x) xs (xs ++ x ∷ [])
  unfolding keep_if
  kept f p xs x passes = ground (arith, map-append f xs (x ∷ []))

  left :
      {A : Type 0} (f : A → Document) (p : Document → Bool) (xs : List A) (d : Document)
      → p d ≡ false
      → Adding f p d xs xs
  unfolding keep_if
  left f p xs d fails = ground (arith, append-nil (map f xs))

  module _ (path m : Bytes) (head : SimpleHead) (parsed : parse_head m ≡ ok head) where
    is_hook_of :
        (types : Option Bytes)
        → hook_types_of head.metadata ≡ types
        → is_hook (path, m) ≡ are_known types
    is_hook_of types has =
        ap (head_has (λ head. are_known (hook_types_of head.metadata))) parsed ∙ ap are_known has

    is_generic_of :
        (types : Option Bytes)
        → hook_types_of head.metadata ≡ types
        → is_generic (path, m) ≡ not (is_some types)
    is_generic_of types has =
        ap (head_has (λ head. not (is_some (hook_types_of head.metadata)))) parsed
        ∙ ap (λ t. not (is_some t)) has

    add_generic-Adds :
        hook_types_of head.metadata ≡ none
        → (r : Sorted) → Adds ((path, m) ∷ []) r (add_generic path m head r)
    unfolding add_generic
    add_generic-Adds plain r = (
      left hook_source is_hook r.hooks (path, m) (is_hook_of none plain),
      kept manifest_source is_generic r.generic (record { name = path; content = m; head = head })
          (is_generic_of none plain),
    )

    add_hook-Adds :
        (metadata : Metadata) (types : Bytes)
        → hook_types_of head.metadata ≡ some types
        → (r : Sorted) → Adds ((path, m) ∷ []) r (add_hook path m head metadata types r)
    unfolding add_hook
    add_hook-Adds metadata types has r =
        let generic =
          left manifest_source is_generic r.generic (path, m) (is_generic_of (some types) has) in
        elim (Option-cases (events_of (annotation_items types))) [
          | inl unknown ↦
              rw (unknown, add_hook)
                (
                  left hook_source is_hook r.hooks (path, m)
                      (is_hook_of (some types) has
                        ∙ sym (are_known_lem types)
                        ∙ ap is_some unknown),
                  generic,
                )
          | inr (events, known) ↦
              rw (known, add_hook)
                (
                  kept hook_source is_hook r.hooks _
                      (is_hook_of (some types) has ∙ sym (are_known_lem types) ∙ ap is_some known),
                  generic,
                )
        ]

    add_metadata-Adds :
        (r : Sorted) (metadata : Option Metadata)
        → head.metadata ≡ metadata
        → Adds ((path, m) ∷ []) r (add_metadata path m head metadata r)
    unfolding add_metadata
    add_metadata-Adds r none same = add_generic-Adds (ap hook_types_of same) r
    add_metadata-Adds r (some metadata) same =
        elim (Option-cases (lookup (bytes "helm.sh/hook") metadata.annotations)) [
          | inl plain ↦
              rw (plain, add_metadata) (add_generic-Adds (ap hook_types_of same ∙ plain) r)
          | inr (types, has) ↦
              rw (has, add_metadata) (add_hook-Adds metadata types (ap hook_types_of same ∙ has) r)
        ]

    pub add_entry-Adds : (r : Sorted) → Adds ((path, m) ∷ []) r (add_entry path m head r)
    unfolding add_entry
    add_entry-Adds r = add_metadata-Adds r head.metadata refl

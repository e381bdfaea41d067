-- ===== src/Release/ManifestSorter/Known.antt =====
-- manifest_sorter.go: the hook types that are known, and the files that are skipped.
use aws_ecommerce_k8s.Base.{
  ◌≡◌, refl, ap, ◌∙◌, Bool, true, false, not, Option, none, some, List, [], ◌∷◌, map, ◌&&◌, ◌||◌,
  keep_if, is_some, arith, Bool-cases, inl, inr,
}
use aws_ecommerce_k8s.Base.Bytes.{Bytes, bytes, str_eq, split, has_prefix}
use aws_ecommerce_k8s.Base.Space.{trim_space, to_lower}
use aws_ecommerce_k8s.Base.Assoc.{Assoc, lookup}
use aws_ecommerce_k8s.Release.Hook.{HookEvent, event_name}
use aws_ecommerce_k8s.Release.ManifestSorter.{
  hook_events, events_by_name, annotation_items, events_of, is_skipped, base_of,
}

-- The hook types that there are.
abbrev pub known_types : List Bytes
known_types =
    bytes "pre-install"
    ∷ bytes "post-install"
    ∷ bytes "pre-delete"
    ∷ bytes "post-delete"
    ∷ bytes "pre-upgrade"
    ∷ bytes "post-upgrade"
    ∷ bytes "pre-rollback"
    ∷ bytes "post-rollback"
    ∷ bytes "test"
    ∷ bytes "test-success"
    ∷ []

abbrev is_one_of : List Bytes → Bytes → Bool
is_one_of [] t = false
is_one_of (n ∷ names) t = str_eq n t || is_one_of names t

-- All of some texts are known types, in any case and with any white space around.
abbrev pub all_known : List Bytes → Bool
all_known [] = true
all_known (t ∷ ts) = is_one_of known_types (to_lower (trim_space t)) && all_known ts

-- Hook types, with commas between them, that are all known.
abbrev pub are_known : Option Bytes → Bool
are_known none = false
are_known (some types) = all_known (split types (bytes ","))

lookup-is_one_of :
    (t : Bytes) (m : Assoc HookEvent) → is_some (lookup t m) ≡ is_one_of (map (λ kv. kv.0) m) t
unfolding lookup
lookup-is_one_of t [] = refl
lookup-is_one_of t ((k, v) ∷ m) = ground (arith, lookup-is_one_of t m)

hook_events-known : map (λ kv. kv.0) hook_events ≡ known_types
unfolding hook_events events_by_name event_name
hook_events-known = refl

events_of-known :
    (ts : List Bytes) → is_some (events_of (map (λ s. to_lower (trim_space s)) ts)) ≡ all_known ts
unfolding events_of
events_of-known [] = refl
events_of-known (t ∷ ts) =
    let item = to_lower (trim_space t) in
    let known =
      lookup-is_one_of item hook_events ∙ ap (λ names. is_one_of names item) hook_events-known in
    ground (arith, events_of-known ts, known)

pub are_known_lem :
    (types : Bytes) → is_some (events_of (annotation_items types)) ≡ are_known (some types)
unfolding annotation_items
are_known_lem types = events_of-known (split types (bytes ","))

abbrev final : Bytes → List Bytes → Bytes
final p [] = p
final p (q ∷ ps) = final q ps

-- The last part of a path that is not empty.
abbrev pub base_name : Bytes → Bytes
base_name path = final [] (keep_if (λ part. not (str_eq part [])) (split path (bytes "/")))

-- Partials, whose base name begins with an underscore, and files of white space.
abbrev pub is_left_out : Bytes → Bytes → Bool
is_left_out path content = has_prefix (base_name path) (bytes "_") || str_eq (trim_space content) []

base_of-final :
    (found : Bytes) (parts : List Bytes)
    → base_of found parts ≡ final found (keep_if (λ part. not (str_eq part [])) parts)
unfolding base_of keep_if
base_of-final found [] = refl
base_of-final found (p ∷ ps) = elim (Bool-cases (str_eq p [])) [
  | inl empty ↦ rw (empty, keep_if) (base_of-final found ps)
  | inr named ↦ rw (named, keep_if) (base_of-final p ps)
]

pub is_skipped_lem : (path content : Bytes) → is_skipped path content ≡ is_left_out path content
unfolding is_skipped
is_skipped_lem path content = ground (arith, base_of-final [] (split path (bytes "/")))

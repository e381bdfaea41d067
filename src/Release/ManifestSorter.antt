-- ===== src/Release/ManifestSorter.antt =====
-- manifest_sorter.go of pkg/release/util: the hooks and the other manifests of rendered files.
pub mod Known
pub mod Documents
pub mod Complete
use aws_ecommerce_k8s.Base.{Bool, true, Option, none, some, List, [], ◌∷◌, ◌++◌, map, if◌then◌else◌}
use aws_ecommerce_k8s.Base.Bytes.{Bytes, bytes, str_eq, str_lt, has_prefix, split}
use aws_ecommerce_k8s.Base.Int.{ℤ, pos}
use aws_ecommerce_k8s.Base.Decimal.{atoi}
use aws_ecommerce_k8s.Base.Assoc.{Assoc, lookup}
use aws_ecommerce_k8s.Base.Sort.{sort_by}
use aws_ecommerce_k8s.Base.Space.{trim_space, to_lower}
use aws_ecommerce_k8s.Release.Hook.{
  HookEvent, event_name, pre_install, post_install, pre_delete, post_delete, pre_upgrade,
  post_upgrade, pre_rollback, post_rollback, test, Hook, unset,
}
use aws_ecommerce_k8s.Release.Kinds.{
  Metadata, SimpleHead, Manifest, KindSortOrder, sort_manifests_by_kind, sort_hooks_by_kind,
}
use aws_ecommerce_k8s.Release.Manifest.{split_manifests, by_split_manifests_order}
use aws_ecommerce_k8s.Driver.Errors.{Error, Result, ok, err, wrapped}
use aws_ecommerce_k8s.Driver.Labels

abbrev pub hook_annotation : Bytes
hook_annotation = bytes "helm.sh/hook"

abbrev pub hook_weight_annotation : Bytes
hook_weight_annotation = bytes "helm.sh/hook-weight"

abbrev pub hook_delete_annotation : Bytes
hook_delete_annotation = bytes "helm.sh/hook-delete-policy"

abbrev pub hook_output_log_annotation : Bytes
hook_output_log_annotation = bytes "helm.sh/hook-output-log-policy"

unfoldable pub events_by_name : List HookEvent → Assoc HookEvent
unfolding event_name
events_by_name es = map (λ e. (event_name e, e)) es

unfoldable pub hook_events : Assoc HookEvent
unfolding events_by_name
hook_events =
    events_by_name (
      pre_install ∷ post_install ∷ pre_delete ∷ post_delete ∷ pre_upgrade ∷ post_upgrade
      ∷ pre_rollback ∷ post_rollback ∷ test ∷ [])
    ++ (bytes "test-success", test) ∷ []

-- `result`
pub record Sorted : Type 0 where
  pub hooks : List Hook
  pub generic : List Manifest

-- `strings.ToLower(strings.TrimSpace(…))` of each piece of a list with commas.
unfoldable pub annotation_items : Bytes → List Bytes
unfolding split trim_space to_lower
annotation_items value = map (λ s. to_lower (trim_space s)) (split value (bytes ","))

-- The values for which `operateAnnotationValues` calls its function.
unfoldable pub annotation_values : Assoc Bytes → Bytes → List Bytes
unfolding annotation_items lookup
annotation_values annotations annotation = elim (lookup annotation annotations) [
  | none ↦ []
  | some value ↦ annotation_items value
]

unfoldable pub calculate_hook_weight : Assoc Bytes → ℤ
unfolding atoi Labels.get
calculate_hook_weight annotations = elim (atoi (Labels.get annotations hook_weight_annotation)) [
  | none ↦ pos 0
  | some w ↦ w
]

-- The events that a list of hook types names, or nothing where one is unknown.
unfoldable pub events_of : List Bytes → Option (List HookEvent)
unfolding lookup hook_events
events_of [] = some []
events_of (t ∷ ts) =
    let rest = events_of ts in
    elim (lookup t hook_events) [
      | none ↦ none
      | some e ↦ elim rest [ none ↦ none | some es ↦ some (e ∷ es) ]
    ]

module _ (path m : Bytes) (entry : SimpleHead) where
  unfoldable pub add_generic : Sorted → Sorted
  add_generic result = record result {
    generic = result.generic ++ record { name = path; content = m; head = entry } ∷ [];
  }

  unfoldable pub add_hook : Metadata → Bytes → Sorted → Sorted
  unfolding events_of annotation_items annotation_values calculate_hook_weight
  add_hook metadata hook_types result = elim (events_of (annotation_items hook_types)) [
    | none ↦ result
    | some events ↦ record result {
      hooks =
          result.hooks
          ++ record {
            name = metadata.name;
            kind = entry.kind;
            path = path;
            manifest = m;
            events = events;
            last_run = record { started_at = 0; completed_at = 0; phase = unset };
            weight = calculate_hook_weight metadata.annotations;
            delete_policies = annotation_values metadata.annotations hook_delete_annotation;
            output_log_policies = annotation_values metadata.annotations hook_output_log_annotation;
          }
            ∷ [];
    }
  ]

  -- An entry without annotations has no hook annotation either.
  unfoldable pub add_metadata : Option Metadata → Sorted → Sorted
  unfolding add_generic add_hook lookup
  add_metadata none result = add_generic result
  add_metadata (some metadata) result = elim (lookup hook_annotation metadata.annotations) [
    | none ↦ add_generic result
    | some hook_types ↦ add_hook metadata hook_types result
  ]

  unfoldable pub add_entry : Sorted → Sorted
  unfolding add_metadata
  add_entry result = add_metadata entry.metadata result

-- The last element of a path that is not empty; `path.Base` for what the code asks of it.
unfoldable pub base_of : Bytes → List Bytes → Bytes
unfolding str_eq
base_of found [] = found
base_of found (p ∷ ps) = base_of (if str_eq p [] then found else p) ps

unfoldable pub is_skipped : Bytes → Bytes → Bool
unfolding base_of split has_prefix trim_space str_eq
is_skipped path content =
    if has_prefix (base_of [] (split path (bytes "/"))) (bytes "_")
    then true
    else str_eq (trim_space content) []

abbrev pub and_then :
    Sorted × Option Error → (Sorted → Sorted × Option Error) → Sorted × Option Error
and_then (result, none) f = f result
and_then (result, some e) f = (result, some e)

-- The hooks and the manifests in the order given, or the error and what was found before it.
abbrev pub sorted_result :
    KindSortOrder → Sorted × Option Error → (List Hook × List Manifest) × Option Error
sorted_result ordering (result, some e) = ((result.hooks, result.generic), some e)
sorted_result ordering (result, none) = (
  (sort_hooks_by_kind result.hooks ordering, sort_manifests_by_kind result.generic ordering),
  none,
)

-- `parse_head` is `yaml.Unmarshal` into a `SimpleHead`.
module _ (parse_head : Bytes → Result SimpleHead) where
  -- The loop of `manifestFile.sort` over the sorted keys; an error ends it.
  unfoldable pub sort_entries : Bytes → Assoc Bytes → List Bytes → Sorted → Sorted × Option Error
  unfolding Labels.get add_entry
  sort_entries path entries [] result = (result, none)
  sort_entries path entries (key ∷ keys) result =
      let m = Labels.get entries key in
      elim (parse_head m) [
        | err e ↦ (result, some (wrapped (bytes "YAML parse error on " ++ (path ++ bytes ": ")) e))
        | ok entry ↦ sort_entries path entries keys (add_entry path m entry result)
      ]

  unfoldable pub sort_file : Bytes → Assoc Bytes → Sorted → Sorted × Option Error
  unfolding sort_entries Labels.keys sort_by by_split_manifests_order
  sort_file path entries result =
      sort_entries path entries (sort_by by_split_manifests_order (Labels.keys entries)) result

  -- The loop over the files, which skips partials and empty files.
  unfoldable pub sort_files : Assoc Bytes → List Bytes → Sorted → Sorted × Option Error
  unfolding is_skipped sort_file split_manifests Labels.get
  sort_files files [] result = (result, none)
  sort_files files (path ∷ paths) result =
      let content = Labels.get files path in
      and_then
        (if is_skipped path content
          then (result, none)
          else sort_file path (split_manifests content) result)
        (λ r. sort_files files paths r)

  unfoldable pub sort_manifests :
      Assoc Bytes → KindSortOrder → (List Hook × List Manifest) × Option Error
  unfolding sort_files sort_by str_lt sort_hooks_by_kind sort_manifests_by_kind
  sort_manifests files ordering =
      sorted_result ordering (
        sort_files files (sort_by str_lt (Labels.keys files)) (record { hooks = []; generic = [] }))

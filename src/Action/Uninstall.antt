-- ===== src/Action/Uninstall.antt =====
-- uninstall.go and resource_policy.go: taking a release out of the cluster and out of the storage.
pub mod Purge
pub mod Steps
pub mod Gone
pub mod Purged
pub mod Policy
pub mod Kept
pub mod Run
use mathlib.Core.List.{reverse}
use aws_ecommerce_k8s.Base.{
  ℕ, Bool, true, false, not, Option, none, some, List, [], ◌∷◌, ◌++◌, map, if◌then◌else◌, is_some,
  ◌==◌,
}
use aws_ecommerce_k8s.Base.Bytes.{Bytes, bytes, str_eq}
use aws_ecommerce_k8s.Base.Int.{ℤ, pos, negsuc}
use aws_ecommerce_k8s.Base.Assoc.{Assoc, lookup}
use aws_ecommerce_k8s.Base.Space.{trim_space, to_lower}
use aws_ecommerce_k8s.Release.Status.{status_uninstalled, status_uninstalling}
use aws_ecommerce_k8s.Release.Hook.{Hook, HookEvent, pre_delete, post_delete}
use aws_ecommerce_k8s.Release.Defs.{Release, set_status}
use aws_ecommerce_k8s.Release.Sorter.{sort_by_revision}
use aws_ecommerce_k8s.Release.Kinds.{Metadata, SimpleHead, Manifest, uninstall_order}
use aws_ecommerce_k8s.Release.Manifest.{split_manifests}
use aws_ecommerce_k8s.Release.ManifestSorter.{sort_manifests}
use aws_ecommerce_k8s.Driver.Errors.{Error, Result, ok, err, wrapped, foreign, quote}
use aws_ecommerce_k8s.Driver.Interface.{Driver}
use aws_ecommerce_k8s.Storage
use aws_ecommerce_k8s.Storage.{Storage}
use aws_ecommerce_k8s.Chart.Names.{validate_release_name}
use aws_ecommerce_k8s.Action.Step.{
  Outcome, done, raised, map_error, Step, ◌>>=◌, ◌>>◌, pure, fail, gets, modify,
}
use aws_ecommerce_k8s.Action.Kube.{KubeClient}
use aws_ecommerce_k8s.Action.World.{World, attempt, observe, record_release}
use aws_ecommerce_k8s.Action.Hooks.{HookError}
use aws_ecommerce_k8s.Action.Hooks.Exec.{exec_hook}
use aws_ecommerce_k8s.Action.Errors.{
  ActionError, plain, completed_with, caught, text, in_context, raise, read, run_hooks_step, unless,
}

abbrev pub resource_policy_anno : Bytes
resource_policy_anno = bytes "helm.sh/resource-policy"

abbrev pub keep_policy : Bytes
keep_policy = bytes "keep"

-- The resource policy of a manifest, if it has one.
abbrev pub policy_in : Option Metadata → Option Bytes
policy_in none = none
policy_in (some metadata) = lookup resource_policy_anno metadata.annotations

unfoldable pub policy_of : Manifest → Option Bytes
unfolding lookup
policy_of m = policy_in m.head.metadata

unfoldable pub is_keep : Bytes → Bool
unfolding trim_space to_lower str_eq
is_keep policy = str_eq (to_lower (trim_space policy)) keep_policy

-- The lists `keep` and `remaining`.
unfoldable pub filter_manifests_to_keep : List Manifest → List Manifest × List Manifest
unfolding policy_of is_keep
filter_manifests_to_keep [] = ([], [])
filter_manifests_to_keep (m ∷ ms) =
    let (keep, remaining) = filter_manifests_to_keep ms in
    elim (policy_of m) [
      | none ↦ (keep, m ∷ remaining)
      | some policy ↦ (if is_keep policy then m ∷ keep else keep, remaining)
    ]

-- The fields of the struct, less the configuration.
pub record Uninstall : Type 0 where
  pub disable_hooks : Bool
  pub dry_run : Bool
  pub ignore_not_found : Bool
  pub keep_history : Bool
  pub wait_strategy : Bytes
  pub deletion_propagation : Bytes
  pub timeout : ℕ
  pub description : Bytes

-- `UninstallReleaseResponse`
pub record Response : Type 0 where
  pub release : Release
  pub info : Bytes

unfoldable pub parse_cascading_flag : Bytes → Bytes
unfolding str_eq
parse_cascading_flag flag =
    if str_eq flag (bytes "orphan")
    then bytes "Orphan"
    else if str_eq flag (bytes "foreground")
    then bytes "Foreground"
    else bytes "Background"

abbrev head_name : Option Metadata → Bytes
head_name none = []
head_name (some metadata) = metadata.name

-- The list of the resources that are kept.
unfoldable pub kept_text : List Manifest → Bytes
kept_text [] = []
kept_text (f ∷ fs) =
    bytes "["
    ++ (f.head.kind ++ (bytes "] " ++ (head_name f.head.metadata ++ (bytes "\n" ++ kept_text fs))))

-- The stream of the manifests to delete.
unfoldable pub manifest_stream : List Manifest → Bytes
manifest_stream [] = []
manifest_stream (f ∷ fs) = bytes "\n---\n" ++ (f.content ++ manifest_stream fs)

unfoldable pub kept_info : Bytes → Bytes
kept_info [] = []
kept_info (c ∷ kept) = bytes "These resources were kept due to the resource policy:\n" ++ (c ∷ kept)

abbrev pub uninstalling : ℕ → Release → Release
uninstalling now rel = record rel {
  info = record rel.info {
    status = status_uninstalling;
    deleted = now;
    description = bytes "Deletion in progress (or silently failed)";
  };
}

module _ {D : Type 0} (drv : Driver D) where
  -- Deletes each revision, up to the first error.
  unfoldable pub purge_releases : List Release → Storage D → Option Error × Storage D
  purge_releases [] s = (none, s)
  purge_releases (rel ∷ rels) s =
      let (r, s') = Storage.delete drv rel.name rel.version s in
      let rest = purge_releases rels s' in elim r [ err e ↦ (some e, s') | ok deleted ↦ rest ]

  -- `releaseContent`
  unfoldable pub release_content : Bytes → ℤ → Storage D → Result Release
  unfolding validate_release_name
  release_content name version s = elim (validate_release_name name) [
    | some e ↦ err (foreign (bytes "releaseContent: Release name is invalid: " ++ name))
    | none ↦ elim version [
      | negsuc n ↦ Storage.last drv name s
      | pos n ↦ if n == 0 then Storage.last drv name s else Storage.get drv name (pos n) s
    ]
  ]

module _ {K R P V D : Type 0} (kube : KubeClient K R P V) (drv : Driver D) (u : Uninstall) where
  unfoldable pub delete_with : Option (R → Bytes → K → List Error × K) → R → K → List Error × K
  delete_with none resources = kube.delete resources
  delete_with (some delete) resources =
      delete resources (parse_cascading_flag u.deletion_propagation)

  -- Nothing is deleted where there are no resources.
  abbrev pub delete_built : R → K → List Error × K
  delete_built resources k =
      if kube.is_empty resources
      then ([], k)
      else delete_with kube.delete_with_propagation resources k

  abbrev pub raise_all : List Error → Step (World K D) (List Error) (Unit {0})
  raise_all [] = pure tt
  raise_all (e ∷ es) = fail (e ∷ es)

  -- `deleteRelease`: the resources deleted and the text on those kept, or the errors.
  unfoldable pub delete_manifests :
      List Manifest × List Manifest → Step (World K D) (List Error) (R × Bytes)
  unfolding delete_with parse_cascading_flag kept_text manifest_stream
  delete_manifests (keep, remaining) = do
    resources ←
        attempt (λ e. wrapped (bytes "unable to build kubernetes objects for delete: ") e ∷ [])
          (kube.build (manifest_stream remaining) false)
    raise_all (← observe (delete_built resources))
    pure (resources, kept_text keep)

  unfoldable pub delete_sorted :
      (List Hook × List Manifest) × Option Error → Step (World K D) (List Error) (R × Bytes)
  unfolding delete_manifests filter_manifests_to_keep
  delete_sorted (sorted, some e) =
      fail (
        wrapped (bytes "corrupted release record. You must manually delete the resources: ") e ∷ [])
  delete_sorted (sorted, none) = delete_manifests (filter_manifests_to_keep sorted.1)

  unfoldable pub delete_release : Release → Step (World K D) (List Error) (R × Bytes)
  unfolding delete_sorted sort_manifests split_manifests
  delete_release rel =
      delete_sorted (sort_manifests kube.parse_head (split_manifests rel.manifest) uninstall_order)

  abbrev pub hooks_at : HookEvent → Step (World K D) ActionError (Unit {0})
  hooks_at event =
      unless u.disable_hooks (run_hooks_step (exec_hook kube drv u.wait_strategy u.timeout event))

  abbrev pub change : (Release → Release) → Step (World K D) ActionError (Unit {0})
  change f = modify (λ w. record w { rl = f w.rl })

  abbrev pub as_errors : Option Error → List Error
  as_errors none = []
  as_errors (some e) = e ∷ []

  -- The hooks after the deletion, whose error is kept for later.
  abbrev pub post_delete_hooks : World K D → Outcome ActionError (List HookError) × World K D
  post_delete_hooks w =
      if u.disable_hooks
      then (done [], w)
      else caught (exec_hook kube drv u.wait_strategy u.timeout post_delete w)

  -- Purges the history, or keeps it with the release recorded as uninstalled.
  unfoldable pub finish_history : List Release → Step (World K D) ActionError (List Error)
  unfolding purge_releases
  finish_history rels w =
      if u.keep_history
      then (record_release drv >> pure []) w
      else let (e, s) = purge_releases drv rels w.releases in
        (
          done (elim e [
            | none ↦ []
            | some e' ↦ wrapped (bytes "uninstall: Failed to purge the release: ") e' ∷ []
          ]),
          record w { releases = s },
        )

  unfoldable pub completed :
      List Error → List HookError → List Error → Step (World K D) ActionError (Unit {0})
  completed [] [] [] = pure tt
  completed waits hooks purges = fail (completed_with waits hooks purges)

  abbrev pub uninstalled : Release → Release
  uninstalled rel =
      set_status rel status_uninstalled
        (if str_eq u.description [] then bytes "Uninstallation complete" else u.description)

  -- What follows the loading of a release that is not uninstalled yet.
  unfoldable pub uninstall_release :
      List Release → V → Bytes → Step (World K D) ActionError Response
  unfolding delete_release finish_history completed kept_info
  uninstall_release rels waiter name = do
    now ← gets (λ w. kube.now w.cluster)
    change (uninstalling now)
    hooks_at pre_delete
    record_release drv
    deleted ← (λ w.
        map_error (λ es. text (bytes "failed to delete release: " ++ name)) (delete_release w.rl w))
    wait_error ← observe (kube.wait_for_delete waiter deleted.0 u.timeout)
    hook_errors ← post_delete_hooks
    change uninstalled
    purge_errors ← finish_history rels
    completed (as_errors wait_error) hook_errors purge_errors
    gets (λ w. record { release = w.rl; info = kept_info deleted.1 })

  -- A release that is uninstalled already is purged, unless its history is to be kept.
  unfoldable pub uninstalled_already :
      List Release → Release → Bytes → Step (World K D) ActionError (Option Response)
  unfolding purge_releases
  uninstalled_already rels rel name w =
      if u.keep_history
      then (
        raised (text (bytes "the release named " ++ (quote name ++ bytes " is already deleted"))),
        w,
      )
      else let (e, s) = purge_releases drv rels w.releases in
        elim e [
          | none ↦ (done (some (record { release = rel; info = [] })), record w { releases = s })
          | some e' ↦ (
            raised (in_context (bytes "uninstall: Failed to purge the release: ") e'),
            record w { releases = s },
          )
        ]

  -- The last revision of the sorted history.
  unfoldable pub uninstall_last :
      List Release → List Release → V → Bytes → Step (World K D) ActionError (Option Response)
  unfolding uninstall_release uninstalled_already
  uninstall_last [] rels waiter name = fail (text (bytes "no release provided"))
  uninstall_last (rel ∷ earlier) rels waiter name =
      if str_eq rel.info.status status_uninstalled then uninstalled_already rels rel name else do
        change (λ rl. rel)
        response ← uninstall_release rels waiter name
        pure (some response)

  unfoldable pub history_result :
      Result (List Release) → V → Bytes → Step (World K D) ActionError (Option Response)
  unfolding uninstall_last sort_by_revision
  history_result (err e) waiter name =
      if u.ignore_not_found
      then pure none
      else fail (in_context (bytes "uninstall: Release not loaded: " ++ (name ++ bytes ": ")) e)
  history_result (ok rels) waiter name =
      let sorted = sort_by_revision rels in uninstall_last (reverse sorted) sorted waiter name

  -- A dry run sees whether the release exists.
  abbrev pub show_release : Bytes → Step (World K D) ActionError (Option Response)
  show_release name = do
    rel ← read (release_content drv name (pos 0))
    pure (some (record { release = rel; info = [] }))

  abbrev pub load_and_uninstall : V → Bytes → Step (World K D) ActionError (Option Response)
  load_and_uninstall waiter name = do
    unless (not (is_some (validate_release_name name)))
        (fail (text (bytes "uninstall: Release name is invalid: " ++ name)))
    (λ w. history_result (Storage.history drv name w.releases) waiter name w)

  unfoldable pub run : Bytes → Step (World K D) ActionError (Option Response)
  unfolding history_result release_content
  run name = do
    raise (← observe kube.is_reachable)
    waiter ← attempt plain (kube.get_waiter u.wait_strategy)
    if u.dry_run then show_release name else load_and_uninstall waiter name

-- ===== src/Storage.antt =====
-- storage.go of pkg/storage: a storage engine for releases on top of any driver.
pub mod Key
pub mod Prune
pub mod Selectors
pub mod Newest
pub mod Versions
pub mod Bound
pub mod Candidates
pub mod RemoveLeastRecent
pub mod Fresh
pub mod Create
pub mod Sound
use aws_ecommerce_k8s.Base.{
  ℕ, zero, suc, ◌-◌, Bool, true, false, not, Option, none, some, List, [], ◌∷◌, ◌++◌, if◌then◌else◌,
  length, leb, ltb, ◌&&◌,
}
use aws_ecommerce_k8s.Base.Bytes.{Bytes, bytes, contains}
use aws_ecommerce_k8s.Base.Int.{ℤ, pos, negsuc}
use aws_ecommerce_k8s.Base.Assoc.{Assoc}
use aws_ecommerce_k8s.Release.Status.{status_uninstalled, status_deployed}
use aws_ecommerce_k8s.Release.Defs.{Release}
use aws_ecommerce_k8s.Release.Filter.{check, status_filter}
use aws_ecommerce_k8s.Release.Sorter.{reverse_sorted, sort_by_revision}
use aws_ecommerce_k8s.Driver.Errors.{
  Error, Result, ok, err, err_no_deployed_releases, no_revision, deletion_errors, error_text,
  is_release_not_found, is_no_deployed_releases,
}
use aws_ecommerce_k8s.Driver.Interface.{Driver}
use aws_ecommerce_k8s.Driver.Memory.{Memory, new_memory}
use aws_ecommerce_k8s.Storage.Key.{make_key}
use aws_ecommerce_k8s.Storage.Selectors.{owned_by_helm, deployed_by_helm}
use aws_ecommerce_k8s.Storage.Prune.{to_delete}

-- The state: what the driver keeps, and how many revisions of a release to keep (no limit if the
-- number is not positive).
pub record Storage (D : Type 0) : Type 0 where
  pub driver : D
  pub max_history : ℤ

-- `errs[0]`, or the error that counts them.
unfoldable pub join_errors : List Error → Option Error
join_errors [] = none
join_errors (e ∷ []) = some e
join_errors (e ∷ e' ∷ es) = some (deletion_errors (length (e ∷ e' ∷ es)) e)

-- What `DeployedAll` makes of the answer of the driver.
unfoldable pub deployed_all_result : Bytes → Result (List Release) → Result (List Release)
deployed_all_result name (ok ls) = ok ls
deployed_all_result name (err e) =
    if contains (error_text e) (bytes "not found")
    then err (err_no_deployed_releases name)
    else err e

-- `ls[0]` after `Reverse`, or the error for an empty list.
unfoldable pub newest_or : Error → Result (List Release) → Result Release
newest_or e (err e') = err e'
newest_or e (ok ls) = elim (reverse_sorted ls sort_by_revision) [ [] ↦ err e | rel ∷ rest ↦ ok rel ]

-- `lastDeployed`, or nil; an error other than "no deployed releases" ends the call.
unfoldable pub last_deployed_or : Result Release → Result (Option Release)
last_deployed_or (ok rls) = ok (some rls)
last_deployed_or (err e) = if is_no_deployed_releases e then ok none else err e

module _ {D : Type 0} (drv : Driver D) where
  unfoldable pub get : Bytes → ℤ → Storage D → Result Release
  get name version s = drv.get (make_key name version) s.driver

  unfoldable pub update : Release → Storage D → Option Error × Storage D
  update rls s =
      let (e, d) = drv.update (make_key rls.name rls.version) rls s.driver in
      (e, record s { driver = d })

  unfoldable pub delete : Bytes → ℤ → Storage D → Result Release × Storage D
  delete name version s =
      let (r, d) = drv.delete (make_key name version) s.driver in (r, record s { driver = d })

  unfoldable pub list_releases : Storage D → Result (List Release)
  list_releases s = drv.list (λ rls. true) s.driver

  unfoldable pub list_uninstalled : Storage D → Result (List Release)
  list_uninstalled s =
      drv.list (λ rls. check (status_filter status_uninstalled) (some rls)) s.driver

  unfoldable pub list_deployed : Storage D → Result (List Release)
  list_deployed s = drv.list (λ rls. check (status_filter status_deployed) (some rls)) s.driver

  unfoldable pub deployed_all : Bytes → Storage D → Result (List Release)
  deployed_all name s = deployed_all_result name (drv.query (deployed_by_helm name) s.driver)

  unfoldable pub deployed : Bytes → Storage D → Result Release
  deployed name s = newest_or (err_no_deployed_releases name) (deployed_all name s)

  unfoldable pub history : Bytes → Storage D → Result (List Release)
  history name s = drv.query (owned_by_helm name) s.driver

  unfoldable pub last : Bytes → Storage D → Result Release
  last name s = newest_or (no_revision name) (history name s)

  unfoldable pub delete_release_version : Bytes → ℤ → Storage D → Option Error × Storage D
  delete_release_version name version s =
      let (r, s') = delete name version s in (elim r [ ok rls ↦ none | err e ↦ some e ], s')

  -- Deletes each release, and collects the errors.
  unfoldable pub delete_each : Bytes → List Release → Storage D → List Error × Storage D
  delete_each name [] s = ([], s)
  delete_each name (rel ∷ rels) s =
      let (e, s') = delete_release_version name rel.version s in
      let (errs, s'') = delete_each name rels s' in
      (elim e [ none ↦ errs | some e' ↦ e' ∷ errs ], s'')

  unfoldable pub prune :
      Bytes → ℕ → List Release → Result (Option Release) → Storage D → Option Error × Storage D
  unfolding delete_each
  prune name maximum h (err e) s = (some e, s)
  prune name maximum h (ok last_deployed) s =
      let (errs, s') = delete_each name (to_delete maximum (sort_by_revision h) last_deployed) s in
      (join_errors errs, s')

  unfoldable pub prune_history :
      Bytes → ℕ → Result (List Release) → Storage D → Option Error × Storage D
  unfolding prune
  prune_history name maximum (err e) s = (some e, s)
  prune_history name maximum (ok h) s =
      if leb (length h) maximum
      then (none, s)
      else prune name maximum h (last_deployed_or (deployed name s)) s

  unfoldable pub remove_least_recent : Bytes → ℤ → Storage D → Option Error × Storage D
  unfolding prune_history
  remove_least_recent name (negsuc n) s = (none, s)
  remove_least_recent name (pos maximum) s = prune_history name maximum (history name s) s

  unfoldable pub create_driver : Release → Storage D → Option Error × Storage D
  create_driver rls s =
      let (e, d) = drv.create (make_key rls.name rls.version) rls s.driver in
      (e, record s { driver = d })

  -- An error of the pruning ends the call, unless there was nothing to prune.
  unfoldable pub create_pruned : Release → Option Error × Storage D → Option Error × Storage D
  unfolding create_driver
  create_pruned rls (none, s) = create_driver rls s
  create_pruned rls (some e, s) =
      if not (is_release_not_found e) then (some e, s) else create_driver rls s

  unfoldable pub create_with : ℤ → Release → Storage D → Option Error × Storage D
  unfolding create_pruned
  create_with (pos (suc n)) rls s = create_pruned rls (remove_least_recent rls.name (pos n) s)
  create_with _ rls s = create_driver rls s

  unfoldable pub create : Release → Storage D → Option Error × Storage D
  unfolding create_with
  create rls s = create_with s.max_history rls s

-- `Init` with a driver, and with none, where it takes a new in-memory one.
abbrev pub init : {D : Type 0} → D → Storage D
init d = record { driver = d; max_history = pos 0 }

abbrev pub init_default : Storage Memory
init_default = init new_memory

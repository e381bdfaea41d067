-- ===== src/Storage/RemoveLeastRecent.antt =====
-- `removeLeastRecent` over the in-memory driver: which revisions it deletes, and how many it leaves.
use Prim.Native.Nat.{max}
use aws_ecommerce_k8s.Base.{
  ℕ, ◌+◌, ◌-◌, ◌≤◌, ◌<◌, ◌≡◌, refl, ap, ◌∙◌, Bool, true, false, Option, none, some, List, [], ◌∷◌,
  length, keep_if, All, arith, Option-cases, inl, inr,
}
use aws_ecommerce_k8s.Base.Bytes.{Bytes, bytes, contains, str_eq}
use aws_ecommerce_k8s.Base.Int.{pos}
use aws_ecommerce_k8s.Base.Decimal.{IsInt64}
use aws_ecommerce_k8s.Base.Sort.{sort_by, IsSortedBy, sort_by-fixed}
use aws_ecommerce_k8s.Release.Defs.{Release}
use aws_ecommerce_k8s.Release.Status.{status_deployed}
use aws_ecommerce_k8s.Release.Sorter.{by_revision, sort_by_revision, reverse_sorted}
use aws_ecommerce_k8s.Driver.Errors.{
  ok, err_no_deployed_releases, is_no_deployed_releases, error_text,
}
use aws_ecommerce_k8s.Driver.Records.{Records, less}
use aws_ecommerce_k8s.Driver.Memory.{Memory, memory_driver, records_of, or_not_found}
use aws_ecommerce_k8s.Driver.Memory.Valid.{IsValid, records_of-IsHistory}
use aws_ecommerce_k8s.Driver.Memory.Query.{revisions, query_owned_lem, query_deployed_lem}
use aws_ecommerce_k8s.Storage.{
  Storage, history, deployed, deployed_all, deployed_all_result, newest_or, last_deployed_or, prune,
  prune_history, remove_least_recent, delete_each, join_errors,
}
use aws_ecommerce_k8s.Storage.Newest.{reverse_sorted-cons}
use aws_ecommerce_k8s.Storage.Prune.{to_delete}
use aws_ecommerce_k8s.Storage.Prune.Laws.{to_delete-oldest}
use aws_ecommerce_k8s.Storage.Versions.{has_version, revisions-IsDistinctVersions, releases}
use aws_ecommerce_k8s.Storage.Bound.{
  without_all, Pruned, delete_each-Pruned, length-without_all, has_version-without_all,
}
use aws_ecommerce_k8s.Storage.Candidates.{
  oldest, oldest-All, oldest-IsDistinctVersions, length-oldest, oldest-keeps, length-candidates,
  Present-self,
}

All-releases :
    (P : Release → Type 0) (recs : Records) → All (λ r. P r.rls) recs → All P (releases recs)
All-releases P [] h = tt
All-releases P (r ∷ recs) h = (h.0, All-releases P recs h.1)

IsSorted-releases : (recs : Records) → IsSortedBy less recs → IsSortedBy by_revision (releases recs)
IsSorted-releases [] s = tt
IsSorted-releases (r ∷ recs) s =
    (All-releases (λ y. by_revision y r.rls ≡ false) recs s.0, IsSorted-releases recs s.1)

-- The records are kept in order, so sorting a history again changes nothing.
sort_by_revision-revisions :
    (ns name : Bytes) (mem : Memory)
    → IsValid mem
    → sort_by_revision (revisions ns name mem) ≡ revisions ns name mem
unfolding revisions sort_by_revision
sort_by_revision-revisions ns name mem v = elim (Option-cases (records_of ns name mem)) [
  | inl missing ↦ rw missing (unfold sort_by in refl)
  | inr (recs, there) ↦ rw there (
      sort_by-fixed by_revision (releases recs)
        (IsSorted-releases recs (records_of-IsHistory ns mem v name recs there).sorted))
]

abbrev is_deployed : Release → Bool
is_deployed rls = str_eq rls.info.status status_deployed

abbrev first_of : List Release → Option Release
first_of [] = none
first_of (rel ∷ rest) = some rel

-- The newest deployed release of a history.
abbrev pub newest_deployed : List Release → Option Release
newest_deployed h = first_of (reverse_sorted (keep_if is_deployed h) sort_by_revision)

last_deployed_or-newest :
    (name : Bytes) (ls : List Release)
    → last_deployed_or
        (newest_or (err_no_deployed_releases name) (deployed_all_result name (or_not_found ls)))
      ≡ ok (first_of (reverse_sorted ls sort_by_revision))
unfolding last_deployed_or newest_or deployed_all_result or_not_found
last_deployed_or-newest name [] =
    unfold contains error_text is_no_deployed_releases reverse_sorted sort_by_revision sort_by in
    refl
last_deployed_or-newest name (x ∷ xs) = ground (arith, (reverse_sorted-cons x xs).2)

prune_history-longer :
    (name : Bytes) (maximum : ℕ) (h : List Release) (s : Storage Memory)
    → maximum < length h
    → prune_history memory_driver name maximum (or_not_found h) s
      ≡ prune memory_driver name maximum h (last_deployed_or (deployed memory_driver name s)) s
unfolding prune_history or_not_found
prune_history-longer name maximum [] s longer = elim longer [ ]
prune_history-longer name maximum (x ∷ xs) s longer = ground arith

prune_all :
    (name : Bytes) (maximum : ℕ) (h del : List Release) (last_deployed : Option Release)
    (s : Storage Memory)
    → to_delete maximum (sort_by_revision h) last_deployed ≡ del
    → (delete_each memory_driver name del s).0 ≡ []
    → prune memory_driver name maximum h (ok last_deployed) s
      ≡ (none, (delete_each memory_driver name del s).1)
unfolding prune join_errors
prune_all name maximum h del last_deployed s chosen clean = rw chosen (rw clean)

module _ (name : Bytes) (s : Storage Memory) (v : IsValid s.driver)
    (bound : str_eq s.driver.namespace [] ≡ false) where
  pub last_deployed_or-memory :
      last_deployed_or (deployed memory_driver name s)
      ≡ ok (newest_deployed (revisions s.driver.namespace name s.driver))
  unfolding deployed deployed_all
  last_deployed_or-memory = rw (query_deployed_lem name s.driver v bound) (
      last_deployed_or-newest name
        (keep_if is_deployed (revisions s.driver.namespace name s.driver)))

  module _ (plain : contains name (bytes ".v") ≡ false)
      (fits : All (λ r. IsInt64 r.version) (revisions s.driver.namespace name s.driver))
      (maximum : ℕ) (longer : maximum < length (revisions s.driver.namespace name s.driver)) where
    abbrev h : List Release
    h = revisions s.driver.namespace name s.driver

    abbrev doomed : List Release
    doomed = oldest (length h - maximum) (newest_deployed h) h

    chosen : to_delete maximum (sort_by_revision h) (newest_deployed h) ≡ doomed
    chosen =
        ap (λ l. to_delete maximum l (newest_deployed h))
          (sort_by_revision-revisions s.driver.namespace name s.driver v)
        ∙ to_delete-oldest maximum h (newest_deployed h) (omega arith)

    doomed-Pruned : Pruned name doomed s (delete_each memory_driver name doomed s)
    doomed-Pruned =
        let n = length h - maximum in
        let distinct = revisions-IsDistinctVersions s.driver.namespace name s.driver v in
        delete_each-Pruned name plain doomed s v
          (oldest-All n (newest_deployed h) h (λ r. IsInt64 r.version) fits)
          (oldest-IsDistinctVersions n (newest_deployed h) h distinct)
          (oldest-All n (newest_deployed h) h (λ r. has_version r.version h ≡ true)
            (Present-self h))

    remove_least_recent-doomed :
        remove_least_recent memory_driver name (pos maximum) s
        ≡ (none, (delete_each memory_driver name doomed s).1)
    unfolding remove_least_recent history
    remove_least_recent-doomed = rw (query_owned_lem name s.driver v bound) (
        prune_history-longer name maximum h s longer
        ∙ rw last_deployed_or-memory
            (prune_all name maximum h doomed (newest_deployed h) s chosen doomed-Pruned.errors))

    length-doomed : length h ≤ length doomed + max maximum 1
    length-doomed = omega (
      arith,
      length-oldest (length h - maximum) (newest_deployed h) h,
      length-candidates (newest_deployed h) h
          (revisions-IsDistinctVersions s.driver.namespace name s.driver v),
    )

    length-left : length (without_all doomed h) + length doomed ≡ length h
    length-left =
        let n = length h - maximum in
        length-without_all doomed h
          (oldest-IsDistinctVersions n (newest_deployed h) h
            (revisions-IsDistinctVersions s.driver.namespace name s.driver v))
          (oldest-All n (newest_deployed h) h (λ r. has_version r.version h ≡ true)
            (Present-self h))

    deployed_left :
        (last_deployed : Option Release) (d : Release)
        → last_deployed ≡ some d
        → has_version d.version (without_all (oldest (length h - maximum) last_deployed h) h)
          ≡ has_version d.version h
    deployed_left last_deployed d e = rw e (
        has_version-without_all (oldest (length h - maximum) (some d) h) h d.version
          (oldest-keeps (length h - maximum) d h))

    -- In a well-formed in-memory driver bound to a namespace, for a release name without ".v" in
    -- it whose history is longer than `maximum`: `removeLeastRecent` succeeds, keeps the driver
    -- well-formed and its settings, deletes exactly the oldest revisions that are not the newest
    -- deployed one, as many as the history is too long by, and so leaves at most `maximum`
    -- revisions (or one, where `maximum` is 0), the newest deployed one among them.
    pub remove_least_recent_lem :
        let h = revisions s.driver.namespace name s.driver in
        let out = remove_least_recent memory_driver name (pos maximum) s in
        let left = revisions s.driver.namespace name out.1.driver in
        (out.0 ≡ none)
        × IsValid out.1.driver
        × (out.1.driver.namespace ≡ s.driver.namespace)
        × (left ≡ without_all (oldest (length h - maximum) (newest_deployed h) h) h)
        × (length left ≤ max maximum 1)
        × ((d : Release)
            → newest_deployed h ≡ some d
            → has_version d.version left ≡ has_version d.version h)
    remove_least_recent_lem = rw remove_least_recent-doomed (
      refl,
      doomed-Pruned.valid,
      doomed-Pruned.namespace,
      doomed-Pruned.left,
      rw doomed-Pruned.left (omega (arith, length-left, length-doomed)),
      λ d e. rw doomed-Pruned.left (deployed_left (newest_deployed h) d e),
    )

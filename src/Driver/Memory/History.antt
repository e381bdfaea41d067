-- ===== src/Driver/Memory/History.antt =====
-- memory.go fills the interface that the actions rely on.
use mathlib.Core.Path.{subst}
use aws_ecommerce_k8s.Base.{
  ◌≡◌, refl, sym, ap, ◌∙◌, Bool, false, Option, none, some, List, [], ◌∷◌, map, ◌&&◌, if◌then◌else◌,
  is_some, arith, All, All-both, keep_if, Bool-cases, Option-cases, inl, inr,
}
use aws_ecommerce_k8s.Base.Bytes.{Bytes, bytes, contains, str_eq, str_eq_iff, str_eq_refl}
use aws_ecommerce_k8s.Base.Int.{ℤ, eq_int, eq_int_refl}
use aws_ecommerce_k8s.Base.Decimal.{IsInt64}
use aws_ecommerce_k8s.Release.Status.{status_deployed}
use aws_ecommerce_k8s.Release.Defs.{Release}
use aws_ecommerce_k8s.Driver.Errors.{Error, ok, err}
use aws_ecommerce_k8s.Driver.History.{IsRevision, is_deployed, has_version, IsHistoryDriver}
use aws_ecommerce_k8s.Driver.Records
use aws_ecommerce_k8s.Driver.Records.{Record, Records}
use aws_ecommerce_k8s.Driver.Records.Laws.{get-cons, get-nil, IsDistinct}
use aws_ecommerce_k8s.Driver.Memory.{
  Memory, memory_driver, namespace_of, create, update, delete, create_in, update_in, delete_in,
  add_result, remove_result, ensure_namespace, store, or_not_found, query, key_name, records_of,
}
use aws_ecommerce_k8s.Driver.Memory.Valid.{IsValid, IsOwn, records_of-IsHistory}
use aws_ecommerce_k8s.Driver.Memory.Spec.{held, find, view, find-delete_in}
use aws_ecommerce_k8s.Driver.Memory.Refine.{
  key_of, or_release, create-refines, update-refines, delete-refines, ambiguous_name_refused,
}
use aws_ecommerce_k8s.Driver.Memory.Keeps.{operations-IsValid}
use aws_ecommerce_k8s.Driver.Memory.Query.{revisions, query_owned_lem, query_deployed_lem}
use aws_ecommerce_k8s.Storage.Key.{make_key}
use aws_ecommerce_k8s.Storage.Key.Laws.{str_eq-make_key}
use aws_ecommerce_k8s.Storage.Selectors.{owned_by_helm, deployed_by_helm}

All-imp :
    {A : Type 0} (P Q : A → Type 0) (xs : List A) → ((x : A) → P x → Q x) → All P xs → All Q xs
All-imp P Q [] f h = tt
All-imp P Q (x ∷ xs) f h = (f x h.0, All-imp P Q xs f h.1)

All-releases :
    (P : Release → Type 0) (recs : Records)
    → All (λ r. P r.rls) recs
    → All P (map (λ (r : Record). r.rls) recs)
All-releases P [] h = tt
All-releases P (r ∷ recs) h = (h.0, All-releases P recs h.1)

All-keep_if :
    (P : Release → Type 0) (p : Release → Bool) (rels : List Release)
    → All P rels
    → All P (keep_if p rels)
unfolding keep_if
All-keep_if P p [] h = tt
All-keep_if P p (rel ∷ rels) h = elim (Bool-cases (p rel)) [
  | inl kept ↦ rw (kept, keep_if) (h.0, All-keep_if P p rels h.1)
  | inr left ↦ rw (left, keep_if) (All-keep_if P p rels h.1)
]

-- Every record is found under its own key.
get_self : (recs : Records) → IsDistinct recs → All (λ r. Records.get recs r.key ≡ some r) recs
get_self [] d = tt
get_self (r ∷ recs) d = (
  ground (arith, get-cons r recs r.key, str_eq_refl r.key),
  All-imp (λ r'. Records.get recs r'.key ≡ some r') _ recs
      (λ r' e. ground (arith, get-cons r recs r'.key, e, d.0, str_eq_iff r.key r'.key))
      (get_self recs d.1),
)

abbrev pub deployed_status : Release → Bool
deployed_status rls = str_eq rls.info.status status_deployed

deployed-get :
    (name : Bytes) (recs : Records) (v : ℤ)
    → All (IsOwn name) recs
    → IsDistinct recs
    → has_version v (keep_if deployed_status (map (λ (r : Record). r.rls) recs))
      ≡ is_deployed (held (Records.get recs (make_key name v)))
unfolding keep_if
deployed-get name [] v own d = rw (get-nil (make_key name v))
deployed-get name (r ∷ recs) v own d = ground (
  arith,
  get-cons r recs (make_key name v),
  (own.0).key,
  str_eq-make_key name r.rls.version v,
  str_eq_iff r.key (make_key name v),
  d.0,
  deployed-get name recs v own.1 d.1,
)

owned-get :
    (name : Bytes) (recs : Records) (v : ℤ)
    → All (IsOwn name) recs
    → has_version v (map (λ (r : Record). r.rls) recs)
      ≡ is_some (held (Records.get recs (make_key name v)))
owned-get name [] v own = rw (get-nil (make_key name v))
owned-get name (r ∷ recs) v own = ground (
  arith,
  get-cons r recs (make_key name v),
  (own.0).key,
  str_eq-make_key name r.rls.version v,
  owned-get name recs v own.1,
)

module _ (name ns : Bytes) where
  abbrev pub revision_at : ℤ → Memory → Option Release
  revision_at v mem = view ns name v mem

  -- A well-formed driver in the namespace, whose revisions of the name are of that namespace.
  pub record IsSound (mem : Memory) : Type 0 where
    pub valid : IsValid mem
    pub here : mem.namespace ≡ ns
    pub bound : str_eq ns [] ≡ false
    pub owned : (v : ℤ) (rls : Release) → revision_at v mem ≡ some rls → rls.namespace ≡ ns

  namespace_of-own :
      (rls : Release) → rls.namespace ≡ ns → str_eq ns [] ≡ false → namespace_of rls ≡ ns
  namespace_of-own rls e bound = ground (arith, e, bound)

  or_not_found-ok : (l rels : List Release) → or_not_found l ≡ ok rels → l ≡ rels
  unfolding or_not_found
  or_not_found-ok [] rels h = cc
  or_not_found-ok (x ∷ l) rels h = cc

  or_not_found-err : (l : List Release) (e : Error) → or_not_found l ≡ err e → l ≡ []
  unfolding or_not_found
  or_not_found-err [] e h = refl
  or_not_found-err (x ∷ l) e h = cc

  module _ (mem : Memory) (s : IsSound mem) where
    update-namespace :
        (key : Bytes) (rls : Release) → (update key rls mem).1.namespace ≡ namespace_of rls
    unfolding update update_in store
    update-namespace key rls = ground arith

    create-namespace :
        (key : Bytes) (rls : Release) → (create key rls mem).1.namespace ≡ namespace_of rls
    unfolding create create_in add_result ensure_namespace store
    create-namespace key rls = ground arith

    delete-namespace : (key : Bytes) → (delete key mem).1.namespace ≡ mem.namespace
    unfolding delete delete_in remove_result store
    delete-namespace key = ground arith

    at-update :
        (rls : Release) (v : ℤ)
        → IsRevision name ns rls
        → revision_at v (update (key_of rls) rls mem).1 ≡ (
            if eq_int rls.version v && is_some (revision_at rls.version mem)
            then some rls
            else revision_at v mem)
    at-update rls v (named, inside) = ground (
      arith,
      (update-refines rls mem s.valid).1 ns name v,
      namespace_of-own rls inside s.bound,
      named,
      str_eq_refl ns,
      str_eq_refl name,
    )

    at-created :
        (rls : Release) (v : ℤ)
        → IsRevision name ns rls
        → revision_at v (create (key_of rls) rls mem).1 ≡ (
            if eq_int rls.version v
            then some (or_release (revision_at rls.version mem) rls)
            else revision_at v mem)
    at-created rls v (named, inside) = ground (
      arith,
      (create-refines rls mem s.valid).1 ns name v,
      namespace_of-own rls inside s.bound,
      named,
      str_eq_refl ns,
      str_eq_refl name,
    )

    update-IsSound :
        (rls : Release) → IsRevision name ns rls → IsSound (update (key_of rls) rls mem).1
    update-IsSound rls own = record {
      valid = (operations-IsValid mem s.valid).1 rls;
      here = update-namespace (key_of rls) rls ∙ namespace_of-own rls own.1 s.bound;
      bound = s.bound;
      owned = λ v old there. ground (arith, at-update rls v own, there, s.owned v old, own.1);
    }

    pub create-IsSound :
        (rls : Release) → IsRevision name ns rls → IsSound (create (key_of rls) rls mem).1
    create-IsSound rls own = record {
      valid = (operations-IsValid mem s.valid).0 rls;
      here = create-namespace (key_of rls) rls ∙ namespace_of-own rls own.1 s.bound;
      bound = s.bound;
      owned = λ v old there.
          ground
            (arith, at-created rls v own, there, s.owned v old, own.1, s.owned rls.version old);
    }

    -- A deletion leaves a revision as it is, or takes it away.
    at-deleted :
        (key : Bytes) (v : ℤ) (rls : Release)
        → revision_at v (delete key mem).1 ≡ some rls
        → revision_at v mem ≡ some rls
    unfolding delete view
    at-deleted key v rls there = elim (Option-cases (key_name key)) [
      | inl invalid ↦ rw (invalid, delete) at there
      | inr (other, valid) ↦
          let left = rw (valid, delete) at there in
          ground (arith, left, find-delete_in other key mem s.valid ns name (make_key name v))
    ]

    missing-none :
        (key : Bytes) (v : ℤ) → revision_at v mem ≡ none → revision_at v (delete key mem).1 ≡ none
    missing-none key v missing = elim (Option-cases (revision_at v (delete key mem).1)) [
      | inl gone ↦ gone
      | inr (rls, there) ↦ ground (arith, at-deleted key v rls there, missing)
    ]

    -- A key that names another release is one that `Delete` refuses.
    deleted-none :
        (v : ℤ) (rls : Release)
        → IsInt64 v
        → (delete (make_key name v) mem).0 ≡ ok rls
        → revision_at v (delete (make_key name v) mem).1 ≡ none
    deleted-none v rls fits deleted = elim (Bool-cases (contains name (bytes ".v"))) [
      | inl ambiguous ↦ cc (ap (λ r. r.0) (ambiguous_name_refused name v mem ambiguous).1, deleted)
      | inr plain ↦ ground (
        arith,
        (delete-refines name v plain fits mem s.valid).1 ns name v,
        s.here,
        str_eq_refl ns,
        str_eq_refl name,
        eq_int_refl v,
      )
    ]

    delete-IsSound : (key : Bytes) → IsSound (delete key mem).1
    delete-IsSound key = record {
      valid = (operations-IsValid mem s.valid).2 key;
      here = delete-namespace key ∙ s.here;
      bound = s.bound;
      owned = λ v rls there. s.owned v rls (at-deleted key v rls there);
    }

    -- Every stored revision is found, and is one of the release.
    revisions-found :
        All
          (λ rls. (revision_at rls.version mem ≡ some rls) × IsRevision name ns rls)
          (revisions ns name mem)
    unfolding revisions view find
    revisions-found = elim (Option-cases (records_of ns name mem)) [
      | inl missing ↦ rw missing tt
      | inr (recs, there) ↦
          let h = records_of-IsHistory ns mem s.valid name recs there in
          rw there (
            All-releases _ recs (
              All-imp (λ r. IsOwn name r × (Records.get recs r.key ≡ some r)) _ recs
                (λ r (own, found). (
                  ground (arith, found, own.key),
                  (own.named, s.owned r.rls.version r.rls (ground (arith, there, found, own.key))),
                ))
                (All-both (IsOwn name) _ recs h.own (get_self recs h.distinct))))
    ]

    revisions-IsRevision : All (IsRevision name ns) (revisions ns name mem)
    revisions-IsRevision =
        All-imp _ (IsRevision name ns) (revisions ns name mem) (λ rls h. h.1) revisions-found

    asked_in : {A : Type 0} (f : Bytes → A) → f mem.namespace ≡ f ns
    asked_in f = ap f s.here

    owned-query : query (owned_by_helm name) mem ≡ or_not_found (revisions ns name mem)
    owned-query =
        query_owned_lem name mem s.valid (ap (λ n. str_eq n []) s.here ∙ s.bound)
        ∙ asked_in (λ n. or_not_found (revisions n name mem))

    deployed-query :
        query (deployed_by_helm name) mem
        ≡ or_not_found (keep_if deployed_status (revisions ns name mem))
    deployed-query =
        query_deployed_lem name mem s.valid (ap (λ n. str_eq n []) s.here ∙ s.bound)
        ∙ asked_in (λ n. or_not_found (keep_if deployed_status (revisions n name mem)))

    owned-at : (v : ℤ) → has_version v (revisions ns name mem) ≡ is_some (revision_at v mem)
    unfolding revisions view find
    owned-at v = elim (Option-cases (records_of ns name mem)) [
      | inl missing ↦ rw missing refl
      | inr (recs, there) ↦
          let h = records_of-IsHistory ns mem s.valid name recs there in
          rw there (owned-get name recs v h.own)
    ]

    deployed-at :
        (v : ℤ)
        → has_version v (keep_if deployed_status (revisions ns name mem))
          ≡ is_deployed (revision_at v mem)
    unfolding revisions view find
    deployed-at v = elim (Option-cases (records_of ns name mem)) [
      | inl missing ↦ rw missing (unfold keep_if in refl)
      | inr (recs, there) ↦
          let h = records_of-IsHistory ns mem s.valid name recs there in
          rw there (deployed-get name recs v h.own h.distinct)
    ]

  -- From the well-formed states of the in-memory driver in the namespace `ns`, where the revisions of
  -- `name` are of that namespace, Create, Update and Delete lead to such states, and do to the map of
  -- revisions what the interface says; the queries return revisions of the release, and for the deployed
  -- ones exactly the revisions whose status is "deployed".
  pub memory-IsHistoryDriver : IsHistoryDriver memory_driver name ns IsSound revision_at
  memory-IsHistoryDriver = record {
    update-Sound = λ rls mem own s. update-IsSound mem s rls own;
    create-Sound = λ rls mem own s. create-IsSound mem s rls own;
    delete-Sound = λ key mem s. delete-IsSound mem s key;
    at-update = λ rls mem v own s. at-update mem s rls v own;
    at-create = λ rls mem own s.
        ground (arith, at-created mem s rls rls.version own, eq_int_refl rls.version);
    owned-IsRevision = λ mem rels s asked.
        subst (All (IsRevision name ns))
          (or_not_found-ok (revisions ns name mem) rels (sym (owned-query mem s) ∙ asked))
          (revisions-IsRevision mem s);
    owned-stored = λ mem rels s asked.
        subst (All (λ rel. revision_at rel.version mem ≡ some rel))
          (or_not_found-ok (revisions ns name mem) rels (sym (owned-query mem s) ∙ asked))
          (All-imp _ (λ rel. revision_at rel.version mem ≡ some rel) (revisions ns name mem)
            (λ rls h. h.0) (revisions-found mem s));
    owned-versions = λ mem rels v s asked.
        subst (λ l. has_version v l ≡ is_some (revision_at v mem))
          (or_not_found-ok (revisions ns name mem) rels (sym (owned-query mem s) ∙ asked))
          (owned-at mem s v);
    deleted-none = λ mem v rls fits s deleted. deleted-none mem s v rls fits deleted;
    missing-none = λ key mem v s missing. missing-none mem s key v missing;
    deployed-IsRevision = λ mem rels s asked.
        subst (All (IsRevision name ns))
          (or_not_found-ok (keep_if deployed_status (revisions ns name mem)) rels
            (sym (deployed-query mem s) ∙ asked))
          (All-keep_if (IsRevision name ns) deployed_status (revisions ns name mem)
            (revisions-IsRevision mem s));
    deployed-versions = λ mem rels v s asked.
        subst (λ l. has_version v l ≡ is_deployed (revision_at v mem))
          (or_not_found-ok (keep_if deployed_status (revisions ns name mem)) rels
            (sym (deployed-query mem s) ∙ asked))
          (deployed-at mem s v);
    none-deployed = λ mem e v s asked recognised.
        sym (deployed-at mem s v)
        ∙ ap (has_version v) (
            or_not_found-err (keep_if deployed_status (revisions ns name mem)) e
              (sym (deployed-query mem s) ∙ asked));
  }

-- ===== src/Driver/Memory/Query.antt =====
-- What `Query` returns for the two label sets by which storage.go asks.
use mathlib.Core.List.{append-nil}
use aws_ecommerce_k8s.Base.{
  ◌≡◌, refl, ap, ◌∙◌, Bool, true, false, Option, none, some, List, [], ◌∷◌, map, if◌then◌else◌,
  arith, inl, inr, ◌⊎◌, ◌&&◌, All, keep_if,
}
use aws_ecommerce_k8s.Base.Bytes.{Bytes, str_eq, str_eq_iff}
use aws_ecommerce_k8s.Base.Assoc.{Assoc, lookup, insert, Every, IsMap}
use aws_ecommerce_k8s.Release.Defs.{Release}
use aws_ecommerce_k8s.Release.Status.{status_deployed}
use aws_ecommerce_k8s.Storage.Selectors.{owned_by_helm, deployed_by_helm}
use aws_ecommerce_k8s.Driver.Labels
use aws_ecommerce_k8s.Driver.Records.{Record, Records, labels_of}
use aws_ecommerce_k8s.Driver.Memory.{
  Memory, MemReleases, releases_in, records_of, collect_records, collect_releases,
  collect_namespaces, collect, query, or_not_found,
}
use aws_ecommerce_k8s.Driver.Memory.Valid.{IsValid, IsHistory, IsOwn, releases_in-IsReleases}

abbrev pub or_nil : Option Records → List Release
or_nil none = []
or_nil (some recs) = map (λ r. r.rls) recs

-- The releases stored for a name in a namespace, in the order of their revisions.
unfoldable pub revisions : Bytes → Bytes → Memory → List Release
revisions ns name mem = or_nil (records_of ns name mem)

pub matches-owned :
    (name : Bytes) (rls : Release)
    → Labels.matches (labels_of rls) (Labels.from_map Labels.init (owned_by_helm name))
      ≡ str_eq rls.name name
unfolding Labels.matches Labels.match_keys Labels.get Labels.keys Labels.from_map Labels.set
    labels_of lookup insert str_eq
matches-owned name rls = ground arith

pub matches-deployed :
    (name : Bytes) (rls : Release)
    → Labels.matches (labels_of rls) (Labels.from_map Labels.init (deployed_by_helm name))
      ≡ (str_eq rls.name name && str_eq rls.info.status status_deployed)
unfolding Labels.matches Labels.match_keys Labels.get Labels.keys Labels.from_map Labels.set
    labels_of lookup insert str_eq
matches-deployed name rls = ground arith

keep_if-nil : (cond : Release → Bool) → keep_if cond [] ≡ []
unfolding keep_if
keep_if-nil cond = refl

nothing_in : (mem : Memory) → mem.cache ≡ [] → releases_in mem.namespace mem ≡ []
unfolding releases_in lookup
nothing_in mem e = ground arith

-- A query that picks, of the releases of one name, those that pass `cond`.
module _ (name : Bytes) (cond : Release → Bool) (pick : Record → Bool)
    (picks : (r : Record)
      → r.lbs ≡ labels_of r.rls
      → pick r ≡ (str_eq r.rls.name name && cond r.rls)) where
  collect_records-history :
      (j : Bytes) (recs : Records)
      → All (IsOwn j) recs
      → collect_records pick recs
        ≡ (if str_eq j name then keep_if cond (map (λ r. r.rls) recs) else [])
  unfolding collect_records keep_if
  collect_records-history j [] own = ground arith
  collect_records-history j (r ∷ recs) own =
      ground (arith, picks r (own.0).lbs, (own.0).named, collect_records-history j recs own.1)

  collect_releases-named :
      (rels : MemReleases)
      → Every IsHistory rels
      → IsMap rels
      → collect_releases pick rels ≡ keep_if cond (or_nil (lookup name rels))
  unfolding collect_releases lookup
  collect_releases-named [] h m = unfold keep_if in refl
  collect_releases-named ((j, recs) ∷ rels) h m = ground (
    arith,
    collect_records-history j recs (h.0).own,
    collect_releases-named rels h.1 m.1,
    m.0,
    str_eq_iff j name,
    append-nil (keep_if cond (map (λ (r : Record). r.rls) recs)),
    keep_if-nil cond,
  )

  collect_namespaces-bound :
      (mem : Memory) (m : Assoc MemReleases)
      → str_eq mem.namespace [] ≡ false
      → (m ≡ [])
        ⊎ (collect_namespaces pick mem m ≡ collect_releases pick (releases_in mem.namespace mem))
  unfolding collect_namespaces
  collect_namespaces-bound mem [] bound = inl refl
  collect_namespaces-bound mem ((ns, rels) ∷ m) bound = inr (rw bound)

  collect-named :
      (mem : Memory)
      → IsValid mem
      → str_eq mem.namespace [] ≡ false
      → collect pick mem ≡ keep_if cond (revisions mem.namespace name mem)
  unfolding collect revisions records_of keep_if lookup
  collect-named mem v bound =
      let rels = releases_in-IsReleases mem.namespace mem v in
      elim (collect_namespaces-bound mem mem.cache bound) [
        | inl empty ↦ rw (nothing_in mem empty) (rw empty)
        | inr bounded ↦
            bounded
            ∙ collect_releases-named (releases_in mem.namespace mem) rels.histories rels.is_map
      ]

keep_all : (rs : List Release) → keep_if (λ rls. true) rs ≡ rs
unfolding keep_if
keep_all [] = refl
keep_all (rls ∷ rs) = rw (keep_all rs)

module _ (name : Bytes) (mem : Memory) (v : IsValid mem)
    (bound : str_eq mem.namespace [] ≡ false) where
  -- Asked for the releases of a name that Helm owns, a well-formed driver that is bound to a
  -- namespace returns all of them in that namespace, oldest revision first, or ErrReleaseNotFound.
  pub query_owned_lem :
      query (owned_by_helm name) mem ≡ or_not_found (revisions mem.namespace name mem)
  unfolding query
  query_owned_lem = ap or_not_found (
      collect-named name (λ rls. true) _
        (λ r e.
          ap (λ l. Labels.matches l (Labels.from_map Labels.init (owned_by_helm name))) e
          ∙ matches-owned name r.rls
          ∙ ground arith)
        mem v bound
      ∙ keep_all (revisions mem.namespace name mem))

  -- Asked for the deployed releases of a name that Helm owns, a well-formed driver that is bound to
  -- a namespace returns those of that name in that namespace whose status is "deployed", oldest
  -- revision first, or ErrReleaseNotFound.
  pub query_deployed_lem :
      query (deployed_by_helm name) mem
      ≡ or_not_found (
          keep_if
            (λ rls. str_eq rls.info.status status_deployed)
            (revisions mem.namespace name mem))
  unfolding query
  query_deployed_lem = ap or_not_found (
      collect-named name (λ rls. str_eq rls.info.status status_deployed) _
        (λ r e.
          ap (λ l. Labels.matches l (Labels.from_map Labels.init (deployed_by_helm name))) e
          ∙ matches-deployed name r.rls)
        mem v bound)

-- ===== src/Storage/Create.antt =====
-- `Create` over the in-memory driver: how long a history it leaves.
use Prim.Native.Nat.{max}
use mathlib.Core.Path.{subst}
use aws_ecommerce_k8s.Base.{
  ℕ, suc, ◌-◌, ◌≤◌, ◌≡◌, refl, ap, ◌∙◌, ◌⊎◌, true, false, false, Option, none, some, List, [], ◌∷◌,
  ◌++◌, length, length-append, leb, All, arith, Bool-cases, Option-cases, inl, inr,
}
use aws_ecommerce_k8s.Base.Bytes.{Bytes, bytes, contains, str_eq, str_eq_refl}
use aws_ecommerce_k8s.Base.Int.{pos}
use aws_ecommerce_k8s.Base.Decimal.{IsInt64}
use aws_ecommerce_k8s.Base.Sort.{length-sort_by}
use aws_ecommerce_k8s.Release.Defs.{Release}
use aws_ecommerce_k8s.Driver.Errors.{Error, release_not_found, is_release_not_found}
use aws_ecommerce_k8s.Driver.Records
use aws_ecommerce_k8s.Driver.Records.{Records, new_record, less}
use aws_ecommerce_k8s.Driver.Records.Laws.{add_fresh}
use aws_ecommerce_k8s.Driver.Memory
use aws_ecommerce_k8s.Driver.Memory.{
  Memory, memory_driver, namespace_of, records_of, create_in, store, ensure_namespace,
  set_namespace, or_not_found,
}
use aws_ecommerce_k8s.Driver.Memory.Valid.{IsValid}
use aws_ecommerce_k8s.Driver.Memory.Spec.{
  records_of-store, records_of-ensure, create_in_first, create_in_fresh, create_in_taken,
}
use aws_ecommerce_k8s.Driver.Memory.Refine.{key_of}
use aws_ecommerce_k8s.Driver.Memory.Query.{revisions, or_nil, query_owned_lem}
use aws_ecommerce_k8s.Storage
use aws_ecommerce_k8s.Storage.{
  Storage, history, remove_least_recent, prune_history, create_driver, create_pruned, create_with,
}
use aws_ecommerce_k8s.Storage.Versions.{releases, has_version}
use aws_ecommerce_k8s.Storage.Fresh.{fresh-without_all, create_driver-fresh}
use aws_ecommerce_k8s.Storage.Candidates.{oldest}
use aws_ecommerce_k8s.Storage.RemoveLeastRecent.{newest_deployed, remove_least_recent_lem}

length-releases : (recs : Records) → length (releases recs) ≡ length recs
length-releases [] = refl
length-releases (r ∷ recs) = ap suc (length-releases recs)

module _ (ns : Bytes) (rls : Release) (mem : Memory) where
  length-store :
      (recs : Records) → length (revisions ns rls.name (store ns rls.name recs mem)) ≡ length recs
  unfolding revisions
  length-store recs = ground (
    arith,
    records_of-store ns ns rls.name rls.name recs mem,
    str_eq_refl ns,
    str_eq_refl rls.name,
    length-releases recs,
  )

  length-added :
      (recs : Records)
      → Records.get recs (key_of rls) ≡ none
      → length (Records.add recs (new_record (key_of rls) rls)).1 ≡ suc (length (releases recs))
  unfolding new_record
  length-added recs fresh = rw (add_fresh recs (new_record (key_of rls) rls) fresh) (
      omega (
        arith,
        length-sort_by less (recs ++ new_record (key_of rls) rls ∷ []),
        length-append recs (new_record (key_of rls) rls ∷ []),
        length-releases recs,
      ))

  length-create_in :
      (create_in ns (key_of rls) rls mem).0 ≡ none
      → length (revisions ns rls.name (create_in ns (key_of rls) rls mem).1)
        ≡ suc (length (revisions ns rls.name mem))
  unfolding revisions
  length-create_in done = elim (Option-cases (records_of ns rls.name mem)) [
    | inl missing ↦
        rw (create_in_first ns (key_of rls) rls mem missing)
          (length-store (new_record (key_of rls) rls ∷ []) ∙ rw missing)
    | inr (recs, there) ↦ elim (Option-cases (Records.get recs (key_of rls))) [
      | inl fresh ↦ rw (create_in_fresh ns (key_of rls) rls mem recs there fresh) (
          length-store (Records.add recs (new_record (key_of rls) rls)).1
          ∙ rw there (length-added recs fresh))
      | inr (r, taken) ↦ cc (create_in_taken ns (key_of rls) rls mem recs there r taken)
    ]
  ]

revisions-ready :
    (ns name : Bytes) (mem : Memory)
    → revisions ns name (ensure_namespace ns (set_namespace ns mem)) ≡ revisions ns name mem
unfolding revisions
revisions-ready ns name mem =
    ap or_nil (records_of-ensure ns ns name (set_namespace ns mem))
    ∙ (unfold records_of Memory.releases_in in refl)

length-create :
    (rls : Release) (mem : Memory)
    → (Memory.create (key_of rls) rls mem).0 ≡ none
    → length (revisions (namespace_of rls) rls.name (Memory.create (key_of rls) rls mem).1)
      ≡ suc (length (revisions (namespace_of rls) rls.name mem))
unfolding Memory.create
length-create rls mem done =
    let ns = namespace_of rls in
    length-create_in ns rls (ensure_namespace ns (set_namespace ns mem)) done
    ∙ ap suc (ap length (revisions-ready ns rls.name mem))

module _ (rls : Release) (s : Storage Memory) (v : IsValid s.driver)
    (bound : str_eq s.driver.namespace [] ≡ false) (own : namespace_of rls ≡ s.driver.namespace)
    (plain : contains rls.name (bytes ".v") ≡ false)
    (fits : All (λ r. IsInt64 r.version) (revisions s.driver.namespace rls.name s.driver)) (n : ℕ)
    (limited : s.max_history ≡ pos (suc n)) where
  abbrev count : Storage Memory → ℕ
  count t = length (revisions (namespace_of rls) rls.name t.driver)

  -- A call of the driver's `Create` that succeeds adds one revision.
  count-create_driver :
      (t : Storage Memory)
      → (create_driver memory_driver rls t).0 ≡ none
      → count (create_driver memory_driver rls t).1 ≡ suc (count t)
  unfolding create_driver
  count-create_driver t done = length-create rls t.driver done

  abbrev IsFresh : Storage Memory → Type 0
  IsFresh t = has_version rls.version (revisions (namespace_of rls) rls.name t.driver) ≡ false

  -- What the pruning before `Create` comes to: it leaves room, or finds no history at all.
  abbrev MakesRoom : Option Error × Storage Memory → Type 0
  MakesRoom out =
      ((out.0 ≡ none) ⊎ (out.0 ≡ some release_not_found))
      × (count out.1 ≤ max n 1)
      × IsValid out.1.driver
      × (IsFresh s → IsFresh out.1)

  prune_history-short :
      (h : List Release)
      → count s ≡ length h
      → length h ≤ n
      → MakesRoom (prune_history memory_driver rls.name n (or_not_found h) s)
  unfolding prune_history or_not_found
  prune_history-short [] e short = (inr refl, omega arith, v, λ f. f)
  prune_history-short (x ∷ xs) e short =
      let le : leb (length (x ∷ xs)) n ≡ true = ground arith in
      rw le (inl refl, omega arith, v, λ f. f)

  makes_room : MakesRoom (remove_least_recent memory_driver rls.name (pos n) s)
  unfolding remove_least_recent history
  makes_room =
      let h = revisions s.driver.namespace rls.name s.driver in
      elim (Bool-cases (leb (length h) n)) [
        | inl short ↦
            rw (query_owned_lem rls.name s.driver v bound)
              (prune_history-short h (rw own) (ground arith))
        | inr long ↦
            let pruned = remove_least_recent_lem rls.name s v bound plain fits n (ground arith) in
            (
              inl pruned.0,
              rw own pruned.4,
              pruned.1,
              rw own (λ f. rw (pruned.3) (
                  fresh-without_all (oldest (length h - n) (newest_deployed h) h) h rls.version f)),
            )
      ]

  create_pruned-room :
      (out : Option Error × Storage Memory)
      → MakesRoom out
      → create_pruned memory_driver rls out ≡ create_driver memory_driver rls out.1
  unfolding create_pruned is_release_not_found
  create_pruned-room (none, t) room = refl
  create_pruned-room (some e, t) room = ground arith

  create-create_driver :
      Storage.create memory_driver rls s
      ≡ create_driver memory_driver rls (remove_least_recent memory_driver rls.name (pos n) s).1
  unfolding Storage.create create_with
  create-create_driver =
      ap (λ m. create_with memory_driver m rls s) limited
      ∙ create_pruned-room (remove_least_recent memory_driver rls.name (pos n) s) makes_room

  -- In a well-formed in-memory driver bound to the namespace of the release, whose name has no
  -- ".v" in it, and with `MaxHistory` n + 1: `Create` succeeds if the revision is not stored yet, and
  -- where it succeeds, the release has at most `MaxHistory` revisions stored afterwards, or 2 where
  -- `MaxHistory` is 1.
  pub create_bound :
      let ns = s.driver.namespace in
      let out = Storage.create memory_driver rls s in
      (has_version rls.version (revisions ns rls.name s.driver) ≡ false → out.0 ≡ none)
      × (out.0 ≡ none → length (revisions ns rls.name out.1.driver) ≤ max (suc n) 2)
  create_bound =
      let pruned = (remove_least_recent memory_driver rls.name (pos n) s).1 in
      let out = Storage.create memory_driver rls s in
      subst
        (λ ns.
          (has_version rls.version (revisions ns rls.name s.driver) ≡ false → out.0 ≡ none)
          × (out.0 ≡ none → length (revisions ns rls.name out.1.driver) ≤ max (suc n) 2))
        own
        (rw create-create_driver (
          λ fresh. create_driver-fresh rls pruned makes_room.2 (makes_room.3 fresh),
          λ done. omega (arith, count-create_driver pruned done, makes_room.1),
        ))

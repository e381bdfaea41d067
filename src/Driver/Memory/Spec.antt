-- ===== src/Driver/Memory/Spec.antt =====
-- What the in-memory driver is for its callers: a map from namespace, release name and revision
-- to a release. Each method is shown to be the operation on that map that driver.go promises.
use aws_ecommerce_k8s.Base.{
  ◌≡◌, refl, Option, none, some, [], ◌∷◌, if◌then◌else◌, is_some, arith, Option-cases, inl, inr,
  ◌&&◌,
}
use aws_ecommerce_k8s.Base.Bytes.{Bytes, str_eq, str_eq_iff}
use aws_ecommerce_k8s.Base.Int.{ℤ}
use aws_ecommerce_k8s.Base.Assoc.{lookup, insert, lookup-insert}
use aws_ecommerce_k8s.Release.Defs.{Release}
use aws_ecommerce_k8s.Driver.Errors.{release_not_found, release_exists}
use aws_ecommerce_k8s.Driver.Records
use aws_ecommerce_k8s.Driver.Records.{Record, Records, less, labels_of, new_record}
use aws_ecommerce_k8s.Driver.Records.Laws.{
  get-add, add_fresh, add_taken, get-cons, get-remove, fst-remove, get-replace, exists-get, get-nil,
}
use aws_ecommerce_k8s.Driver.Memory
use aws_ecommerce_k8s.Driver.Memory.{
  Memory, MemReleases, releases_in, records_of, store, ensure_namespace, set_namespace,
  namespace_of, create, create_in, add_result, update, update_in, delete, delete_in, remove_result,
  key_name, new_memory,
}
use aws_ecommerce_k8s.Driver.Memory.Valid.{IsValid, records_of-IsHistory}
use aws_ecommerce_k8s.Storage.Key.{make_key}

abbrev pub held : Option Record → Option Release
held none = none
held (some r) = some r.rls

abbrev pub find_in : Bytes → Option Records → Option Record
find_in key none = none
find_in key (some recs) = Records.get recs key

-- The record at a key, and the release at a revision.
unfoldable pub find : Bytes → Bytes → Bytes → Memory → Option Record
find ns name key mem = find_in key (records_of ns name mem)

unfoldable pub view : Bytes → Bytes → ℤ → Memory → Option Release
view ns name version mem = held (find ns name (make_key name version) mem)

releases_in-store :
    (ns ns' : Bytes) (name : Bytes) (recs : Records) (mem : Memory)
    → releases_in ns' (store ns name recs mem)
      ≡ (if str_eq ns ns' then insert name recs (releases_in ns mem) else releases_in ns' mem)
unfolding store releases_in
releases_in-store ns ns' name recs mem =
    ground (arith, lookup-insert ns ns' (insert name recs (releases_in ns mem)) mem.cache)

pub records_of-store :
    (ns ns' name name' : Bytes) (recs : Records) (mem : Memory)
    → records_of ns' name' (store ns name recs mem)
      ≡ (if str_eq ns ns' && str_eq name name' then some recs else records_of ns' name' mem)
unfolding records_of
records_of-store ns ns' name name' recs mem = ground (
  arith,
  releases_in-store ns ns' name recs mem,
  lookup-insert name name' recs (releases_in ns mem),
  str_eq_iff ns ns',
)

lookup-nil : (name : Bytes) → lookup {V = Records} name [] ≡ none
unfolding lookup
lookup-nil name = refl

pub records_of-ensure :
    (ns ns' name : Bytes) (mem : Memory)
    → records_of ns' name (ensure_namespace ns mem) ≡ records_of ns' name mem
unfolding records_of releases_in ensure_namespace
records_of-ensure ns ns' name mem =
    ground (
      arith,
      lookup-insert {V = MemReleases} ns ns' [] mem.cache,
      str_eq_iff ns ns',
      lookup-nil name,
    )

find-store :
    (ns ns' name name' key : Bytes) (recs : Records) (mem : Memory)
    → find ns' name' key (store ns name recs mem) ≡ (
        if str_eq ns ns' && str_eq name name' then Records.get recs key else find ns' name' key mem)
unfolding find
find-store ns ns' name name' key recs mem =
    ground (arith, records_of-store ns ns' name name' recs mem)

pub find-ensure :
    (ns ns' name key : Bytes) (mem : Memory)
    → find ns' name key (ensure_namespace ns mem) ≡ find ns' name key mem
unfolding find
find-ensure ns ns' name key mem = rw (records_of-ensure ns ns' name mem)

-- The driver's current namespace plays no part in what is stored.
pub find-set_namespace :
    (ns ns' name key : Bytes) (mem : Memory)
    → find ns' name key (set_namespace ns mem) ≡ find ns' name key mem
unfolding find records_of releases_in
find-set_namespace ns ns' name key mem = refl

abbrev pub or_new : Option Record → Record → Record
or_new none rec = rec
or_new (some r) rec = r

module _ (ns key : Bytes) (rls : Release) (mem : Memory) where
  pub create_in_first :
      records_of ns rls.name mem ≡ none
      → create_in ns key rls mem ≡ (none, store ns rls.name (new_record key rls ∷ []) mem)
  unfolding create_in
  create_in_first missing = rw (missing, create_in)

  module _ (recs : Records) (there : records_of ns rls.name mem ≡ some recs) where
    pub create_in_fresh :
        Records.get recs key ≡ none
        → create_in ns key rls mem
          ≡ (none, store ns rls.name (Records.add recs (new_record key rls)).1 mem)
    unfolding create_in new_record
    create_in_fresh fresh = rw (there, create_in) (rw (add_fresh recs (new_record key rls) fresh))

    pub create_in_taken :
        (r : Record)
        → Records.get recs key ≡ some r
        → create_in ns key rls mem ≡ (some release_exists, mem)
    unfolding create_in new_record
    create_in_taken r taken =
        rw (there, create_in) (rw (add_taken recs (new_record key rls) (rw taken)))

module _ (ns key : Bytes) (rls : Release) (mem : Memory) (v : IsValid mem) where
  pub create_in_result :
      (create_in ns key rls mem).0
      ≡ (if is_some (find ns rls.name key mem) then some release_exists else none)
  unfolding find
  create_in_result = elim (Option-cases (records_of ns rls.name mem)) [
    | inl missing ↦ rw (create_in_first ns key rls mem missing) (rw missing)
    | inr (recs, there) ↦ elim (Option-cases (Records.get recs key)) [
      | inl fresh ↦ rw (create_in_fresh ns key rls mem recs there fresh) (rw (there, fresh))
      | inr (r, taken) ↦ rw (create_in_taken ns key rls mem recs there r taken) (rw (there, taken))
    ]
  ]

  pub find-create_in :
      (ns' name' key' : Bytes)
      → find ns' name' key' (create_in ns key rls mem).1 ≡ (
          if str_eq ns ns' && (str_eq rls.name name' && str_eq key key')
          then some (or_new (find ns rls.name key mem) (new_record key rls))
          else find ns' name' key' mem)
  unfolding find new_record
  find-create_in ns' name' key' = elim (Option-cases (records_of ns rls.name mem)) [
    | inl missing ↦ rw (create_in_first ns key rls mem missing) (
        ground (
          arith,
          missing,
          records_of-store ns ns' rls.name name' (new_record key rls ∷ []) mem,
          get-cons (new_record key rls) [] key',
          get-nil key',
          str_eq_iff key key',
          str_eq_iff ns ns',
          str_eq_iff rls.name name',
        ))
    | inr (recs, there) ↦ elim (Option-cases (Records.get recs key)) [
      | inl fresh ↦ rw (create_in_fresh ns key rls mem recs there fresh) (
          ground (
            arith,
            there,
            fresh,
            str_eq_iff ns ns',
            str_eq_iff rls.name name',
            str_eq_iff key key',
            records_of-store ns ns' rls.name name' (Records.add recs (new_record key rls)).1 mem,
            get-add recs (new_record key rls) key'
                (records_of-IsHistory ns mem v rls.name recs there).distinct,
          ))
      | inr (r, taken) ↦ rw (create_in_taken ns key rls mem recs there r taken) (
          ground (
            arith,
            there,
            taken,
            str_eq_iff ns ns',
            str_eq_iff rls.name name',
            str_eq_iff key key',
          ))
    ]
  ]

module _ (ns key : Bytes) (rls : Release) (mem : Memory) where
  pub update_in_result :
      (update_in ns key rls mem).0
      ≡ (if is_some (find ns rls.name key mem) then none else some release_not_found)
  unfolding find update_in
  update_in_result = elim (Option-cases (records_of ns rls.name mem)) [
    | inl missing ↦ ground (arith, missing)
    | inr (recs, there) ↦ ground (arith, there, exists-get recs key)
  ]

  pub find-update_in :
      (ns' name' key' : Bytes)
      → find ns' name' key' (update_in ns key rls mem).1 ≡ (
          if str_eq ns ns'
            && (str_eq rls.name name' && str_eq key key')
            && is_some (find ns rls.name key mem)
          then some (new_record key rls)
          else find ns' name' key' mem)
  unfolding find update_in new_record
  find-update_in ns' name' key' = elim (Option-cases (records_of ns rls.name mem)) [
    | inl missing ↦ ground (arith, missing)
    | inr (recs, there) ↦ ground (
      arith,
      there,
      exists-get recs key,
      str_eq_iff ns ns',
      str_eq_iff rls.name name',
      str_eq_iff key key',
      get-replace recs (new_record key rls) key',
      records_of-store ns ns' rls.name name' (Records.replace recs key (new_record key rls)).1 mem,
    )
  ]

module _ (name key : Bytes) (mem : Memory) (v : IsValid mem) where
  pub delete_in_result : (delete_in name key mem).0 ≡ Memory.found (find mem.namespace name key mem)
  unfolding find delete_in Memory.found
  delete_in_result = elim (Option-cases (records_of mem.namespace name mem)) [
    | inl missing ↦ ground (arith, missing)
    | inr (recs, there) ↦ ground (arith, there, fst-remove recs key)
  ]

  pub find-delete_in :
      (ns' name' key' : Bytes)
      → find ns' name' key' (delete_in name key mem).1 ≡ (
          if str_eq mem.namespace ns' && (str_eq name name' && str_eq key key')
          then none
          else find ns' name' key' mem)
  unfolding find delete_in
  find-delete_in ns' name' key' = elim (Option-cases (records_of mem.namespace name mem)) [
    | inl missing ↦ ground (arith, missing, str_eq_iff mem.namespace ns', str_eq_iff name name')
    | inr (recs, there) ↦ ground (
      arith,
      there,
      fst-remove recs key,
      str_eq_iff mem.namespace ns',
      str_eq_iff name name',
      str_eq_iff key key',
      get-remove recs key key' (records_of-IsHistory mem.namespace mem v name recs there).distinct,
      records_of-store mem.namespace ns' name name' (Records.remove recs key).1 mem,
    )
  ]

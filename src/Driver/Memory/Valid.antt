-- ===== src/Driver/Memory/Valid.antt =====
-- The well-formedness of the in-memory driver, which every method keeps.
use mathlib.Core.Path.{subst}
use aws_ecommerce_k8s.Base.{
  ◌≡◌, refl, sym, ap, ◌∙◌, false, some, [], ◌∷◌, ◌++◌, arith, Bool-cases, Option-cases, inl, inr,
  All, All-append,
}
use aws_ecommerce_k8s.Base.Bytes.{Bytes, str_eq, str_eq_iff}
use aws_ecommerce_k8s.Base.Int.{ℤ, lt_int}
use aws_ecommerce_k8s.Base.Assoc.{
  lookup, insert, IsMap, IsMap-insert, Every, Every-insert, Every-lookup,
}
use aws_ecommerce_k8s.Base.Sort.{sort_by, IsSortedBy, IsWeakOrder, sort_by-All, sort_by-IsSortedBy}
use aws_ecommerce_k8s.Release.Defs.{Release}
use aws_ecommerce_k8s.Driver.Records
use aws_ecommerce_k8s.Driver.Records.{Record, Records, less, labels_of, new_record}
use aws_ecommerce_k8s.Driver.Records.Laws.{
  IsDistinct, IsDistinct-add, IsDistinct-remove, IsDistinct-replace, add_fresh, add_taken,
  remove-cons, replace-cons,
}
use aws_ecommerce_k8s.Driver.Memory.{
  Memory, MemReleases, releases_in, records_of, store, ensure_namespace, new_memory,
}
use aws_ecommerce_k8s.Storage.Key.{make_key}
use aws_ecommerce_k8s.Storage.Key.Laws.{make_key_inj}

-- A record of the release `name`: its key and its labels are those of what it holds.
pub record IsOwn (name : Bytes) (r : Record) : Type 0 where
  pub key : r.key ≡ make_key name r.rls.version
  pub lbs : r.lbs ≡ labels_of r.rls
  pub named : r.rls.name ≡ name

-- The records of the release `name`: ascending revisions, one record for each.
pub record IsHistory (name : Bytes) (rs : Records) : Type 0 where
  pub own : All (IsOwn name) rs
  pub distinct : IsDistinct rs
  pub sorted : IsSortedBy less rs

less-IsWeakOrder : IsWeakOrder less
less-IsWeakOrder = record { asym = λ a b h. ground arith; neg_trans = λ a b c h k. ground arith }

module _ (name : Bytes) where
  pub IsOwn-new_record :
      (rls : Release)
      → rls.name ≡ name
      → IsOwn name (new_record (make_key rls.name rls.version) rls)
  unfolding new_record
  IsOwn-new_record rls e = record {
    key = ap (λ n. make_key n rls.version) e;
    lbs = refl;
    named = e;
  }

  IsHistory-sort :
      (rs : Records)
      → All (IsOwn name) rs
      → IsDistinct (sort_by less rs)
      → IsHistory name (sort_by less rs)
  IsHistory-sort rs own distinct = record {
    own = sort_by-All less (IsOwn name) rs own;
    distinct = distinct;
    sorted = sort_by-IsSortedBy less-IsWeakOrder rs;
  }

  pub IsHistory-add :
      (rs : Records) (r : Record)
      → IsHistory name rs
      → IsOwn name r
      → IsHistory name (Records.add rs r).1
  IsHistory-add rs r h own = elim (Option-cases (Records.get rs r.key)) [
    | inl fresh ↦
        let distinct = rw (add_fresh rs r fresh) at (IsDistinct-add rs r h.distinct) in
        rw (add_fresh rs r fresh) (
          IsHistory-sort (rs ++ r ∷ []) (All-append (IsOwn name) rs (r ∷ []) h.own (own, tt))
            distinct)
    | inr (x, taken) ↦ rw (add_taken rs r (rw taken)) h
  ]

  All-remove {κ} :
      (P : Record → Type κ) (rs : Records) (k : Bytes) → All P rs → All P (Records.remove rs k).1
  All-remove P [] k h = unfold Records.remove Records.index in tt
  All-remove P (r ∷ rs) k h = elim (Bool-cases (str_eq r.key k)) [
    | inl same ↦ rw (remove-cons r rs k) (rw same h.1)
    | inr other ↦ rw (remove-cons r rs k) (rw other (h.0, All-remove P rs k h.1))
  ]

  IsSorted-remove :
      (rs : Records) (k : Bytes) → IsSortedBy less rs → IsSortedBy less (Records.remove rs k).1
  IsSorted-remove [] k h = unfold Records.remove Records.index in tt
  IsSorted-remove (r ∷ rs) k h = elim (Bool-cases (str_eq r.key k)) [
    | inl same ↦ rw (remove-cons r rs k) (rw same h.1)
    | inr other ↦
        rw (remove-cons r rs k)
          (rw other (All-remove (λ y. less y r ≡ false) rs k h.0, IsSorted-remove rs k h.1))
  ]

  pub IsHistory-remove :
      (rs : Records) (k : Bytes) → IsHistory name rs → IsHistory name (Records.remove rs k).1
  IsHistory-remove rs k h = record {
    own = All-remove (IsOwn name) rs k h.own;
    distinct = IsDistinct-remove rs k h.distinct;
    sorted = IsSorted-remove rs k h.sorted;
  }

  same_version :
      {r rec : Record}
      → IsOwn name r
      → IsOwn name rec
      → r.key ≡ rec.key
      → r.rls.version ≡ rec.rls.version
  same_version {r} {rec} o o' e =
      make_key_inj name r.rls.version rec.rls.version (sym o.key ∙ e ∙ o'.key)

  module _ (rec : Record) (o : IsOwn name rec) where
    -- A record that is replaced keeps its revision.
    All-replace_version {κ} :
        (P : ℤ → Type κ) (rs : Records)
        → All (IsOwn name) rs
        → All (λ y. P y.rls.version) rs
        → All (λ y. P y.rls.version) (Records.replace rs rec.key rec).1
    All-replace_version P [] own h = unfold Records.replace Records.index in tt
    All-replace_version P (r ∷ rs) own h = elim (Bool-cases (str_eq r.key rec.key)) [
      | inl same ↦
          rw (replace-cons r rs rec.key rec)
            (rw same (subst P (same_version own.0 o ((str_eq_iff r.key rec.key).0 same)) h.0, h.1))
      | inr other ↦
          rw (replace-cons r rs rec.key rec) (rw other (h.0, All-replace_version P rs own.1 h.1))
    ]

    All-replace-IsOwn :
        (rs : Records) → All (IsOwn name) rs → All (IsOwn name) (Records.replace rs rec.key rec).1
    All-replace-IsOwn [] own = unfold Records.replace Records.index in tt
    All-replace-IsOwn (r ∷ rs) own = elim (Bool-cases (str_eq r.key rec.key)) [
      | inl same ↦ rw (replace-cons r rs rec.key rec) (rw same (o, own.1))
      | inr other ↦
          rw (replace-cons r rs rec.key rec) (rw other (own.0, All-replace-IsOwn rs own.1))
    ]

    IsSorted-replace :
        (rs : Records)
        → All (IsOwn name) rs
        → IsSortedBy less rs
        → IsSortedBy less (Records.replace rs rec.key rec).1
    IsSorted-replace [] own h = unfold Records.replace Records.index in tt
    IsSorted-replace (r ∷ rs) own h = elim (Bool-cases (str_eq r.key rec.key)) [
      | inl same ↦ rw (replace-cons r rs rec.key rec) (
          rw same (
            subst (λ v. All (λ y. lt_int y.rls.version v ≡ false) rs)
                (same_version own.0 o ((str_eq_iff r.key rec.key).0 same)) h.0,
            h.1,
          ))
      | inr other ↦ rw (replace-cons r rs rec.key rec) (
          rw other (
            All-replace_version (λ v. lt_int v r.rls.version ≡ false) rs own.1 h.0,
            IsSorted-replace rs own.1 h.1,
          ))
    ]

    pub IsHistory-replace :
        (rs : Records) → IsHistory name rs → IsHistory name (Records.replace rs rec.key rec).1
    IsHistory-replace rs h = record {
      own = All-replace-IsOwn rs h.own;
      distinct = IsDistinct-replace rs rec h.distinct;
      sorted = IsSorted-replace rs h.own h.sorted;
    }

-- The releases of one namespace.
pub record IsReleases (rels : MemReleases) : Type 0 where
  pub histories : Every IsHistory rels
  pub is_map : IsMap rels

abbrev Holds : Bytes → MemReleases → Type 0
Holds ns rels = IsReleases rels

pub record IsValid (mem : Memory) : Type 0 where
  pub namespaces : Every Holds mem.cache

pub new_memory-IsValid : IsValid new_memory
new_memory-IsValid = record { namespaces = tt }

IsReleases-nil : IsReleases []
IsReleases-nil = record { histories = tt; is_map = tt }

pub releases_in-IsReleases :
    (ns : Bytes) (mem : Memory) → IsValid mem → IsReleases (releases_in ns mem)
unfolding releases_in
releases_in-IsReleases ns mem v = elim (Option-cases (lookup ns mem.cache)) [
  | inl missing ↦ rw (missing, releases_in) IsReleases-nil
  | inr (rels, there) ↦
      rw (there, releases_in) (Every-lookup Holds ns rels mem.cache v.namespaces there)
]

module _ (ns : Bytes) (mem : Memory) (v : IsValid mem) where
  pub records_of-IsHistory :
      (name : Bytes) (recs : Records) → records_of ns name mem ≡ some recs → IsHistory name recs
  unfolding records_of
  records_of-IsHistory name recs e =
      Every-lookup IsHistory name recs (releases_in ns mem)
        (releases_in-IsReleases ns mem v).histories e

  pub store-IsValid :
      (name : Bytes) (recs : Records) → IsHistory name recs → IsValid (store ns name recs mem)
  unfolding store
  store-IsValid name recs h =
      let old = releases_in-IsReleases ns mem v in
      record {
        namespaces =
            Every-insert Holds ns (insert name recs (releases_in ns mem)) mem.cache
              (record {
                histories = Every-insert IsHistory name recs (releases_in ns mem) h old.histories;
                is_map = IsMap-insert name recs (releases_in ns mem) old.is_map;
              })
              v.namespaces;
      }

  pub ensure_namespace-IsValid : IsValid (ensure_namespace ns mem)
  unfolding ensure_namespace
  ensure_namespace-IsValid = elim (Option-cases (lookup ns mem.cache)) [
    | inl missing ↦
        rw (missing, ensure_namespace)
          (record { namespaces = Every-insert Holds ns [] mem.cache IsReleases-nil v.namespaces })
    | inr (rels, there) ↦ rw (there, ensure_namespace) v
  ]

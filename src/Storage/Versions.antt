-- ===== src/Storage/Versions.antt =====
-- The revisions of one release in the in-memory driver, as deletions change them.
use aws_ecommerce_k8s.Base.{
  suc, ◌≡◌, refl, ◌∙◌, true, false, Option, none, some, List, [], ◌∷◌, map, if◌then◌else◌, is_some,
  length, All, arith, Option-cases, inl, inr,
}
use aws_ecommerce_k8s.Base.Bytes.{Bytes, bytes, contains, str_eq, str_eq_iff}
use aws_ecommerce_k8s.Base.Int.{ℤ, eq_int, eq_int→eq}
use aws_ecommerce_k8s.Base.Decimal.{IsInt64}
use aws_ecommerce_k8s.Release.Defs.{Release}
use aws_ecommerce_k8s.Driver.Errors.{Result, ok}
pub use aws_ecommerce_k8s.Driver.Errors.{is_ok}
use aws_ecommerce_k8s.Driver.Records
use aws_ecommerce_k8s.Driver.Records.{Record, Records}
use aws_ecommerce_k8s.Driver.Records.Laws.{get-cons, get-nil, remove-cons, fst-remove, IsDistinct}
pub use aws_ecommerce_k8s.Driver.History.{has_version}
use aws_ecommerce_k8s.Driver.Memory.{Memory, records_of, delete, delete_in, remove_result, store}
use aws_ecommerce_k8s.Driver.Memory.Valid.{IsValid, IsOwn, records_of-IsHistory}
use aws_ecommerce_k8s.Driver.Memory.Spec.{records_of-store}
use aws_ecommerce_k8s.Driver.Memory.Query.{revisions}
use aws_ecommerce_k8s.Storage.Key.{make_key}
use aws_ecommerce_k8s.Storage.Key.Laws.{key_name-make_key, str_eq-make_key}

-- Without the first release of a revision.
abbrev pub without : ℤ → List Release → List Release
without v [] = []
without v (r ∷ rs) = if eq_int r.version v then rs else r ∷ without v rs

-- No revision occurs twice.
abbrev pub IsDistinctVersions : List Release → Type 0
IsDistinctVersions [] = Unit
IsDistinctVersions (r ∷ rs) = (has_version r.version rs ≡ false) × IsDistinctVersions rs

abbrev pub releases : Records → List Release
releases recs = map (λ r. r.rls) recs

module _ (name : Bytes) where
  pub get-has_version :
      (recs : Records) (v : ℤ)
      → All (IsOwn name) recs
      → is_some (Records.get recs (make_key name v)) ≡ has_version v (releases recs)
  get-has_version [] v own = rw (get-nil (make_key name v))
  get-has_version (r ∷ recs) v own = ground (
    arith,
    get-cons r recs (make_key name v),
    (own.0).key,
    str_eq-make_key name r.rls.version v,
    get-has_version recs v own.1,
  )

  releases-remove :
      (recs : Records) (v : ℤ)
      → All (IsOwn name) recs
      → releases (Records.remove recs (make_key name v)).1 ≡ without v (releases recs)
  releases-remove [] v own = unfold Records.remove Records.index in refl
  releases-remove (r ∷ recs) v own = ground (
    arith,
    remove-cons r recs (make_key name v),
    (own.0).key,
    str_eq-make_key name r.rls.version v,
    releases-remove recs v own.1,
  )

  releases-IsDistinctVersions :
      (recs : Records)
      → All (IsOwn name) recs
      → IsDistinct recs
      → IsDistinctVersions (releases recs)
  releases-IsDistinctVersions [] own d = tt
  releases-IsDistinctVersions (r ∷ recs) own d = (
    ground (arith, get-has_version recs r.rls.version own.1, d.0, (own.0).key),
    releases-IsDistinctVersions recs own.1 d.1,
  )

pub revisions-IsDistinctVersions :
    (ns name : Bytes) (mem : Memory) → IsValid mem → IsDistinctVersions (revisions ns name mem)
unfolding revisions
revisions-IsDistinctVersions ns name mem v = elim (Option-cases (records_of ns name mem)) [
  | inl missing ↦ rw missing tt
  | inr (recs, there) ↦
      let h = records_of-IsHistory ns mem v name recs there in
      rw there (releases-IsDistinctVersions name recs h.own h.distinct)
]

pub length-without :
    (v : ℤ) (rs : List Release) → has_version v rs ≡ true → suc (length (without v rs)) ≡ length rs
length-without v [] h = cc
length-without v (r ∷ rs) h = ground (arith, length-without v rs)

pub has_version-without :
    (v w : ℤ) (rs : List Release)
    → eq_int v w ≡ false
    → has_version w (without v rs) ≡ has_version w rs
has_version-without v w [] h = refl
has_version-without v w (r ∷ rs) h =
    ground (arith, has_version-without v w rs, eq_int→eq r.version v, eq_int→eq r.version w)

str_eq_self : (s : Bytes) → str_eq s s ≡ true
str_eq_self s = (str_eq_iff s s).1 refl

-- One deletion of a revision that is there succeeds and takes that revision away.
pub record Deleted (name : Bytes) (v : ℤ) (mem : Memory) (after : Result Release × Memory)
    : Type 0 where
  pub succeeds : is_ok after.0 ≡ true
  pub namespace : after.1.namespace ≡ mem.namespace
  pub revisions :
      revisions mem.namespace name after.1 ≡ without v (revisions mem.namespace name mem)

remove_result_found :
    (name : Bytes) (out : Option Record × Records) (mem : Memory) {r : Record}
    → out.0 ≡ some r
    → remove_result name out mem ≡ (ok r.rls, store mem.namespace name out.1 mem)
unfolding remove_result
remove_result_found name (none, recs) mem found = cc
remove_result_found name (some r, recs) mem found = ground (arith, found)

module _ (name : Bytes) (v : ℤ) (mem : Memory) (valid : IsValid mem) where
  stored :
      (recs : Records) (r : Record)
      → records_of mem.namespace name mem ≡ some recs
      → Deleted name v mem
          (ok r.rls, store mem.namespace name (Records.remove recs (make_key name v)).1 mem)
  unfolding revisions
  stored recs r there =
      let left = (Records.remove recs (make_key name v)).1 in
      let own = (records_of-IsHistory mem.namespace mem valid name recs there).own in
      record {
        succeeds = refl;
        namespace = unfold store in refl;
        revisions = ground (
          arith,
          there,
          records_of-store mem.namespace mem.namespace name name left mem,
          str_eq_self mem.namespace,
          str_eq_self name,
          releases-remove name recs v own,
        );
      }

  removed :
      (recs : Records)
      → records_of mem.namespace name mem ≡ some recs
      → has_version v (releases recs) ≡ true
      → Deleted name v mem (remove_result name (Records.remove recs (make_key name v)) mem)
  removed recs there present =
      let own = (records_of-IsHistory mem.namespace mem valid name recs there).own in
      elim (Option-cases (Records.get recs (make_key name v))) [
        | inl absent ↦ absurd (ground (arith, get-has_version name recs v own))
        | inr (r, found) ↦
            rw
              (remove_result_found name (Records.remove recs (make_key name v)) mem
                (fst-remove recs (make_key name v) ∙ found))
              (stored recs r there)
      ]

  delete_in-Deleted :
      has_version v (revisions mem.namespace name mem) ≡ true
      → Deleted name v mem (delete_in name (make_key name v) mem)
  unfolding delete_in revisions
  delete_in-Deleted present = elim (Option-cases (records_of mem.namespace name mem)) [
    | inl missing ↦ absurd (ground (arith, missing))
    | inr (recs, there) ↦ rw (there, delete_in) (removed recs there (rw there at present))
  ]

  pub delete-Deleted :
      contains name (bytes ".v") ≡ false
      → IsInt64 v
      → has_version v (revisions mem.namespace name mem) ≡ true
      → Deleted name v mem (delete (make_key name v) mem)
  unfolding delete
  delete-Deleted plain fits present =
      rw (key_name-make_key name v plain fits, delete) (delete_in-Deleted present)

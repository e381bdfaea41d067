-- ===== src/Storage/Bound.antt =====
-- `removeLeastRecent` and `Create` over the in-memory driver: what is pruned, and what is left.
use aws_ecommerce_k8s.Base.{
  ◌+◌, ◌≡◌, refl, ap, ◌∙◌, true, false, Option, none, some, List, [], ◌∷◌, length, All, arith,
}
use aws_ecommerce_k8s.Base.Bytes.{Bytes, bytes, contains}
use aws_ecommerce_k8s.Base.Int.{ℤ}
use aws_ecommerce_k8s.Base.Decimal.{IsInt64}
use aws_ecommerce_k8s.Release.Defs.{Release}
use aws_ecommerce_k8s.Driver.Errors.{Error}
use aws_ecommerce_k8s.Driver.Memory.{Memory, memory_driver, delete}
use aws_ecommerce_k8s.Driver.Memory.Valid.{IsValid}
use aws_ecommerce_k8s.Driver.Memory.Keeps.{operations-IsValid}
use aws_ecommerce_k8s.Driver.Memory.Query.{revisions}
use aws_ecommerce_k8s.Storage
use aws_ecommerce_k8s.Storage.{Storage, delete_release_version, delete_each}
use aws_ecommerce_k8s.Storage.Key.{make_key}
use aws_ecommerce_k8s.Storage.Versions.{
  has_version, without, IsDistinctVersions, length-without, has_version-without, delete-Deleted,
  is_ok,
}

abbrev pub without_all : List Release → List Release → List Release
without_all [] rs = rs
without_all (d ∷ ds) rs = without_all ds (without d.version rs)

-- Each revision of the list is one of `rs`.
abbrev pub Present : List Release → List Release → Type 0
Present rs = All (λ r. has_version r.version rs ≡ true)

Present-without :
    (v : ℤ) (rs del : List Release)
    → has_version v del ≡ false
    → Present rs del
    → Present (without v rs) del
Present-without v rs [] fresh p = tt
Present-without v rs (d ∷ ds) fresh p = (
  ground (arith, has_version-without v d.version rs, p.0),
  Present-without v rs ds (ground arith) p.1,
)

pub length-without_all :
    (del rs : List Release)
    → IsDistinctVersions del
    → Present rs del
    → length (without_all del rs) + length del ≡ length rs
length-without_all [] rs d p = omega arith
length-without_all (r ∷ del) rs d p = omega (
  arith,
  length-without r.version rs p.0,
  length-without_all del (without r.version rs) d.1 (Present-without r.version rs del d.0 p.1),
)

pub has_version-without_all :
    (del rs : List Release) (w : ℤ)
    → has_version w del ≡ false
    → has_version w (without_all del rs) ≡ has_version w rs
has_version-without_all [] rs w fresh = refl
has_version-without_all (d ∷ del) rs w fresh =
    has_version-without_all del (without d.version rs) w (ground arith)
    ∙ has_version-without d.version w rs (ground arith)

-- The deletions of `del` all succeed, and take away just those revisions.
pub record Pruned (name : Bytes) (del : List Release) (s : Storage Memory)
    (out : List Error × Storage Memory) : Type 0 where
  pub errors : out.0 ≡ []
  pub valid : IsValid out.1.driver
  pub namespace : out.1.driver.namespace ≡ s.driver.namespace
  pub max_history : out.1.max_history ≡ s.max_history
  pub left :
      revisions s.driver.namespace name out.1.driver
      ≡ without_all del (revisions s.driver.namespace name s.driver)

abbrev after_delete : Bytes → ℤ → Storage Memory → Storage Memory
after_delete name v s = record s { driver = (delete (make_key name v) s.driver).1 }

delete_release_version_lem :
    (name : Bytes) (v : ℤ) (s : Storage Memory)
    → is_ok (delete (make_key name v) s.driver).0 ≡ true
    → delete_release_version memory_driver name v s ≡ (none, after_delete name v s)
unfolding delete_release_version Storage.delete
delete_release_version_lem name v s h = ground arith

delete_each-cons :
    (name : Bytes) (r : Release) (del : List Release) (s : Storage Memory)
    → is_ok (delete (make_key name r.version) s.driver).0 ≡ true
    → delete_each memory_driver name (r ∷ del) s
      ≡ delete_each memory_driver name del (after_delete name r.version s)
unfolding delete_each
delete_each-cons name r del s h =
    ap
      (λ (out : Option Error × Storage Memory).
        let rest : List Error × Storage Memory = delete_each memory_driver name del out.1 in
        let errs : List Error = elim out.0 [ none ↦ rest.0 | some e ↦ e ∷ rest.0 ] in
        let both : List Error × Storage Memory = (errs, rest.1) in both)
      (delete_release_version_lem name r.version s h)

module _ (name : Bytes) (plain : contains name (bytes ".v") ≡ false) where
  pub delete_each-Pruned :
      (del : List Release) (s : Storage Memory)
      → IsValid s.driver
      → All (λ r. IsInt64 r.version) del
      → IsDistinctVersions del
      → Present (revisions s.driver.namespace name s.driver) del
      → Pruned name del s (delete_each memory_driver name del s)
  delete_each-Pruned [] s v fits d p =
      unfold delete_each in
      record { errors = refl; valid = v; namespace = refl; max_history = refl; left = refl }
  delete_each-Pruned (r ∷ del) s v fits d p =
      let one = delete-Deleted name r.version s.driver v plain fits.0 p.0 in
      let key = make_key name r.version in
      let s' = after_delete name r.version s in
      let revs : revisions s'.driver.namespace name s'.driver
          ≡ without r.version (revisions s.driver.namespace name s.driver) =
        rw one.namespace one.revisions in
      let rest =
        delete_each-Pruned del s' ((operations-IsValid s.driver v).2 key) fits.1 d.1
          (rw revs (Present-without r.version _ del d.0 p.1)) in
      rw (delete_each-cons name r del s one.succeeds) (record {
        errors = rest.errors;
        valid = rest.valid;
        namespace = rest.namespace ∙ one.namespace;
        max_history = rest.max_history;
        left = rw one.namespace at rest.left ∙ ap (without_all del) one.revisions;
      })

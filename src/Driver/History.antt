-- ===== src/Driver/History.antt =====
-- What the actions rely on of a storage driver, for the revisions of one release in one namespace: an
-- interface that every driver of driver.go is meant to fill.
use aws_ecommerce_k8s.Base.{
  Bool, true, false, ◌≡◌, ◌&&◌, ◌||◌, Option, none, some, List, [], ◌∷◌, if◌then◌else◌, is_some,
  All,
}
use aws_ecommerce_k8s.Base.Bytes.{Bytes, bytes, str_eq, contains}
use aws_ecommerce_k8s.Base.Int.{ℤ, eq_int}
use aws_ecommerce_k8s.Base.Decimal.{IsInt64}
use aws_ecommerce_k8s.Release.Status.{status_deployed}
use aws_ecommerce_k8s.Release.Defs.{Release}
use aws_ecommerce_k8s.Driver.Errors.{Error, ok, err, error_text}
use aws_ecommerce_k8s.Driver.Interface.{Driver}
use aws_ecommerce_k8s.Storage.Key.{make_key}
use aws_ecommerce_k8s.Storage.Selectors.{owned_by_helm, deployed_by_helm}

-- A revision of the release `name` in the namespace `ns`.
abbrev pub IsRevision : Bytes → Bytes → Release → Type 0
IsRevision name ns rls = (rls.name ≡ name) × (rls.namespace ≡ ns)

abbrev pub is_deployed : Option Release → Bool
is_deployed none = false
is_deployed (some rls) = str_eq rls.info.status status_deployed

abbrev pub has_version : ℤ → List Release → Bool
has_version v [] = false
has_version v (r ∷ rs) = eq_int r.version v || has_version v rs

-- The errors by which a driver or the storage says that there is no deployed release.
abbrev pub is_none_deployed : Error → Bool
is_none_deployed e =
    contains (error_text e) (bytes "not found")
    || contains (error_text e) (bytes "has no deployed releases")

-- `at v d` is the revision `v` that the state `d` stores, and `Sound` the states that the driver
-- reaches.
pub record IsHistoryDriver {D : Type 0} (drv : Driver D) (name ns : Bytes) (Sound : D → Type 0)
    (at : ℤ → D → Option Release) : Type 0 where
  pub update-Sound :
      (rls : Release) (d : D)
      → IsRevision name ns rls
      → Sound d
      → Sound (drv.update (make_key rls.name rls.version) rls d).1
  pub create-Sound :
      (rls : Release) (d : D)
      → IsRevision name ns rls
      → Sound d
      → Sound (drv.create (make_key rls.name rls.version) rls d).1
  pub delete-Sound : (key : Bytes) (d : D) → Sound d → Sound (drv.delete key d).1
  pub at-update :
      (rls : Release) (d : D) (v : ℤ)
      → IsRevision name ns rls
      → Sound d
      → at v (drv.update (make_key rls.name rls.version) rls d).1
        ≡ (if eq_int rls.version v && is_some (at rls.version d) then some rls else at v d)
  pub at-create :
      (rls : Release) (d : D)
      → IsRevision name ns rls
      → Sound d
      → is_some (at rls.version (drv.create (make_key rls.name rls.version) rls d).1) ≡ true
  pub owned-IsRevision :
      (d : D) (rels : List Release)
      → Sound d
      → drv.query (owned_by_helm name) d ≡ ok rels
      → All (IsRevision name ns) rels
  pub owned-stored :
      (d : D) (rels : List Release)
      → Sound d
      → drv.query (owned_by_helm name) d ≡ ok rels
      → All (λ rel. at rel.version d ≡ some rel) rels
  pub owned-versions :
      (d : D) (rels : List Release) (v : ℤ)
      → Sound d
      → drv.query (owned_by_helm name) d ≡ ok rels
      → has_version v rels ≡ is_some (at v d)
  pub deleted-none :
      (d : D) (v : ℤ) (rls : Release)
      → IsInt64 v
      → Sound d
      → (drv.delete (make_key name v) d).0 ≡ ok rls
      → at v (drv.delete (make_key name v) d).1 ≡ none
  pub missing-none :
      (key : Bytes) (d : D) (v : ℤ) → Sound d → at v d ≡ none → at v (drv.delete key d).1 ≡ none
  pub deployed-IsRevision :
      (d : D) (rels : List Release)
      → Sound d
      → drv.query (deployed_by_helm name) d ≡ ok rels
      → All (IsRevision name ns) rels
  pub deployed-versions :
      (d : D) (rels : List Release) (v : ℤ)
      → Sound d
      → drv.query (deployed_by_helm name) d ≡ ok rels
      → has_version v rels ≡ is_deployed (at v d)
  pub none-deployed :
      (d : D) (e : Error) (v : ℤ)
      → Sound d
      → drv.query (deployed_by_helm name) d ≡ err e
      → is_none_deployed e ≡ true
      → is_deployed (at v d) ≡ false

-- ===== src/Action/Uninstall/Purge.antt =====
-- uninstall.go: `purgeReleases` of the history of a release.
use mathlib.Core.Path.{subst}
use aws_ecommerce_k8s.Base.{
  ◌≡◌, refl, sym, ap, ◌∙◌, true, false, Option, none, List, [], ◌∷◌, All, arith, Bool-cases, inl,
  inr, ◌||◌,
}
use aws_ecommerce_k8s.Base.Bytes.{Bytes}
use aws_ecommerce_k8s.Base.Int.{ℤ, eq_int, eq_int→eq}
use aws_ecommerce_k8s.Base.Decimal.{IsInt64}
use aws_ecommerce_k8s.Base.Sort.{sort_by, insert_by}
use aws_ecommerce_k8s.Release.Defs.{Release}
use aws_ecommerce_k8s.Release.Sorter.{by_revision}
use aws_ecommerce_k8s.Driver.Errors.{ok, Result-cases}
use aws_ecommerce_k8s.Driver.Interface.{Driver}
use aws_ecommerce_k8s.Driver.History.{IsRevision, IsHistoryDriver, has_version}
use aws_ecommerce_k8s.Storage
use aws_ecommerce_k8s.Storage.{Storage}
use aws_ecommerce_k8s.Storage.Key.{make_key}
use aws_ecommerce_k8s.Action.Uninstall.{purge_releases}

has_version-insert_by :
    (v : ℤ) (rel : Release) (rels : List Release)
    → has_version v (insert_by by_revision rel rels) ≡ has_version v (rel ∷ rels)
unfolding insert_by
has_version-insert_by v rel [] = refl
has_version-insert_by v rel (r ∷ rels) = ground (arith, has_version-insert_by v rel rels)

pub has_version-sort_by :
    (v : ℤ) (rels : List Release) → has_version v (sort_by by_revision rels) ≡ has_version v rels
unfolding sort_by
has_version-sort_by v [] = refl
has_version-sort_by v (rel ∷ rels) =
    has_version-insert_by v rel (sort_by by_revision rels)
    ∙ ap (λ b. eq_int rel.version v || b) (has_version-sort_by v rels)

module _ {D : Type 0} (drv : Driver D) (name ns : Bytes) (Sound : D → Type 0)
    (at : ℤ → D → Option Release) (laws : IsHistoryDriver drv name ns Sound at) where
  -- A revision that the purge can delete by its key.
  abbrev pub IsKeyed : Release → Type 0
  IsKeyed rel = (rel.name ≡ name) × IsInt64 rel.version

  -- After the deletion of a revision without an error it is missing.
  deleted-none :
      (rel old : Release) (d : D) (v : ℤ)
      → Sound d
      → IsKeyed rel
      → (drv.delete (make_key rel.name rel.version) d).0 ≡ ok old
      → eq_int rel.version v ≡ true
      → at v (drv.delete (make_key rel.name rel.version) d).1 ≡ none
  deleted-none rel old d v sound (named, fits) deleted same =
      subst (λ v. at v (drv.delete (make_key rel.name rel.version) d).1 ≡ none)
        (eq_int→eq rel.version v same)
        (subst
          (λ n.
            (drv.delete (make_key n rel.version) d).0 ≡ ok old
            → at rel.version (drv.delete (make_key n rel.version) d).1 ≡ none)
          (sym named) (laws.deleted-none d rel.version old fits sound) deleted)

  -- A revision that is among the purged ones, or was missing, is missing after a purge without error.
  pub purged :
      (rels : List Release) (s : Storage D) (v : ℤ)
      → Sound s.driver
      → All IsKeyed rels
      → (purge_releases drv rels s).0 ≡ none
      → (has_version v rels ≡ false → at v s.driver ≡ none)
      → at v (purge_releases drv rels s).1.driver ≡ none
  unfolding purge_releases Storage.delete
  purged [] s v sound keyed done missing = missing refl
  purged (rel ∷ rels) s v sound (one, keyed) done missing =
      let key = make_key rel.name rel.version in
      elim (Result-cases (drv.delete key s.driver).0) [
        | inr (e, failed) ↦ let bad = rw (failed, purge_releases) at done in cc
        | inl (old, deleted) ↦
            rw (deleted, purge_releases)
              (purged rels _ v (laws.delete-Sound key s.driver sound) keyed
                (rw (deleted, purge_releases) at done)
                (λ others. elim (Bool-cases (eq_int rel.version v)) [
                  | inl same ↦ deleted-none rel old s.driver v sound one deleted same
                  | inr other ↦
                      laws.missing-none key s.driver v sound
                        (missing (ground (arith, other, others)))
                ]))
      ]

  pub revisions-IsKeyed :
      (rels : List Release)
      → All (IsRevision name ns) rels
      → All (λ rel. IsInt64 rel.version) rels
      → All IsKeyed rels
  revisions-IsKeyed [] own fits = tt
  revisions-IsKeyed (rel ∷ rels) own fits = ((own.0.0, fits.0), revisions-IsKeyed rels own.1 fits.1)

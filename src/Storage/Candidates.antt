-- ===== src/Storage/Candidates.antt =====
-- The releases that `removeLeastRecent` may choose from, in a history without repeated revisions.
use Prim.Native.Nat.{min}
use aws_ecommerce_k8s.Base.{
  ℕ, zero, suc, ◌≤◌, ◌≡◌, refl, Bool, false, Option, none, some, List, [], ◌∷◌, length, keep_if,
  take, All, arith, Bool-cases, inl, inr,
}
use aws_ecommerce_k8s.Base.Int.{ℤ, eq_int, eq_int→eq}
use aws_ecommerce_k8s.Release.Defs.{Release}
use aws_ecommerce_k8s.Storage.Prune.{may_delete}
use aws_ecommerce_k8s.Storage.Versions.{has_version, IsDistinctVersions}
use aws_ecommerce_k8s.Storage.Bound.{Present}

module _ (p : Release → Bool) where
  keep_if-All : (P : Release → Type 0) (rs : List Release) → All P rs → All P (keep_if p rs)
  unfolding keep_if
  keep_if-All P [] h = tt
  keep_if-All P (r ∷ rs) h = elim (Bool-cases (p r)) [
    | inl kept ↦ rw (kept, keep_if) (h.0, keep_if-All P rs h.1)
    | inr dropped ↦ rw (dropped, keep_if) (keep_if-All P rs h.1)
  ]

  has_version-keep_if :
      (v : ℤ) (rs : List Release) → has_version v rs ≡ false → has_version v (keep_if p rs) ≡ false
  unfolding keep_if
  has_version-keep_if v [] h = refl
  has_version-keep_if v (r ∷ rs) h = ground (arith, has_version-keep_if v rs)

  keep_if-IsDistinctVersions :
      (rs : List Release) → IsDistinctVersions rs → IsDistinctVersions (keep_if p rs)
  unfolding keep_if
  keep_if-IsDistinctVersions [] d = tt
  keep_if-IsDistinctVersions (r ∷ rs) d = elim (Bool-cases (p r)) [
    | inl kept ↦
        rw (kept, keep_if) (has_version-keep_if r.version rs d.0, keep_if-IsDistinctVersions rs d.1)
    | inr dropped ↦ rw (dropped, keep_if) (keep_if-IsDistinctVersions rs d.1)
  ]

take-All : (P : Release → Type 0) (n : ℕ) (rs : List Release) → All P rs → All P (take n rs)
take-All P zero rs h = tt
take-All P (suc n) [] h = tt
take-All P (suc n) (r ∷ rs) h = (h.0, take-All P n rs h.1)

has_version-take :
    (v : ℤ) (n : ℕ) (rs : List Release)
    → has_version v rs ≡ false
    → has_version v (take n rs) ≡ false
has_version-take v zero rs h = refl
has_version-take v (suc n) [] h = refl
has_version-take v (suc n) (r ∷ rs) h = ground (arith, has_version-take v n rs)

take-IsDistinctVersions :
    (n : ℕ) (rs : List Release) → IsDistinctVersions rs → IsDistinctVersions (take n rs)
take-IsDistinctVersions zero rs d = tt
take-IsDistinctVersions (suc n) [] d = tt
take-IsDistinctVersions (suc n) (r ∷ rs) d =
    (has_version-take r.version n rs d.0, take-IsDistinctVersions n rs d.1)

Present-cons : (r : Release) (rs xs : List Release) → Present rs xs → Present (r ∷ rs) xs
Present-cons r rs [] p = tt
Present-cons r rs (x ∷ xs) p = (ground (arith, p.0), Present-cons r rs xs p.1)

pub Present-self : (rs : List Release) → Present rs rs
Present-self [] = tt
Present-self (r ∷ rs) = (ground arith, Present-cons r rs rs (Present-self rs))

-- The releases marked for deletion, out of a history.
abbrev pub oldest : ℕ → Option Release → List Release → List Release
oldest n last_deployed h = take n (keep_if (may_delete last_deployed) h)

length-take : (n : ℕ) (rs : List Release) → length (take n rs) ≡ min n (length rs)
length-take zero rs = omega arith
length-take (suc n) [] = omega arith
length-take (suc n) (r ∷ rs) = omega (arith, length-take n rs)

module _ (n : ℕ) (last_deployed : Option Release) (h : List Release) where
  pub oldest-All : (P : Release → Type 0) → All P h → All P (oldest n last_deployed h)
  oldest-All P a = take-All P n _ (keep_if-All (may_delete last_deployed) P h a)

  pub oldest-IsDistinctVersions :
      IsDistinctVersions h → IsDistinctVersions (oldest n last_deployed h)
  oldest-IsDistinctVersions d =
      take-IsDistinctVersions n _ (keep_if-IsDistinctVersions (may_delete last_deployed) h d)

  pub length-oldest :
      length (oldest n last_deployed h) ≡ min n (length (keep_if (may_delete last_deployed) h))
  length-oldest = length-take n (keep_if (may_delete last_deployed) h)

has_version-kept :
    (d : Release) (h : List Release)
    → has_version d.version (keep_if (may_delete (some d)) h) ≡ false
unfolding keep_if
has_version-kept d [] = refl
has_version-kept d (r ∷ h) = ground (arith, has_version-kept d h)

-- The last deployed release is never among them.
pub oldest-keeps :
    (n : ℕ) (d : Release) (h : List Release) → has_version d.version (oldest n (some d) h) ≡ false
oldest-keeps n d h = has_version-take d.version n _ (has_version-kept d h)

all_kept :
    (d : Release) (h : List Release)
    → has_version d.version h ≡ false
    → length (keep_if (may_delete (some d)) h) ≡ length h
unfolding keep_if
all_kept d [] fresh = refl
all_kept d (r ∷ h) fresh = ground (arith, all_kept d h)

-- At most one release of the history may not be deleted.
pub length-candidates :
    (last_deployed : Option Release) (h : List Release)
    → IsDistinctVersions h
    → length h ≤ suc (length (keep_if (may_delete last_deployed) h))
unfolding keep_if
length-candidates none [] d = omega arith
length-candidates none (r ∷ h) d = ground (arith, length-candidates none h d.1)
length-candidates (some x) [] d = omega arith
length-candidates (some x) (r ∷ h) d = elim (Bool-cases (eq_int r.version x.version)) [
  | inl same ↦ ground (arith, same, eq_int→eq r.version x.version same, d.0, all_kept x h)
  | inr other ↦ ground (arith, other, length-candidates (some x) h d.1)
]

-- ===== src/Base/Sort.antt =====
-- `sort.Sort`, `sort.Stable` and `sort.SliceStable` by a `less` function, as a stable insertion
-- sort: the library promises an ascending rearrangement, and of the last two that equal elements
-- keep their order.
use Prim.Native.Nat.{suc}
use mathlib.Core.Path.{◌≡◌, refl, sym, ap, ◌∙◌}
use mathlib.Core.Bool.{Bool, true, false}
use mathlib.Core.Logic.{inl, inr}
use mathlib.Core.List.{List, [], ◌∷◌, Perm}
use mathlib.Core.List.Perm
use native.Mathlib.Omega.{arith}
use aws_ecommerce_k8s.Base.Tests.{if◌then◌else◌, Bool-cases}
use aws_ecommerce_k8s.Base.Lists.{length, All, keep_if}

-- What package `sort` asks of `less`: a strict weak order.
pub record IsWeakOrder {ℓ} {A : Type ℓ} (less : A → A → Bool) : Type ℓ where
  pub asym : (a b : A) → less a b ≡ true → less b a ≡ false
  pub neg_trans : (a b c : A) → less a b ≡ false → less b c ≡ false → less a c ≡ false

module _ {ℓ} {A : Type ℓ} (less : A → A → Bool) where
  unfoldable pub insert_by : A → List A → List A
  insert_by x [] = x ∷ []
  insert_by x (y ∷ ys) = if less y x then y ∷ insert_by x ys else x ∷ y ∷ ys

  unfoldable pub sort_by : List A → List A
  unfolding insert_by
  sort_by [] = []
  sort_by (x ∷ xs) = insert_by x (sort_by xs)

  -- No element is less than an earlier one.
  abbrev pub IsSortedBy : List A → Type ℓ
  IsSortedBy [] = Unit
  IsSortedBy (x ∷ xs) = All (λ y. less y x ≡ false) xs × IsSortedBy xs

  insert_by-All {κ} :
      (P : A → Type κ) (x : A) (ys : List A) → P x → All P ys → All P (insert_by x ys)
  unfolding insert_by
  insert_by-All P x [] px h = (px, tt)
  insert_by-All P x (y ∷ ys) px h = elim (Bool-cases (less y x)) [
    | inl before ↦ rw before (h.0, insert_by-All P x ys px h.1)
    | inr after ↦ rw after (px, h)
  ]

  pub sort_by-All {κ} : (P : A → Type κ) (xs : List A) → All P xs → All P (sort_by xs)
  unfolding sort_by
  sort_by-All P [] h = tt
  sort_by-All P (x ∷ xs) h = insert_by-All P x (sort_by xs) h.0 (sort_by-All P xs h.1)

  length-insert_by : (x : A) (ys : List A) → length (insert_by x ys) ≡ suc (length ys)
  unfolding insert_by
  length-insert_by x [] = refl
  length-insert_by x (y ∷ ys) = ground (arith, length-insert_by x ys)

  pub length-sort_by : (xs : List A) → length (sort_by xs) ≡ length xs
  unfolding sort_by
  length-sort_by [] = refl
  length-sort_by (x ∷ xs) = length-insert_by x (sort_by xs) ∙ ap suc (length-sort_by xs)

  insert_by-perm : (x : A) (ys : List A) → Perm (insert_by x ys) (x ∷ ys)
  unfolding insert_by
  insert_by-perm x [] = Perm.rfl
  insert_by-perm x (y ∷ ys) = elim (Bool-cases (less y x)) [
    | inl before ↦ rw before (Perm.trans (Perm.cons y (insert_by-perm x ys)) (Perm.swap x y ys))
    | inr after ↦ rw after Perm.rfl
  ]

  -- Nothing is lost or made up.
  pub sort_by-perm : (xs : List A) → Perm (sort_by xs) xs
  unfolding sort_by
  sort_by-perm [] = Perm.rfl
  sort_by-perm (x ∷ xs) = Perm.trans (insert_by-perm x (sort_by xs)) (Perm.cons x (sort_by-perm xs))

  -- What is sorted already stays as it is.
  pub sort_by-fixed : (xs : List A) → IsSortedBy xs → sort_by xs ≡ xs
  unfolding sort_by
  sort_by-fixed [] s = refl
  sort_by-fixed (x ∷ []) s = refl
  sort_by-fixed (x ∷ y ∷ ys) s = rw (sort_by-fixed (y ∷ ys) s.1) (rw (s.0.0))

  -- The elements of a class, none of which is less than another, keep their order.
  module _ (p : A → Bool) (tied : (a b : A) → p a ≡ true → p b ≡ true → less a b ≡ false) where
    keep_if-insert_by : (x : A) (ys : List A) → keep_if p (insert_by x ys) ≡ keep_if p (x ∷ ys)
    unfolding keep_if insert_by
    keep_if-insert_by x [] = refl
    keep_if-insert_by x (y ∷ ys) = ground (arith, keep_if-insert_by x ys, tied y x)

    pub sort_by-stable : (xs : List A) → keep_if p (sort_by xs) ≡ keep_if p xs
    unfolding keep_if sort_by
    sort_by-stable [] = refl
    sort_by-stable (x ∷ xs) = ground (arith, keep_if-insert_by x (sort_by xs), sort_by-stable xs)

module _ {ℓ} {A : Type ℓ} {less : A → A → Bool} (o : IsWeakOrder less) where
  All-not_less :
      (x y : A) (zs : List A)
      → less y x ≡ false
      → All (λ z. less z y ≡ false) zs
      → All (λ z. less z x ≡ false) zs
  All-not_less x y [] h below = tt
  All-not_less x y (z ∷ zs) h below = (o.neg_trans z y x below.0 h, All-not_less x y zs h below.1)

  insert_by-IsSortedBy :
      (x : A) (ys : List A) → IsSortedBy less ys → IsSortedBy less (insert_by less x ys)
  unfolding insert_by
  insert_by-IsSortedBy x [] s = (tt, tt)
  insert_by-IsSortedBy x (y ∷ ys) s = elim (Bool-cases (less y x)) [
    | inl before ↦ rw before (
      insert_by-All less (λ z. less z y ≡ false) x ys (o.asym y x before) s.0,
      insert_by-IsSortedBy x ys s.1,
    )
    | inr after ↦ rw after ((after, All-not_less x y ys after s.0), s)
  ]

  pub sort_by-IsSortedBy : (xs : List A) → IsSortedBy less (sort_by less xs)
  unfolding sort_by
  sort_by-IsSortedBy [] = tt
  sort_by-IsSortedBy (x ∷ xs) = insert_by-IsSortedBy x (sort_by less xs) (sort_by-IsSortedBy xs)

module _ {A : Type 0} (less other : A → A → Bool) (same : (a b : A) → less a b ≡ other a b) where
  All-same :
      (x : A) (ys : List A) → All (λ y. less y x ≡ false) ys → All (λ y. other y x ≡ false) ys
  All-same x [] h = tt
  All-same x (y ∷ ys) h = (sym (same y x) ∙ h.0, All-same x ys h.1)

  -- A list that is sorted by one comparison is sorted by any that agrees with it.
  pub IsSortedBy-same : (xs : List A) → IsSortedBy less xs → IsSortedBy other xs
  IsSortedBy-same [] s = tt
  IsSortedBy-same (x ∷ xs) s = (All-same x xs s.0, IsSortedBy-same xs s.1)

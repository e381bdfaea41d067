-- ===== src/Release/Kinds/Laws.antt =====
-- The order by kinds is a strict weak order, and both sorts are stable.
use mathlib.Core.List.{Perm}
use aws_ecommerce_k8s.Base.{
  ℕ, suc, ◌+◌, ◌∙◌, [], ◌∷◌, ltb, if◌then◌else◌, ◌≡◌, refl, Bool, true, false, Option, none, some,
  List, arith, keep_if, Bool-cases, inl, inr,
}
use aws_ecommerce_k8s.Base.Bytes.{Bytes, str_eq, str_eq_iff, str_lt, str_lt_asym, str_lt_neg_trans}
use aws_ecommerce_k8s.Base.Assoc.{Assoc, lookup, insert, lookup-insert}
use aws_ecommerce_k8s.Base.Sort.{
  sort_by, IsWeakOrder, IsSortedBy, IsSortedBy-same, sort_by-IsSortedBy, sort_by-perm,
  sort_by-stable,
}
use aws_ecommerce_k8s.Release.Hook.{Hook}
use aws_ecommerce_k8s.Release.Kinds.{
  Manifest, KindSortOrder, ordering_from, place, less_placed, less_by_kind, sort_manifests_by_kind,
  sort_hooks_by_kind,
}

less_placed_asym :
    (a b : Bytes) (i j : Option ℕ) → less_placed a b i j ≡ true → less_placed b a j i ≡ false
unfolding less_placed
less_placed_asym a b none none h = ground (arith, str_lt_asym a b)
less_placed_asym a b none (some j) h = ground arith
less_placed_asym a b (some i) none h = refl
less_placed_asym a b (some i) (some j) h = ground arith

str_lt_refl : (a : Bytes) → str_lt a a ≡ false
str_lt_refl a = ground (arith, str_lt_asym a a)

less_unplaced : (a b : Bytes) → less_placed a b none none ≡ str_lt a b
unfolding less_placed
less_unplaced a b = ground (arith, str_eq_iff a b, str_lt_refl a)

less_placed_neg_trans :
    (a b c : Bytes) (i j k : Option ℕ)
    → less_placed a b i j ≡ false
    → less_placed b c j k ≡ false
    → less_placed a c i k ≡ false
unfolding less_placed
less_placed_neg_trans a b c none none none h g =
    rw (less_unplaced a c)
      (str_lt_neg_trans a b c (rw (less_unplaced a b) at h) (rw (less_unplaced b c) at g))
less_placed_neg_trans a b c none j (some k) h g = refl
less_placed_neg_trans a b c none (some j) none h g = ground arith
less_placed_neg_trans a b c (some i) none k h g = ground arith
less_placed_neg_trans a b c (some i) (some j) none h g = ground arith
less_placed_neg_trans a b c (some i) (some j) (some k) h g = ground arith

less_by_kind_refl : (k : Bytes) (o : KindSortOrder) → less_by_kind k k o ≡ false
unfolding less_by_kind
less_by_kind_refl k o = elim (Bool-cases (less_placed k k (place o k) (place o k))) [
  | inl less ↦ less_placed_asym k k (place o k) (place o k) less
  | inr e ↦ e
]

-- The place of a kind in an order, the last one where it stands there twice.
abbrev pub rank : KindSortOrder → Bytes → Option ℕ
rank [] kind = none
rank (k ∷ o) kind = elim (rank o kind) [
  | some n ↦ some (suc n)
  | none ↦ if str_eq k kind then some 0 else none
]

-- Known kinds by their places, and before any other; the others alphabetically.
abbrev pub comes_before : Option ℕ → Option ℕ → Bool → Bool
comes_before (some i) (some j) alphabetical = ltb i j
comes_before (some i) none alphabetical = true
comes_before none (some j) alphabetical = false
comes_before none none alphabetical = alphabetical

abbrev shifted : ℕ → Option ℕ → Option ℕ → Option ℕ
shifted v (some n) other = some (v + n)
shifted v none other = other

ordering_from-rank :
    (v : ℕ) (o : KindSortOrder) (m : Assoc ℕ) (kind : Bytes)
    → lookup kind (ordering_from v o m) ≡ shifted v (rank o kind) (lookup kind m)
unfolding ordering_from
ordering_from-rank v [] m kind = refl
ordering_from-rank v (k ∷ o) m kind =
    ground (arith, ordering_from-rank (suc v) o (insert k v m) kind, lookup-insert k kind v m)

place-rank : (o : KindSortOrder) (kind : Bytes) → place o kind ≡ rank o kind
unfolding place lookup
place-rank o kind = ground (arith, ordering_from-rank 0 o [] kind)

less_placed-comes_before :
    (a b : Bytes) (i j : Option ℕ) → less_placed a b i j ≡ comes_before i j (str_lt a b)
unfolding less_placed
less_placed-comes_before a b none none = less_unplaced a b
less_placed-comes_before a b none (some j) = refl
less_placed-comes_before a b (some i) none = refl
less_placed-comes_before a b (some i) (some j) = refl

-- The comparison of elements by a kind that each has.
module _ {A : Type 0} (kind : A → Bytes) (o : KindSortOrder) where
  abbrev by_kind : A → A → Bool
  by_kind a b = less_by_kind (kind a) (kind b) o

  abbrev pub by_rank : A → A → Bool
  by_rank a b = comes_before (rank o (kind a)) (rank o (kind b)) (str_lt (kind a) (kind b))

  by_kind-by_rank : (a b : A) → by_kind a b ≡ by_rank a b
  unfolding less_by_kind
  by_kind-by_rank a b =
      less_placed-comes_before (kind a) (kind b) (place o (kind a)) (place o (kind b))
      ∙ rw (place-rank o (kind a), place-rank o (kind b)) refl

  by_kind-IsWeakOrder : IsWeakOrder by_kind
  unfolding less_by_kind
  by_kind-IsWeakOrder = record {
    asym = λ a b. less_placed_asym (kind a) (kind b) (place o (kind a)) (place o (kind b));
    neg_trans = λ a b c.
        less_placed_neg_trans (kind a) (kind b) (kind c) (place o (kind a)) (place o (kind b))
          (place o (kind c));
  }

  abbrev pub has_kind : Bytes → A → Bool
  has_kind k a = str_eq (kind a) k

  same_kind :
      (k : Bytes) (a b : A) → has_kind k a ≡ true → has_kind k b ≡ true → by_kind a b ≡ false
  same_kind k a b h g =
      let e = (str_eq_iff (kind a) k).0 h in
      let f = (str_eq_iff (kind b) k).0 g in rw e (rw f (less_by_kind_refl k o))

  -- A list sorted by kinds: no element belongs before an earlier one, nothing is lost or added, and
  -- elements of equal kind keep their order.
  abbrev pub IsKindSort : List A → List A → Type 0
  IsKindSort sorted xs =
      IsSortedBy by_rank sorted
      × Perm sorted xs
      × ((k : Bytes) → keep_if (has_kind k) sorted ≡ keep_if (has_kind k) xs)

  sort_by-IsKindSort : (xs : List A) → IsKindSort (sort_by by_kind xs) xs
  sort_by-IsKindSort xs = (
    IsSortedBy-same by_kind by_rank by_kind-by_rank (sort_by by_kind xs)
        (sort_by-IsSortedBy by_kind-IsWeakOrder xs),
    sort_by-perm by_kind xs,
    λ k. sort_by-stable by_kind (has_kind k) (same_kind k) xs,
  )

-- For any order of kinds, the manifests and the hooks come out in that order, kinds not in it last
-- and alphabetically: none belongs before an earlier one, none is lost or added, and those of equal
-- kind keep their order.
pub sort_by_kind_lem :
    (ordering : KindSortOrder)
    → ((manifests : List Manifest)
        → IsKindSort
            (λ m. m.head.kind)
            ordering
            (sort_manifests_by_kind manifests ordering)
            manifests)
      × ((hooks : List Hook)
          → IsKindSort (λ h. h.kind) ordering (sort_hooks_by_kind hooks ordering) hooks)
unfolding sort_manifests_by_kind sort_hooks_by_kind
sort_by_kind_lem ordering =
    (sort_by-IsKindSort (λ m. m.head.kind) ordering, sort_by-IsKindSort (λ h. h.kind) ordering)

-- ===== src/Release/Sorter/Laws.antt =====
-- The three orders are strict weak orders, so the three sorts sort.
use mathlib.Core.List.{Perm, reverse, reverse-cons}
use aws_ecommerce_k8s.Base.{Bool, false, ◌≡◌, List, [], ◌∷◌, ◌++◌, All, All-append, ltb, arith}
use aws_ecommerce_k8s.Base.Bytes.{str_lt, str_lt_asym, str_lt_neg_trans}
use aws_ecommerce_k8s.Base.Int.{lt_int}
use aws_ecommerce_k8s.Base.Sort.{sort_by, IsWeakOrder, IsSortedBy, sort_by-IsSortedBy, sort_by-perm}
use aws_ecommerce_k8s.Release.Defs.{Release}
use aws_ecommerce_k8s.Release.Sorter.{
  by_name, by_date, by_revision, sort_by_name, sort_by_date, sort_by_revision, reverse_sorted,
  by_revision-IsWeakOrder,
}

by_name-IsWeakOrder : IsWeakOrder by_name
by_name-IsWeakOrder = record {
  asym = λ a b. str_lt_asym a.name b.name;
  neg_trans = λ a b c. str_lt_neg_trans a.name b.name c.name;
}

by_date-IsWeakOrder : IsWeakOrder by_date
by_date-IsWeakOrder = record { asym = λ a b h. ground arith; neg_trans = λ a b c h k. ground arith }

-- The same releases, none before one that it belongs after.
abbrev pub IsSorting : (Release → Release → Bool) → List Release → List Release → Type 0
IsSorting less sorted ls = IsSortedBy less sorted × Perm sorted ls

-- The other way round.
abbrev flipped : (Release → Release → Bool) → Release → Release → Bool
flipped less a b = less b a

IsSortedBy-snoc :
    (less : Release → Release → Bool) (x : Release) (l : List Release)
    → All (λ y. less x y ≡ false) l
    → IsSortedBy less l
    → IsSortedBy less (l ++ x ∷ [])
IsSortedBy-snoc less x [] h s = (tt, tt)
IsSortedBy-snoc less x (y ∷ l) h s =
    (All-append (λ z. less z y ≡ false) l (x ∷ []) s.0 (h.0, tt), IsSortedBy-snoc less x l h.1 s.1)

All-reverse : (P : Release → Type 0) (l : List Release) → All P l → All P (reverse l)
All-reverse P [] h = tt
All-reverse P (x ∷ l) h =
    rw (reverse-cons x l) (All-append P (reverse l) (x ∷ []) (All-reverse P l h.1) (h.0, tt))

reverse-IsSortedBy :
    (less : Release → Release → Bool) (l : List Release)
    → IsSortedBy less l
    → IsSortedBy (flipped less) (reverse l)
reverse-IsSortedBy less [] s = tt
reverse-IsSortedBy less (x ∷ l) s = rw (reverse-cons x l) (
    IsSortedBy-snoc (flipped less) x (reverse l) (All-reverse (λ y. less y x ≡ false) l s.0)
      (reverse-IsSortedBy less l s.1))

-- SortByName, SortByDate and SortByRevision rearrange the releases and leave them ascending by
-- name, by the time of the last deployment and by revision; and `Reverse` with SortByRevision leaves
-- them descending by revision.
pub sorts_lem :
    (ls : List Release)
    → IsSorting (λ a b. str_lt a.name b.name) (sort_by_name ls) ls
      × IsSorting (λ a b. ltb a.info.last_deployed b.info.last_deployed) (sort_by_date ls) ls
      × IsSorting (λ a b. lt_int a.version b.version) (sort_by_revision ls) ls
      × IsSortedBy (λ a b. lt_int b.version a.version) (reverse_sorted ls sort_by_revision)
unfolding sort_by_name sort_by_date sort_by_revision reverse_sorted
sorts_lem ls = (
  (sort_by-IsSortedBy by_name-IsWeakOrder ls, sort_by-perm by_name ls),
  (sort_by-IsSortedBy by_date-IsWeakOrder ls, sort_by-perm by_date ls),
  (sort_by-IsSortedBy by_revision-IsWeakOrder ls, sort_by-perm by_revision ls),
  reverse-IsSortedBy by_revision (sort_by by_revision ls)
      (sort_by-IsSortedBy by_revision-IsWeakOrder ls),
)

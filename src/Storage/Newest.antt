-- ===== src/Storage/Newest.antt =====
-- `Last` and `Deployed` over any driver: the newest revision of what a query returns.
use mathlib.Core.List.{reverse, Mem, mem-cons_self, mem-cons_of_mem, reverse-cons}
use mathlib.Core.List.{Perm, mem-cons, not-mem-nil}
use mathlib.Core.List.Perm
use mathlib.Core.Path.{subst}
use mathlib.Core.Logic.Or
use aws_ecommerce_k8s.Base.{◌≡◌, refl, sym, Bool, false, List, [], ◌∷◌, ◌++◌, arith, All}
use aws_ecommerce_k8s.Base.Bytes.{Bytes}
use aws_ecommerce_k8s.Base.Int.{lt_int}
use aws_ecommerce_k8s.Base.Sort.{sort_by, IsSortedBy, sort_by-IsSortedBy, sort_by-perm}
use aws_ecommerce_k8s.Release.Defs.{Release}
use aws_ecommerce_k8s.Release.Sorter.{
  sort_by_revision, reverse_sorted, by_revision, by_revision-IsWeakOrder,
}
use aws_ecommerce_k8s.Driver.Errors.{Error, Result, ok, err, no_revision, err_no_deployed_releases}
use aws_ecommerce_k8s.Driver.Interface.{Driver}
use aws_ecommerce_k8s.Storage.{Storage, history, last, deployed, deployed_all, newest_or}

All-of_Mem : (P : Release → Type 0) (l : List Release) → ((x : Release) → Mem x l → P x) → All P l
All-of_Mem P [] h = tt
All-of_Mem P (x ∷ l) h = (h x mem-cons_self, All-of_Mem P l (λ y m. h y (mem-cons_of_mem x m)))

All-Mem :
    {x : Release} (P : Release → Type 0) (l : List Release)
    → ((y : Release) → IsProp (P y))
    → All P l
    → Mem x l
    → P x
All-Mem P [] p h m = absurd (not-mem-nil m)
All-Mem {x} P (y ∷ l) p h m =
    Or.elim (p x) (mem-cons.0 m) (λ e. subst P (sym e) h.0) (λ k. All-Mem P l p h.1 k)

Bool-path : (b c : Bool) → IsProp (b ≡ c)
Bool-path b c = let s : IsSet Bool = hlevel in s b c

-- No release of the list has a greater revision.
abbrev pub IsNewest : Release → List Release → Type 0
IsNewest rel ls = All (λ r. lt_int rel.version r.version ≡ false) ls

-- The head of a reversed ascending list is in the list, and nothing there is newer.
abbrev Ends : List Release → List Release → Type 0
Ends l [] = l ≡ []
Ends l (x ∷ r) = Mem x l × IsNewest x l

Ends-snoc :
    (a : Release) (l : List Release) (r : List Release)
    → All (λ y. by_revision y a ≡ false) l
    → Ends l r
    → Ends (a ∷ l) (r ++ a ∷ [])
Ends-snoc a l [] below e = (mem-cons_self, (ground arith, rw e tt))
Ends-snoc a l (x ∷ r) below (m, newest) = (
  mem-cons_of_mem a m,
  (All-Mem (λ y. by_revision y a ≡ false) l (λ y. Bool-path _ _) below m, newest),
)

Ends-reverse : (l : List Release) → IsSortedBy by_revision l → Ends l (reverse l)
Ends-reverse [] s = refl
Ends-reverse (a ∷ l) s = rw (reverse-cons a l) (Ends-snoc a l (reverse l) s.0 (Ends-reverse l s.1))

newest_of : Error → List Release → Result Release
newest_of e [] = err e
newest_of e (rel ∷ rest) = ok rel

newest_or-reverse :
    (e : Error) (ls : List Release)
    → newest_or e (ok ls) ≡ newest_of e (reverse (sort_by by_revision ls))
unfolding newest_or reverse_sorted sort_by_revision newest_of
newest_or-reverse e ls = ground arith

-- What `newest_or` makes of an answer: the error given for an empty list, and else a release that
-- is in the list and that no release there has a greater revision than.
abbrev pub NewestOf : Error → Result (List Release) → Result Release → Type 0
NewestOf e (err e') r = r ≡ err e'
NewestOf e (ok []) r = r ≡ err e
NewestOf e (ok (x ∷ xs)) r =
    (rel : Release) × (r ≡ ok rel) × Mem rel (x ∷ xs) × IsNewest rel (x ∷ xs)

Perm-nil : {x : Release} {xs : List Release} → Perm [] (x ∷ xs) → ⊥
Perm-nil p = cc (Perm.nil-eq p)

newest-cons :
    (e : Error) (x : Release) (xs back : List Release)
    → Ends (sort_by by_revision (x ∷ xs)) back
    → NewestOf e (ok (x ∷ xs)) (newest_of e back)
unfolding newest_of
newest-cons e x xs [] ends =
    absurd (Perm-nil (subst (λ l. Perm l (x ∷ xs)) ends (sort_by-perm by_revision (x ∷ xs))))
newest-cons e x xs (rel ∷ back) (m, newest) =
    let p = sort_by-perm by_revision (x ∷ xs) in
    (
      rel,
      refl,
      (Perm.mem_iff p).0 m,
      All-of_Mem (λ r. lt_int rel.version r.version ≡ false) (x ∷ xs)
          (λ y k.
            All-Mem (λ r. lt_int rel.version r.version ≡ false) (sort_by by_revision (x ∷ xs))
              (λ z. Bool-path _ _) newest ((Perm.mem_iff p).1 k)),
    )

reverse_sorted-eq :
    (x : Release) (xs back : List Release)
    → reverse_sorted (x ∷ xs) sort_by_revision ≡ back
    → Ends (sort_by by_revision (x ∷ xs)) back
    → (rel : Release) × (rest : List Release) × (reverse_sorted (x ∷ xs) sort_by_revision
        ≡ rel ∷ rest)
reverse_sorted-eq x xs [] eq ends =
    absurd (Perm-nil (subst (λ l. Perm l (x ∷ xs)) ends (sort_by-perm by_revision (x ∷ xs))))
reverse_sorted-eq x xs (rel ∷ rest) eq ends = (rel, rest, eq)

pub reverse_sorted-cons :
    (x : Release) (xs : List Release)
    → (rel : Release) × (rest : List Release) × (reverse_sorted (x ∷ xs) sort_by_revision
        ≡ rel ∷ rest)
unfolding reverse_sorted sort_by_revision
reverse_sorted-cons x xs =
    reverse_sorted-eq x xs (reverse (sort_by by_revision (x ∷ xs))) refl
      (Ends-reverse _ (sort_by-IsSortedBy by_revision-IsWeakOrder (x ∷ xs)))

newest_or-NewestOf :
    (e : Error) (answer : Result (List Release)) → NewestOf e answer (newest_or e answer)
newest_or-NewestOf e (err e') = unfold newest_or in refl
newest_or-NewestOf e (ok []) = unfold newest_or reverse_sorted sort_by_revision in refl
newest_or-NewestOf e (ok (x ∷ xs)) = rw (newest_or-reverse e (x ∷ xs)) (
    newest-cons e x xs (reverse (sort_by by_revision (x ∷ xs)))
      (Ends-reverse _ (sort_by-IsSortedBy by_revision-IsWeakOrder (x ∷ xs))))

-- Over any driver, `Last` answers with the newest release of the name's history, and `Deployed`
-- with the newest one of the deployed releases; both pass on the error of the query, and have an
-- error of their own where there is no release to choose from.
pub newest_revision :
    {D : Type 0} (drv : Driver D) (name : Bytes) (s : Storage D)
    → NewestOf (no_revision name) (history drv name s) (last drv name s)
      × NewestOf (err_no_deployed_releases name) (deployed_all drv name s) (deployed drv name s)
unfolding last deployed
newest_revision drv name s = (
  newest_or-NewestOf (no_revision name) (history drv name s),
  newest_or-NewestOf (err_no_deployed_releases name) (deployed_all drv name s),
)

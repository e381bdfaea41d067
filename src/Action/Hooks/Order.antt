-- ===== src/Action/Hooks/Order.antt =====
-- Which hooks `execHook` runs, and in which order.
use mathlib.Core.List.{Mem, mem-cons_self, mem-append_left, mem-append_right}
use mathlib.Core.List.Perm
use mathlib.Core.Path.{subst}
use aws_ecommerce_k8s.Base.{
  ℕ, zero, suc, ◌+◌, ◌≡◌, sym, ap, ◌∙◌, Bool, true, some, List, [], ◌∷◌, ◌&&◌, ◌||◌, ◌++◌, false,
  ltb, All-append, if◌then◌else◌, keep_if, get_elem?, All, arith, Bool-cases, inl, inr,
}
use aws_ecommerce_k8s.Base.Bytes.{str_eq, str_eq_iff, str_lt, str_lt_asym, str_lt_neg_trans}
use aws_ecommerce_k8s.Base.Int.{eq_int, lt_int}
use aws_ecommerce_k8s.Base.Sort.{
  sort_by, sort_by-All, IsSortedBy-same, IsWeakOrder, IsSortedBy, sort_by-IsSortedBy, sort_by-perm,
  sort_by-stable,
}
use aws_ecommerce_k8s.Release.Hook.{HookEvent, event_name, Hook}
use aws_ecommerce_k8s.Action.Hooks.{same_event, by_weight, appended, select_from, executing_hooks}

by_weight-IsWeakOrder : IsWeakOrder by_weight
by_weight-IsWeakOrder = record {
  asym = λ a b h. ground (arith, str_lt_asym a.name b.name);
  neg_trans = λ a b c h k. ground (arith, str_lt_neg_trans a.name b.name c.name);
}

abbrev by_run : ℕ × Hook → ℕ × Hook → Bool
by_run a b = by_weight a.1 b.1

by_run-IsWeakOrder : IsWeakOrder by_run
by_run-IsWeakOrder = record {
  asym = λ a b. by_weight-IsWeakOrder.asym a.1 b.1;
  neg_trans = λ a b c. by_weight-IsWeakOrder.neg_trans a.1 b.1 c.1;
}

-- A hook of the same weight and name as `h`.
abbrev pub ties : Hook → ℕ × Hook → Bool
ties h (i, x) = eq_int x.weight h.weight && str_eq x.name h.name

ties-tied : (h : Hook) (a b : ℕ × Hook) → ties h a ≡ true → ties h b ≡ true → by_run a b ≡ false
ties-tied h (i, x) (j, y) p q =
    ground (arith, str_eq_iff x.name h.name, str_eq_iff y.name h.name, str_lt_asym h.name h.name)

-- One of the events is the one asked for.
abbrev pub runs_on : HookEvent → List HookEvent → Bool
runs_on hook [] = false
runs_on hook (e ∷ es) = if str_eq (event_name e) (event_name hook) then true else runs_on hook es

-- A pointer of the list and what it reaches.
abbrev pub IsRun : HookEvent → List Hook → ℕ × Hook → Type 0
IsRun hook hooks (i, h) = (get_elem? hooks i ≡ some h) × (runs_on hook h.events ≡ true)

appended-All :
    (hook : HookEvent) (i : ℕ) (h : Hook) (P : ℕ × Hook → Type 0) (es : List HookEvent)
    → (runs_on hook es ≡ true → P (i, h))
    → All P (appended hook i h es)
unfolding appended same_event
appended-All hook i h P [] p = tt
appended-All hook i h P (e ∷ es) p = elim (Bool-cases (str_eq (event_name e) (event_name hook))) [
  | inl same ↦ rw same (p (rw same), appended-All hook i h P es (λ r. p (rw same)))
  | inr other ↦ rw other (appended-All hook i h P es (λ r. p (rw other r)))
]

select-All :
    (hook : HookEvent) (hooks : List Hook) (k : ℕ) (hs : List Hook)
    → ((n : ℕ) → get_elem? hooks (k + n) ≡ get_elem? hs n)
    → All (IsRun hook hooks) (select_from hook k hs)
unfolding select_from get_elem?
select-All hook hooks k [] there = tt
select-All hook hooks k (h ∷ hs) there =
    All-append (IsRun hook hooks) (appended hook k h h.events) (select_from hook (suc k) hs)
      (appended-All hook k h (IsRun hook hooks) h.events
        (λ r. (ap (get_elem? hooks) (omega arith) ∙ there 0, r)))
      (select-All hook hooks (suc k) hs (λ n. ap (get_elem? hooks) (omega arith) ∙ there (suc n)))

appended-Mem :
    (hook : HookEvent) (i : ℕ) (h : Hook) (es : List HookEvent)
    → runs_on hook es ≡ true
    → Mem (i, h) (appended hook i h es)
unfolding appended same_event
appended-Mem hook i h [] r = ground arith
appended-Mem hook i h (e ∷ es) r = elim (Bool-cases (str_eq (event_name e) (event_name hook))) [
  | inl same ↦ rw same mem-cons_self
  | inr other ↦ rw other (appended-Mem hook i h es (rw other at r))
]

appended-Mem_of :
    (hook : HookEvent) (i k : ℕ) (h x : Hook)
    → i ≡ k
    → x ≡ h
    → runs_on hook h.events ≡ true
    → Mem (i, h) (appended hook k x x.events)
appended-Mem_of hook i k h x at same r =
    subst (λ j. Mem (j, h) (appended hook k x x.events)) (sym at)
      (subst (λ y. Mem (k, h) (appended hook k y y.events)) (sym same)
        (appended-Mem hook k h h.events r))

select-Mem :
    (hook : HookEvent) (i k n : ℕ) (h : Hook) (hs : List Hook)
    → i ≡ k + n
    → get_elem? hs n ≡ some h
    → runs_on hook h.events ≡ true
    → Mem (i, h) (select_from hook k hs)
unfolding select_from get_elem?
select-Mem hook i k n h [] at there r = ground arith
select-Mem hook i k zero h (x ∷ hs) at there r =
    mem-append_left (select_from hook (suc k) hs)
      (appended-Mem_of hook i k h x (omega arith) (cc) r)
select-Mem hook i k (suc n) h (x ∷ hs) at there r =
    mem-append_right (appended hook k x x.events)
      (select-Mem hook i (suc k) n h hs (omega arith) there r)

-- The order of two runs: by weight, and for equal weights by name.
abbrev pub comes_first : ℕ × Hook → ℕ × Hook → Bool
comes_first (i, a) (j, b) =
    lt_int a.weight b.weight || eq_int a.weight b.weight && str_lt a.name b.name

-- The order of their places in the release.
abbrev pub by_place : ℕ × Hook → ℕ × Hook → Bool
by_place a b = ltb a.0 b.0

by_run-comes_first : (a b : ℕ × Hook) → by_run a b ≡ comes_first a b
by_run-comes_first (i, a) (j, b) = ground arith

-- No place is below `k`.
abbrev AreFrom : ℕ → List (ℕ × Hook) → Type 0
AreFrom k runs = All (λ r. ltb r.0 k ≡ false) runs

AreFrom-suc : (k : ℕ) (runs : List (ℕ × Hook)) → AreFrom (suc k) runs → AreFrom k runs
AreFrom-suc k [] h = tt
AreFrom-suc k (r ∷ runs) h = (ground (arith, h.0), AreFrom-suc k runs h.1)

appended-by_place :
    (hook : HookEvent) (k : ℕ) (h : Hook) (es : List HookEvent) (runs : List (ℕ × Hook))
    → AreFrom k runs
    → IsSortedBy by_place runs
    → AreFrom k (appended hook k h es ++ runs) × IsSortedBy by_place (appended hook k h es ++ runs)
unfolding appended
appended-by_place hook k h [] runs from sorted = (from, sorted)
appended-by_place hook k h (e ∷ es) runs from sorted =
    let rest = appended-by_place hook k h es runs from sorted in
    elim (Bool-cases (same_event e hook)) [
      | inl same ↦ rw (same, appended) (((ground arith, rest.0)), (rest.0, rest.1))
      | inr other ↦ rw (other, appended) rest
    ]

select-by_place :
    (hook : HookEvent) (k : ℕ) (hs : List Hook)
    → AreFrom k (select_from hook k hs) × IsSortedBy by_place (select_from hook k hs)
unfolding select_from
select-by_place hook k [] = (tt, tt)
select-by_place hook k (h ∷ hs) =
    let rest = select-by_place hook (suc k) hs in
    appended-by_place hook k h h.events (select_from hook (suc k) hs)
      (AreFrom-suc k (select_from hook (suc k) hs) rest.0) rest.1

All-keep_if :
    (P : ℕ × Hook → Type 0) (p : ℕ × Hook → Bool) (runs : List (ℕ × Hook))
    → All P runs
    → All P (keep_if p runs)
unfolding keep_if
All-keep_if P p [] h = tt
All-keep_if P p (r ∷ runs) h = elim (Bool-cases (p r)) [
  | inl stays ↦ rw (stays, keep_if) (h.0, All-keep_if P p runs h.1)
  | inr goes ↦ rw (goes, keep_if) (All-keep_if P p runs h.1)
]

keep_if-by_place :
    (p : ℕ × Hook → Bool) (runs : List (ℕ × Hook))
    → IsSortedBy by_place runs
    → IsSortedBy by_place (keep_if p runs)
unfolding keep_if
keep_if-by_place p [] s = tt
keep_if-by_place p (r ∷ runs) s = elim (Bool-cases (p r)) [
  | inl stays ↦
      rw (stays, keep_if)
        (All-keep_if (λ y. by_place y r ≡ false) p runs s.0, keep_if-by_place p runs s.1)
  | inr goes ↦ rw (goes, keep_if) (keep_if-by_place p runs s.1)
]

-- The pointers that `execHook` follows, with the hooks they reach: each is in range and its hook has
-- the event; every hook with the event is among them; they are in the order of weights and, for equal
-- weights, of names; and hooks of equal weight and name keep the order that they have in the release.
pub executing_lem :
    (hook : HookEvent) (hooks : List Hook)
    → let runs = executing_hooks hook hooks in
      All (IsRun hook hooks) runs
      × ((i : ℕ) (h : Hook) → IsRun hook hooks (i, h) → Mem (i, h) runs)
      × IsSortedBy comes_first runs
      × ((h : Hook) → IsSortedBy by_place (keep_if (ties h) runs))
unfolding executing_hooks
executing_lem hook hooks = (
  sort_by-All by_run (IsRun hook hooks) (select_from hook 0 hooks)
      (select-All hook hooks 0 hooks (λ n. ap (get_elem? hooks) (omega arith))),
  λ i h (there, r).
      (Perm.mem_iff (sort_by-perm by_run (select_from hook 0 hooks))).1
        (select-Mem hook i 0 i h hooks (omega arith) there r),
  IsSortedBy-same by_run comes_first by_run-comes_first (sort_by by_run (select_from hook 0 hooks))
      (sort_by-IsSortedBy by_run-IsWeakOrder (select_from hook 0 hooks)),
  λ h.
      subst (IsSortedBy by_place)
        (sym (sort_by-stable by_run (ties h) (ties-tied h) (select_from hook 0 hooks)))
        (keep_if-by_place (ties h) (select_from hook 0 hooks) (select-by_place hook 0 hooks).1),
)

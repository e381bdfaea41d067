-- ===== src/Action/Hooks/Succeeds.antt =====
-- Where `execHook` returns no error, the hooks have succeeded.
use mathlib.Core.Path.{subst}
use aws_ecommerce_k8s.Base.{
  ℕ, zero, suc, ◌≡◌, refl, sym, ap, false, Option, none, some, List, [], ◌∷◌, ◌++◌, map, ◌==◌,
  get_elem?, modify_at, All, arith, Bool-cases, Option-cases, inl, inr,
}
use aws_ecommerce_k8s.Base.Bytes.{Bytes}
use aws_ecommerce_k8s.Release.Hook.{HookEvent, HookPhase, Hook, succeeded}
use aws_ecommerce_k8s.Release.Defs.{Release}
use aws_ecommerce_k8s.Driver.Errors.{Error}
use aws_ecommerce_k8s.Driver.Interface.{Driver}
use aws_ecommerce_k8s.Action.Step.{
  done, follow, Ends, Ends-follow, Ends-last, Ends-both, Ends-kept, Ends-done,
}
use aws_ecommerce_k8s.Action.World.{World}
use aws_ecommerce_k8s.Action.Kube.{KubeClient}
use aws_ecommerce_k8s.Action.Hooks.{executing, executing_hooks, set_phase, hook_set_delete_policy}
use aws_ecommerce_k8s.Action.Hooks.Exec.{
  with_hook, change_hook, watched, run_hook, run_hooks, clean_up, exec_hook,
}
use aws_ecommerce_k8s.Action.Hooks.Invariant.{erased}
use aws_ecommerce_k8s.Action.Hooks.Keeps.{run-KeepsOf, with_hook-KeepsOf, clean_up-KeepsOf}
use aws_ecommerce_k8s.Action.Hooks.Frame.{get_elem?-modify_at, exec_hook_frame}
use aws_ecommerce_k8s.Action.Hooks.Order.{IsRun, executing_lem}

-- A pointer that is in range reaches a hook that has succeeded.
abbrev HasSucceeded : Option Hook → Type 0
HasSucceeded none = Unit
HasSucceeded (some h) = h.last_run.phase ≡ succeeded

succeeded_after :
    (i : ℕ) (hs : List Hook) → HasSucceeded (get_elem? (modify_at i (set_phase succeeded) hs) i)
unfolding get_elem? modify_at
succeeded_after i [] = tt
succeeded_after zero (h ∷ hs) = refl
succeeded_after (suc i) (h ∷ hs) = succeeded_after i hs

-- The phase of the last run of the i-th hook.
abbrev pub phase_of : Option Hook → Option HookPhase
phase_of none = none
phase_of (some h) = some h.last_run.phase

phase_of-succeeded :
    (before after : List Hook) (i : ℕ) (h : Hook)
    → map erased after ≡ map erased before
    → get_elem? before i ≡ some h
    → HasSucceeded (get_elem? after i)
    → phase_of (get_elem? after i) ≡ some succeeded
unfolding get_elem?
phase_of-succeeded [] after i h e there has = cc
phase_of-succeeded (b ∷ bs) [] i h e there has = cc
phase_of-succeeded (b ∷ bs) (a ∷ rest) zero h e there has = ap some has
phase_of-succeeded (b ∷ bs) (a ∷ rest) (suc i) h e there has =
    phase_of-succeeded bs rest i h (cc) there has

runs-succeeded :
    (hook : HookEvent) (before after : List Hook) (runs : List (ℕ × Hook))
    → map erased after ≡ map erased before
    → All (IsRun hook before) runs
    → All (λ i. HasSucceeded (get_elem? after i)) (map (λ r. r.0) runs)
    → All (λ r. phase_of (get_elem? after r.0) ≡ some succeeded) runs
runs-succeeded hook before after [] e own has = tt
runs-succeeded hook before after ((i, h) ∷ runs) e own has = (
  phase_of-succeeded before after i h e own.0.0 has.0,
  runs-succeeded hook before after runs e own.1 has.1,
)

module _ {K D R P V : Type 0} (kube : KubeClient K R P V) (drv : Driver D) (wait_strategy : Bytes)
    (timeout : ℕ) where
  abbrev SucceededAt : ℕ → Unit {0} → World K D → Type 0
  SucceededAt i a w = HasSucceeded (get_elem? w.rl.hooks i)

  watched-Ends :
      (earlier : List ℕ) (i : ℕ) (h : Hook) (e : Option Error) (w : World K D)
      → Ends (SucceededAt i) (watched kube drv wait_strategy timeout earlier i h e w)
  unfolding watched
  watched-Ends earlier i h none w = succeeded_after i w.rl.hooks
  watched-Ends earlier i h (some e) w = Ends-last (SucceededAt i) _ _ (λ a w.
      Ends-last (SucceededAt i) _ _ (λ a w.
        Ends-last (SucceededAt i) _ _ (λ a w.
          Ends-last (SucceededAt i) _ _ (λ a w. Ends-last (SucceededAt i) _ _ (λ a w. tt)))))

  run-Ends :
      (hook : HookEvent) (earlier : List ℕ) (i : ℕ) (h : Hook) (w : World K D)
      → Ends (SucceededAt i) (run_hook kube drv wait_strategy timeout hook earlier i h w)
  unfolding run_hook
  run-Ends hook earlier i h w = Ends-last (SucceededAt i) _ _ (λ a w.
      Ends-last (SucceededAt i) _ _ (λ resources w. Ends-last (SucceededAt i) _ _ (λ t w.
        Ends-last (SucceededAt i) _ _ (λ a w. Ends-last (SucceededAt i) _ _ (λ a w.
          Ends-last (SucceededAt i) _ _ (λ a w. Ends-last (SucceededAt i) _ _ (λ e w.
            Ends-last (SucceededAt i) _ _ (λ a w. Ends-last (SucceededAt i) _ _ (λ waiter w.
              Ends-last (SucceededAt i) _ _ (λ outcome w.
                Ends-last (SucceededAt i) _ _ (λ a w. watched-Ends earlier i h outcome w)))))))))))

  with_hook-Ends :
      (hook : HookEvent) (earlier : List ℕ) (i : ℕ) (w : World K D)
      → Ends
          (SucceededAt i)
          (with_hook i (run_hook kube drv wait_strategy timeout hook earlier i) w)
  with_hook-Ends hook earlier i w = elim (Option-cases (get_elem? w.rl.hooks i)) [
    | inl missing ↦ rw (missing, with_hook) (rw missing tt)
    | inr (h, there) ↦ rw (there, with_hook) (run-Ends hook earlier i h w)
  ]

  -- What has succeeded stays so, or has succeeded again.
  with_hook-kept :
      (hook : HookEvent) (earlier : List ℕ) (i k : ℕ) (w : World K D)
      → HasSucceeded (get_elem? w.rl.hooks k)
      → (i == k) ≡ false
      → Ends
          (SucceededAt k)
          (with_hook i (run_hook kube drv wait_strategy timeout hook earlier i) w)
  with_hook-kept hook earlier i k w has other =
      let part = λ (rl : Release). get_elem? rl.hooks k in
      let run = run_hook kube drv wait_strategy timeout hook earlier i in
      Ends-kept HasSucceeded (λ w. part w.rl) (part w.rl) (with_hook i run w)
        (with_hook-KeepsOf part kube wait_strategy timeout drv i run
          (λ h.
            run-KeepsOf part kube wait_strategy timeout drv i
              (λ f c rl. get_elem?-modify_at f i k rl.hooks other) hook earlier h)
          w)
        has

  with_hook-stays :
      (hook : HookEvent) (earlier : List ℕ) (i k : ℕ) (w : World K D)
      → HasSucceeded (get_elem? w.rl.hooks k)
      → Ends (SucceededAt k) (
          follow
            (change_hook {K = K} {D = D} i hook_set_delete_policy w)
            (λ _. with_hook i (run_hook kube drv wait_strategy timeout hook earlier i)))
  unfolding follow
  with_hook-stays hook earlier i k w has = elim (Bool-cases (i == k)) [
    | inl same ↦
        subst
          (λ k. Ends (SucceededAt k) (
            with_hook i (run_hook kube drv wait_strategy timeout hook earlier i)
              (change_hook i hook_set_delete_policy w).1))
          (ground arith) (with_hook-Ends hook earlier i (change_hook i hook_set_delete_policy w).1)
    | inr other ↦
        with_hook-kept hook earlier i k (change_hook i hook_set_delete_policy w).1
          (subst HasSucceeded
            (sym (get_elem?-modify_at hook_set_delete_policy i k w.rl.hooks other)) has)
          other
  ]

  run_hooks-kept :
      (hook : HookEvent) (earlier is : List ℕ) (k : ℕ) (w : World K D)
      → HasSucceeded (get_elem? w.rl.hooks k)
      → Ends (SucceededAt k) (run_hooks kube drv wait_strategy timeout hook earlier is w)
  unfolding run_hooks follow
  run_hooks-kept hook earlier [] k w has = has
  run_hooks-kept hook earlier (i ∷ is) k w has =
      Ends-follow (SucceededAt k) (SucceededAt k) _ _ (with_hook-stays hook earlier i k w has)
        (λ a w has. run_hooks-kept hook (earlier ++ i ∷ []) is k w has)

  run_hooks-Ends :
      (hook : HookEvent) (earlier is : List ℕ) (w : World K D)
      → Ends
          (λ a w. All (λ i. SucceededAt i a w) is)
          (run_hooks kube drv wait_strategy timeout hook earlier is w)
  unfolding run_hooks follow
  run_hooks-Ends hook earlier [] w = tt
  run_hooks-Ends hook earlier (i ∷ is) w =
      Ends-follow (λ a w. All (λ i. SucceededAt i a w) (i ∷ is)) (SucceededAt i) _ _
        (with_hook-Ends hook earlier i (change_hook i hook_set_delete_policy w).1)
        (λ a w has.
          Ends-both (SucceededAt i) (λ a w. All (λ i. SucceededAt i a w) is) _
            (run_hooks-kept hook (earlier ++ i ∷ []) is i w has)
            (run_hooks-Ends hook (earlier ++ i ∷ []) is w))

  exec_hook-Ends :
      (hook : HookEvent) (w : World K D)
      → Ends
          (λ a w'. All (λ i. SucceededAt i a w') (executing hook w.rl.hooks))
          (exec_hook kube drv wait_strategy timeout hook w)
  unfolding exec_hook follow
  exec_hook-Ends hook w =
      let is = executing hook w.rl.hooks in
      let Q = λ (rl : Release). All (λ i. HasSucceeded (get_elem? rl.hooks i)) is in
      Ends-follow (λ a w. Q w.rl) (λ a w. Q w.rl)
        (run_hooks kube drv wait_strategy timeout hook [] is w)
        (λ _. clean_up kube drv wait_strategy timeout is) (run_hooks-Ends hook [] is w)
        (λ a w' has.
          Ends-kept Q (λ w. w.rl) w'.rl (clean_up kube drv wait_strategy timeout is w')
            (clean_up-KeepsOf (λ rl. rl) kube wait_strategy timeout drv is w') has)

  -- Where `execHook` returns no error, whatever the client did, the last run of each hook that it
  -- ran is in the phase "Succeeded", also of one that the release runs several times.
  pub exec_hook_succeeds :
      (hook : HookEvent) (w : World K D)
      → (exec_hook kube drv wait_strategy timeout hook w).0 ≡ done tt
      → let rl = (exec_hook kube drv wait_strategy timeout hook w).1.rl in
        All
          (λ r. phase_of (get_elem? rl.hooks r.0) ≡ some succeeded)
          (executing_hooks hook w.rl.hooks)
  unfolding executing
  exec_hook_succeeds hook w ended =
      runs-succeeded hook w.rl.hooks (exec_hook kube drv wait_strategy timeout hook w).1.rl.hooks
        (executing_hooks hook w.rl.hooks)
        (ap (λ rl. rl.hooks) (exec_hook_frame kube drv wait_strategy timeout hook w).0)
        (executing_lem hook w.rl.hooks).0
        (Ends-done _ (exec_hook kube drv wait_strategy timeout hook w) ended
          (exec_hook-Ends hook w))

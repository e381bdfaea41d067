-- ===== src/Action/Hooks/Exec.antt =====
-- hooks.go: `execHook`.
use mathlib.Core.List.{reverse}
use aws_ecommerce_k8s.Base.{ℕ, true, Option, none, some, List, [], ◌∷◌, ◌++◌, get_elem?, modify_at}
use aws_ecommerce_k8s.Base.Bytes.{Bytes}
use aws_ecommerce_k8s.Release.Hook.{
  HookEvent, HookDeletePolicy, hook_succeeded, hook_failed, hook_before_hook_creation,
  hook_output_on_succeeded, hook_output_on_failed, unknown, succeeded, failed, Hook,
}
use aws_ecommerce_k8s.Driver.Errors.{Error}
use aws_ecommerce_k8s.Driver.Interface.{Driver}
use aws_ecommerce_k8s.Action.Step.{done, Step, ◌>>=◌, ◌>>◌, pure, fail, gets, quietly, each}
use aws_ecommerce_k8s.Action.World.{World, attempt, observe, record_release}
use aws_ecommerce_k8s.Action.Kube.{KubeClient}
use aws_ecommerce_k8s.Action.Hooks.{
  HookError, unable_to_build, unable_to_create, unable_to_get_waiter, plain, executing,
  hook_set_delete_policy, start_at, set_phase, complete_at,
}
use aws_ecommerce_k8s.Action.Hooks.Calls.{delete_hook_by_policy, output_logs_by_policy}

module _ {K D : Type 0} where
  -- A change of the hook that the i-th pointer reaches.
  abbrev pub change_hook : ℕ → (Hook → Hook) → Step (World K D) HookError (Unit {0})
  change_hook i f w = (done tt, record w { rl = record w.rl { hooks = modify_at i f w.rl.hooks } })

  -- Reads through the i-th pointer; the pointers of `executing` all reach a hook.
  abbrev pub with_hook :
      ℕ → (Hook → Step (World K D) HookError (Unit {0})) → Step (World K D) HookError (Unit {0})
  with_hook i f w = elim (get_elem? w.rl.hooks i) [ none ↦ (done tt, w) | some h ↦ f h w ]

  module _ {R P V : Type 0} (kube : KubeClient K R P V) (drv : Driver D) (wait_strategy : Bytes)
      (timeout : ℕ) where
    abbrev pub complete : ℕ → Step (World K D) HookError (Unit {0})
    complete i = do t ← gets (λ w. kube.now w.cluster); change_hook i (complete_at t)

    unfoldable pub delete_hooks_by_policy :
        List ℕ → HookDeletePolicy → Step (World K D) HookError (Unit {0})
    unfolding each
    delete_hooks_by_policy hooks policy =
        each (λ i. with_hook i (λ h. delete_hook_by_policy kube wait_strategy timeout h policy))
          hooks

    unfoldable pub create_hook_result :
        HookEvent → ℕ → Hook → Option Error → Step (World K D) HookError (Unit {0})
    create_hook_result hook i h none = pure tt
    create_hook_result hook i h (some e) = do
      complete i
      change_hook i (set_phase failed)
      fail (unable_to_create hook h.path e)

    -- What follows the watch: `earlier` are the hooks that ran before this one.
    unfoldable pub watched :
        List ℕ → ℕ → Hook → Option Error → Step (World K D) HookError (Unit {0})
    unfolding delete_hooks_by_policy
    watched earlier i h none = change_hook i (set_phase succeeded)
    watched earlier i h (some e) = do
      change_hook i (set_phase failed)
      namespace ← gets (λ w. w.rl.namespace)
      quietly (output_logs_by_policy kube h namespace hook_output_on_failed)
      quietly (delete_hook_by_policy kube wait_strategy timeout h hook_failed)
      delete_hooks_by_policy earlier hook_succeeded
      fail (plain e)

    unfoldable pub run_hook : HookEvent → List ℕ → ℕ → Hook → Step (World K D) HookError (Unit {0})
    unfolding create_hook_result watched
    run_hook hook earlier i h = do
      delete_hook_by_policy kube wait_strategy timeout h hook_before_hook_creation
      resources ← attempt (unable_to_build hook h.path) (kube.build h.manifest true)
      t ← gets (λ w. kube.now w.cluster)
      change_hook i (start_at t)
      record_release drv
      change_hook i (set_phase unknown)
      create_hook_result hook i h (← observe (kube.create resources))
      waiter ← attempt unable_to_get_waiter (kube.get_waiter wait_strategy)
      outcome ← observe (kube.watch_until_ready waiter resources timeout)
      complete i
      watched earlier i h outcome

    -- The first loop.
    unfoldable pub run_hooks : HookEvent → List ℕ → List ℕ → Step (World K D) HookError (Unit {0})
    unfolding run_hook
    run_hooks hook earlier [] = pure tt
    run_hooks hook earlier (i ∷ is) = do
      change_hook i hook_set_delete_policy
      with_hook i (run_hook hook earlier i)
      run_hooks hook (earlier ++ i ∷ []) is

    unfoldable pub clean_up_hook : Hook → Step (World K D) HookError (Unit {0})
    clean_up_hook h = do
      namespace ← gets (λ w. w.rl.namespace)
      quietly (output_logs_by_policy kube h namespace hook_output_on_succeeded)
      delete_hook_by_policy kube wait_strategy timeout h hook_succeeded

    -- The second loop, from the last hook to the first.
    unfoldable pub clean_up : List ℕ → Step (World K D) HookError (Unit {0})
    unfolding each clean_up_hook
    clean_up is = each (λ i. with_hook i clean_up_hook) (reverse is)

    unfoldable pub exec_hook : HookEvent → Step (World K D) HookError (Unit {0})
    unfolding run_hooks clean_up
    exec_hook hook = do
      is ← gets (λ w. executing hook w.rl.hooks)
      run_hooks hook [] is
      clean_up is

-- ===== src/Action/Hooks/Reliable.antt =====
-- With a client whose calls all succeed, running hooks succeeds.
use mathlib.Core.List.{reverse}
use aws_ecommerce_k8s.Base.{
  ℕ, ◌≡◌, refl, ap, Bool, true, false, none, some, List, [], ◌∷◌, ◌++◌, get_elem?, All, arith,
  Option-cases, inl, inr,
}
use aws_ecommerce_k8s.Base.Bytes.{Bytes}
use aws_ecommerce_k8s.Release.Hook.{
  HookEvent, HookDeletePolicy, Hook, succeeded, hook_succeeded, hook_before_hook_creation,
}
use aws_ecommerce_k8s.Driver.Errors.{Error, Result, ok}
use aws_ecommerce_k8s.Driver.Interface.{Driver}
use aws_ecommerce_k8s.Action.Step.{
  done, Step, follow, IsDone, follow-IsDone, each-IsDone, IsDone-done, follow-done, pure,
}
use aws_ecommerce_k8s.Action.World.{World, attempt, observe}
use aws_ecommerce_k8s.Action.Kube.{KubeClient}
use aws_ecommerce_k8s.Action.Hooks.{
  HookError, unable_to_build, unable_to_build_for_deleting, unable_to_get_waiter, plain, executing,
  executing_hooks,
}
use aws_ecommerce_k8s.Action.Hooks.Calls.{delete_resources, delete_hook_by_policy}
use aws_ecommerce_k8s.Action.Hooks.Succeeds.{phase_of, exec_hook_succeeds}
use aws_ecommerce_k8s.Action.Hooks.Exec.{
  with_hook, create_hook_result, watched, run_hook, run_hooks, clean_up, clean_up_hook, complete,
  exec_hook,
}

-- Every call that running a hook makes of the client succeeds, in every state of the cluster: the
-- manifest builds, what is built can be created and deleted, and waiting for it ends well.
pub record IsReliable {K R P V : Type 0} (kube : KubeClient K R P V) : Type 0 where
  pub objects : Bytes → R
  pub waiter : V
  pub builds : (m : Bytes) (v : Bool) (k : K) → (kube.build m v k).0 ≡ ok (objects m)
  pub creates : (r : R) (k : K) → (kube.create r k).0 ≡ none
  pub deletes : (r : R) (k : K) → (kube.delete r k).0 ≡ []
  pub waits : (s : Bytes) (k : K) → (kube.get_waiter s k).0 ≡ ok waiter
  pub gets_ready : (v : V) (r : R) (t : ℕ) (k : K) → (kube.watch_until_ready v r t k).0 ≡ none
  pub gets_deleted : (v : V) (r : R) (t : ℕ) (k : K) → (kube.wait_for_delete v r t k).0 ≡ none

module _ {K D R P V : Type 0} (kube : KubeClient K R P V) (drv : Driver D) (wait_strategy : Bytes)
    (timeout : ℕ) (reliable : IsReliable kube) where
  attempt-IsDone :
      {A B : Type 0} (wrap : Error → HookError) (call : K → Result A × K) (a : A) (w : World K D)
      (f : A → Step (World K D) HookError B)
      → (call w.cluster).0 ≡ ok a
      → ((w : World K D) → IsDone (f a w))
      → IsDone (follow (attempt wrap call w) f)
  attempt-IsDone wrap call a w f e k = follow-done (attempt wrap call w) f a (ground arith) k

  observe-IsDone :
      {A B : Type 0} (call : K → A × K) (a : A) (w : World K D)
      (f : A → Step (World K D) HookError B)
      → (call w.cluster).0 ≡ a
      → ((w : World K D) → IsDone (f a w))
      → IsDone (follow (observe call w) f)
  observe-IsDone call a w f e k = follow-done (observe call w) f a (ap done e) k

  delete_resources-IsDone :
      (h : Hook) (w : World K D) → IsDone (delete_resources kube wait_strategy timeout h w)
  unfolding delete_resources
  delete_resources-IsDone h w =
      let r = reliable.objects h.manifest in
      let v = reliable.waiter in
      attempt-IsDone (unable_to_build_for_deleting h.path) (kube.build h.manifest false) r w _
        (reliable.builds h.manifest false w.cluster)
        (λ w. observe-IsDone (kube.delete r) [] w _ (reliable.deletes r w.cluster) (λ w.
          follow-done (pure tt w) _ tt refl (λ w.
            attempt-IsDone plain (kube.get_waiter wait_strategy) v w _
              (reliable.waits wait_strategy w.cluster)
              (λ w.
                observe-IsDone (kube.wait_for_delete v r timeout) none w _
                  (reliable.gets_deleted v r timeout w.cluster) (λ w. tt)))))

  delete-IsDone :
      (h : Hook) (policy : HookDeletePolicy) (w : World K D)
      → IsDone (delete_hook_by_policy kube wait_strategy timeout h policy w)
  unfolding delete_hook_by_policy
  delete-IsDone h policy w = ground (arith, delete_resources-IsDone h w)

  with_hook-IsDone :
      (i : ℕ) (f : Hook → Step (World K D) HookError (Unit {0}))
      → ((h : Hook) (w : World K D) → IsDone (f h w))
      → (w : World K D) → IsDone (with_hook i f w)
  with_hook-IsDone i f d w = elim (Option-cases (get_elem? w.rl.hooks i)) [
    | inl missing ↦ rw (missing, with_hook) tt
    | inr (h, there) ↦ rw (there, with_hook) (d h w)
  ]

  clean_up_hook-IsDone :
      (h : Hook) (w : World K D) → IsDone (clean_up_hook kube drv wait_strategy timeout h w)
  unfolding clean_up_hook
  clean_up_hook-IsDone h w =
      follow-done _ _ w.rl.namespace refl
        (λ w. follow-done _ _ tt refl (λ w. delete-IsDone h hook_succeeded w))

  clean_up-IsDone :
      (is : List ℕ) (w : World K D) → IsDone (clean_up kube drv wait_strategy timeout is w)
  unfolding clean_up
  clean_up-IsDone is =
      each-IsDone _
        (λ i.
          with_hook-IsDone i (clean_up_hook kube drv wait_strategy timeout) clean_up_hook-IsDone)
        (reverse is)

  complete-done :
      (i : ℕ) (w : World K D) → (complete kube drv wait_strategy timeout i w).0 ≡ done tt
  unfolding follow
  complete-done i w = refl

  run-IsDone :
      (hook : HookEvent) (earlier : List ℕ) (i : ℕ) (h : Hook) (w : World K D)
      → IsDone (run_hook kube drv wait_strategy timeout hook earlier i h w)
  unfolding run_hook create_hook_result watched
  run-IsDone hook earlier i h w =
      let r = reliable.objects h.manifest in
      let v = reliable.waiter in
      follow-IsDone _ _ (delete-IsDone h hook_before_hook_creation w) (λ a w.
        attempt-IsDone (unable_to_build hook h.path) (kube.build h.manifest true) r w _
          (reliable.builds h.manifest true w.cluster)
          (λ w. follow-done _ _ (kube.now w.cluster) refl (λ w. follow-done _ _ tt refl (λ w.
            follow-done _ _ tt refl (λ w. follow-done _ _ tt refl (λ w.
              observe-IsDone (kube.create r) none w _ (reliable.creates r w.cluster) (λ w.
                follow-done _ _ tt refl (λ w.
                  attempt-IsDone unable_to_get_waiter (kube.get_waiter wait_strategy) v w _
                    (reliable.waits wait_strategy w.cluster)
                    (λ w.
                      observe-IsDone (kube.watch_until_ready v r timeout) none w _
                        (reliable.gets_ready v r timeout w.cluster)
                        (λ w. follow-done _ _ tt (complete-done i w) (λ w. tt)))))))))))

  run_hooks-IsDone :
      (hook : HookEvent) (earlier is : List ℕ) (w : World K D)
      → IsDone (run_hooks kube drv wait_strategy timeout hook earlier is w)
  unfolding run_hooks
  run_hooks-IsDone hook earlier [] w = tt
  run_hooks-IsDone hook earlier (i ∷ is) w = follow-done _ _ tt refl (λ w.
      follow-IsDone _ _
        (with_hook-IsDone i (run_hook kube drv wait_strategy timeout hook earlier i)
          (run-IsDone hook earlier i) w)
        (λ a w. run_hooks-IsDone hook (earlier ++ i ∷ []) is w))

  exec_hook-IsDone :
      (hook : HookEvent) (w : World K D) → IsDone (exec_hook kube drv wait_strategy timeout hook w)
  unfolding exec_hook follow
  exec_hook-IsDone hook w =
      let is = executing hook w.rl.hooks in
      follow-IsDone (run_hooks kube drv wait_strategy timeout hook [] is w)
        (λ _. clean_up kube drv wait_strategy timeout is) (run_hooks-IsDone hook [] is w)
        (λ a w. clean_up-IsDone is w)

  -- With a client whose calls all succeed, and whatever the storage answers and the logs do,
  -- `execHook` returns no error and leaves each hook that it ran in the phase "Succeeded".
  pub exec_hook_reliable :
      (hook : HookEvent) (w : World K D)
      → ((exec_hook kube drv wait_strategy timeout hook w).0 ≡ done tt)
        × All
            (λ r.
              phase_of (get_elem? (exec_hook kube drv wait_strategy timeout hook w).1.rl.hooks r.0)
              ≡ some succeeded)
            (executing_hooks hook w.rl.hooks)
  exec_hook_reliable hook w =
      let ended = IsDone-done _ (exec_hook-IsDone hook w) in
      (ended, exec_hook_succeeds kube drv wait_strategy timeout hook w ended)

-- ===== src/Action/Hooks/Invariant.antt =====
-- What running hooks does not break: anything that a change of the cluster, a change of a hook that is
-- run and the recording of the release do not break.
use mathlib.Core.Path.{subst}
use mathlib.Core.List.{reverse}
use aws_ecommerce_k8s.Base.{
  ℕ, ◌≡◌, refl, sym, true, Option, none, some, List, [], ◌∷◌, ◌++◌, get_elem?, modify_at, All,
  arith, Option-cases, inl, inr,
}
use aws_ecommerce_k8s.Base.Bytes.{Bytes}
use aws_ecommerce_k8s.Release.Hook.{
  HookEvent, HookDeletePolicy, HookOutputLogPolicy, Hook, unset, unknown, failed, hook_succeeded,
  hook_failed, hook_before_hook_creation, hook_output_on_succeeded, hook_output_on_failed,
}
use aws_ecommerce_k8s.Driver.Errors.{Error, Result}
use aws_ecommerce_k8s.Driver.Interface.{Driver}
use aws_ecommerce_k8s.Action.Step.{Step, fail, gets, follow, Holds, Holds->>=, Holds-each}
use aws_ecommerce_k8s.Action.World.{World, attempt, observe, record_release}
use aws_ecommerce_k8s.Action.Kube.{KubeClient}
use aws_ecommerce_k8s.Action.Hooks.{
  HookError, plain, unable_to_build, unable_to_get_waiter, start_at, set_phase, executing,
  hook_set_delete_policy, with_policies,
}
use aws_ecommerce_k8s.Action.Hooks.Calls.{delete_hook_by_policy, output_logs_by_policy}
use aws_ecommerce_k8s.Action.Hooks.Exec.{
  change_hook, with_hook, complete, delete_hooks_by_policy, create_hook_result, watched, run_hook,
  run_hooks, clean_up, clean_up_hook, exec_hook,
}

-- A hook without what running it changes: its policies and its last run.
abbrev pub erased : Hook → Hook
erased h = record h {
  delete_policies = [];
  last_run = record { started_at = 0; completed_at = 0; phase = unset };
}

-- A change that leaves the rest of a hook as it is.
abbrev pub IsRunChange : (Hook → Hook) → Type 0
IsRunChange f = (h : Hook) → erased (f h) ≡ erased h

erased-with_policies :
    (ps : List HookDeletePolicy) (h : Hook) → erased (with_policies ps h) ≡ erased h
erased-with_policies [] h = refl
erased-with_policies (p ∷ ps) h = refl

set_delete_policy-IsRunChange : IsRunChange hook_set_delete_policy
unfolding hook_set_delete_policy
set_delete_policy-IsRunChange h = erased-with_policies h.delete_policies h

module _ {K D : Type 0} where
  abbrev pub hook_changed : ℕ → (Hook → Hook) → World K D → World K D
  hook_changed i f w = record w { rl = record w.rl { hooks = modify_at i f w.rl.hooks } }

  -- Changes of the i-th hook do not break it.
  abbrev pub Stays : (World K D → Type 0) → ℕ → Type 0
  Stays Inv i =
      (f : Hook → Hook) → IsRunChange f → (w : World K D) → Inv w → Inv (hook_changed i f w)

  -- A step that changes the cluster only.
  abbrev OnlyCluster : {A : Type 0} → Step (World K D) HookError A → Type 0
  OnlyCluster m = (w : World K D) → (m w).1 ≡ record w { cluster = (m w).1.cluster }

  module _ (Inv : World K D → Type 0)
      (cluster_free : (w : World K D) (k : K) → Inv w → Inv (record w { cluster = k })) where
    OnlyCluster-Holds :
        {A : Type 0} (m : Step (World K D) HookError A) → OnlyCluster m → Holds Inv m
    OnlyCluster-Holds m only w i = subst Inv (sym (only w)) (cluster_free w _ i)

    attempt-Holds :
        {A : Type 0} (wrap : Error → HookError) (call : K → Result A × K)
        → Holds Inv (attempt wrap call)
    attempt-Holds wrap call = OnlyCluster-Holds (attempt wrap call) (λ w. ground arith)

    observe-Holds : {A : Type 0} (call : K → A × K) → Holds {E = HookError} Inv (observe call)
    observe-Holds call w i = cluster_free w _ i

    module _ {R P V : Type 0} (kube : KubeClient K R P V) (wait_strategy : Bytes)
        (timeout : ℕ) where
      delete-OnlyCluster :
          (h : Hook) (policy : HookDeletePolicy)
          → OnlyCluster (delete_hook_by_policy kube wait_strategy timeout h policy)
      unfolding delete_hook_by_policy follow
      delete-OnlyCluster h policy w = ground arith

      logs-OnlyCluster :
          (h : Hook) (namespace : Bytes) (policy : HookOutputLogPolicy)
          → OnlyCluster (output_logs_by_policy kube h namespace policy)
      unfolding output_logs_by_policy follow
      logs-OnlyCluster h namespace policy w = ground arith

      delete-Holds :
          (h : Hook) (policy : HookDeletePolicy)
          → Holds Inv (delete_hook_by_policy kube wait_strategy timeout h policy)
      delete-Holds h policy =
          OnlyCluster-Holds (delete_hook_by_policy kube wait_strategy timeout h policy)
            (delete-OnlyCluster h policy)

      logs-Holds :
          (h : Hook) (namespace : Bytes) (policy : HookOutputLogPolicy)
          → Holds Inv (output_logs_by_policy kube h namespace policy)
      logs-Holds h namespace policy =
          OnlyCluster-Holds (output_logs_by_policy kube h namespace policy)
            (logs-OnlyCluster h namespace policy)

      module _ (drv : Driver D) where
        pub with_hook-Holds :
            (i : ℕ) (f : Hook → Step (World K D) HookError (Unit {0}))
            → ((h : Hook) → Holds Inv (f h))
            → Holds Inv (with_hook i f)
        with_hook-Holds i f k w inv = elim (Option-cases (get_elem? w.rl.hooks i)) [
          | inl none_there ↦ rw (none_there, with_hook) inv
          | inr (h, there) ↦ rw (there, with_hook) (k h w inv)
        ]

        deletes-Holds :
            (is : List ℕ) (policy : HookDeletePolicy)
            → Holds Inv (delete_hooks_by_policy kube drv wait_strategy timeout is policy)
        unfolding delete_hooks_by_policy
        deletes-Holds is policy =
            Holds-each Inv _ (λ i. with_hook-Holds i _ (λ h. delete-Holds h policy)) is

        clean_up_hook-Holds :
            (h : Hook) → Holds Inv (clean_up_hook kube drv wait_strategy timeout h)
        unfolding clean_up_hook follow
        clean_up_hook-Holds h w i =
            delete-Holds h hook_succeeded _
              (logs-Holds h w.rl.namespace hook_output_on_succeeded w i)

        pub clean_up-Holds : (is : List ℕ) → Holds Inv (clean_up kube drv wait_strategy timeout is)
        unfolding clean_up
        clean_up-Holds is =
            Holds-each Inv _ (λ i. with_hook-Holds i _ clean_up_hook-Holds) (reverse is)

        module _ (recorded : Holds {E = HookError} Inv (record_release drv)) (i : ℕ)
            (stays : Stays Inv i) where
          complete-Holds : Holds Inv (complete kube drv wait_strategy timeout i)
          unfolding follow
          complete-Holds w inv = stays _ (λ h. refl) w inv

          created-Holds :
              (hook : HookEvent) (h : Hook) (e : Option Error)
              → Holds Inv (create_hook_result kube drv wait_strategy timeout hook i h e)
          unfolding create_hook_result follow
          created-Holds hook h none w inv = inv
          created-Holds hook h (some e) w inv =
              stays (set_phase failed) (λ h. refl) _ (stays _ (λ h. refl) w inv)

          watched-Holds :
              (earlier : List ℕ) (h : Hook) (e : Option Error)
              → Holds Inv (watched kube drv wait_strategy timeout earlier i h e)
          unfolding watched follow
          watched-Holds earlier h none w inv = stays _ (λ h. refl) w inv
          watched-Holds earlier h (some e) w inv =
              Holds->>= Inv
                (delete_hooks_by_policy kube drv wait_strategy timeout earlier hook_succeeded)
                (λ _. fail (plain e)) (deletes-Holds earlier hook_succeeded) (λ _ _ inv. inv) _
                (delete-Holds h hook_failed _
                  (logs-Holds h w.rl.namespace hook_output_on_failed _ (stays _ (λ h. refl) w inv)))

          pub run-Holds :
              (hook : HookEvent) (earlier : List ℕ) (h : Hook)
              → Holds Inv (run_hook kube drv wait_strategy timeout hook earlier i h)
          unfolding run_hook
          run-Holds hook earlier h =
              Holds->>= Inv _ _ (delete-Holds h hook_before_hook_creation) (λ _.
                Holds->>= Inv _ _
                  (attempt-Holds (unable_to_build hook h.path) (kube.build h.manifest true))
                  (λ resources.
                    Holds->>= Inv (gets (λ w. kube.now w.cluster)) _ (λ w inv. inv)
                      (λ t.
                        Holds->>= Inv (change_hook i (start_at t)) _
                          (stays (start_at t) (λ h. refl))
                          (λ _. Holds->>= Inv (record_release drv) _ recorded (λ _.
                            Holds->>= Inv (change_hook i (set_phase unknown)) _
                              (stays (set_phase unknown) (λ h. refl))
                              (λ _.
                                Holds->>= Inv (observe (kube.create resources)) _
                                  (observe-Holds (kube.create resources))
                                  (λ e. Holds->>= Inv _ _ (created-Holds hook h e) (λ _.
                                    Holds->>= Inv _ _
                                      (attempt-Holds unable_to_get_waiter
                                        (kube.get_waiter wait_strategy))
                                      (λ waiter.
                                        Holds->>= Inv
                                          (observe
                                            (kube.watch_until_ready waiter resources timeout))
                                          _
                                          (observe-Holds
                                            (kube.watch_until_ready waiter resources timeout))
                                          (λ outcome.
                                            Holds->>= Inv _ _ complete-Holds
                                              (λ _. watched-Holds earlier h outcome)))))))))))

        module _ (recorded : Holds {E = HookError} Inv (record_release drv)) where
          pub run_hooks-Holds :
              (hook : HookEvent) (earlier is : List ℕ)
              → All (Stays Inv) is
              → Holds Inv (run_hooks kube drv wait_strategy timeout hook earlier is)
          unfolding run_hooks
          run_hooks-Holds hook earlier [] stays = λ w inv. inv
          run_hooks-Holds hook earlier (i ∷ is) (stays, rest) =
              Holds->>= Inv (change_hook i hook_set_delete_policy) _
                (stays hook_set_delete_policy set_delete_policy-IsRunChange)
                (λ _.
                  Holds->>= Inv _ _
                    (with_hook-Holds i _ (λ h. run-Holds recorded i stays hook earlier h))
                    (λ _. run_hooks-Holds hook (earlier ++ i ∷ []) is rest))

          All-Stays : ((i : ℕ) → Stays Inv i) → (is : List ℕ) → All (Stays Inv) is
          All-Stays stays [] = tt
          All-Stays stays (i ∷ is) = (stays i, All-Stays stays is)

          -- Running the hooks of an event breaks nothing that these changes do not break.
          pub exec_hook-Holds :
              (hook : HookEvent)
              → ((i : ℕ) → Stays Inv i)
              → Holds Inv (exec_hook kube drv wait_strategy timeout hook)
          unfolding exec_hook
          exec_hook-Holds hook stays =
              Holds->>= Inv (gets (λ w. executing hook w.rl.hooks)) _ (λ w inv. inv)
                (λ is.
                  Holds->>= Inv _ _ (run_hooks-Holds hook [] is (All-Stays stays is))
                    (λ _. clean_up-Holds is))

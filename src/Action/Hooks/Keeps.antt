-- ===== src/Action/Hooks/Keeps.antt =====
-- What running hooks leaves as it is in the release.
use aws_ecommerce_k8s.Base.{ℕ, ◌≡◌, refl, ◌∙◌, List, map, modify_at, All, [], ◌∷◌}
use aws_ecommerce_k8s.Base.Bytes.{Bytes}
use aws_ecommerce_k8s.Release.Hook.{HookEvent, Hook}
use aws_ecommerce_k8s.Release.Defs.{Release}
use aws_ecommerce_k8s.Driver.Interface.{Driver}
use aws_ecommerce_k8s.Action.Step.{Step}
use aws_ecommerce_k8s.Action.Kube.{KubeClient}
use aws_ecommerce_k8s.Action.World.{World}
use aws_ecommerce_k8s.Action.Hooks.{HookError}
use aws_ecommerce_k8s.Action.Hooks.Invariant
use aws_ecommerce_k8s.Action.Hooks.Invariant.{
  erased, IsRunChange, with_hook-Holds, run-Holds, run_hooks-Holds, clean_up-Holds,
}
use aws_ecommerce_k8s.Action.Hooks.Exec.{with_hook, run_hook, run_hooks, clean_up}

-- A part of the release that a step leaves as it is.
abbrev pub KeepsOf : {K D A B : Type 0} → (Release → B) → Step (World K D) HookError A → Type 0
KeepsOf {K} {D} part m = (w : World K D) → part (m w).1.rl ≡ part w.rl

abbrev pub erased_release : Release → Release
erased_release rl = record rl { hooks = map erased rl.hooks }

-- A part of the release that a change of the i-th hook leaves as it is.
abbrev pub Stays : {B : Type 0} → (Release → B) → ℕ → Type 0
Stays part i =
    (f : Hook → Hook)
    → IsRunChange f
    → (rl : Release) → part (record rl { hooks = modify_at i f rl.hooks }) ≡ part rl

module _ {K D R P V B : Type 0} (part : Release → B) (kube : KubeClient K R P V)
    (wait_strategy : Bytes) (timeout : ℕ) (drv : Driver D) where
  -- The part is the one that it was at the start.
  abbrev IsPart : B → World K D → Type 0
  IsPart b w = part w.rl ≡ b

  Stays-IsPart : (b : B) (i : ℕ) → Stays part i → Invariant.Stays (IsPart b) i
  Stays-IsPart b i stays f change w e = stays f change w.rl ∙ e

  pub with_hook-KeepsOf :
      (i : ℕ) (f : Hook → Step (World K D) HookError (Unit {0}))
      → ((h : Hook) → KeepsOf part (f h))
      → KeepsOf part (with_hook i f)
  with_hook-KeepsOf i f k w =
      with_hook-Holds (IsPart (part w.rl)) (λ w k e. e) kube wait_strategy timeout drv i f
        (λ h w' e. k h w' ∙ e) w refl

  pub clean_up-KeepsOf : (is : List ℕ) → KeepsOf part (clean_up kube drv wait_strategy timeout is)
  clean_up-KeepsOf is w =
      clean_up-Holds (IsPart (part w.rl)) (λ w k e. e) kube wait_strategy timeout drv is w refl

  pub run-KeepsOf :
      (i : ℕ)
      → Stays part i
      → (hook : HookEvent) (earlier : List ℕ) (h : Hook)
      → KeepsOf {K = K} {D = D} part (run_hook kube drv wait_strategy timeout hook earlier i h)
  run-KeepsOf i stays hook earlier h w =
      run-Holds (IsPart (part w.rl)) (λ w k e. e) kube wait_strategy timeout drv (λ w e. e) i
        (Stays-IsPart (part w.rl) i stays) hook earlier h w refl

  All-Stays : (b : B) (is : List ℕ) → All (Stays part) is → All (Invariant.Stays (IsPart b)) is
  All-Stays b [] stays = tt
  All-Stays b (i ∷ is) (stays, rest) = (Stays-IsPart b i stays, All-Stays b is rest)

  pub run_hooks-KeepsOf :
      (hook : HookEvent) (earlier is : List ℕ)
      → All (Stays part) is
      → KeepsOf {K = K} {D = D} part (run_hooks kube drv wait_strategy timeout hook earlier is)
  run_hooks-KeepsOf hook earlier is stays w =
      run_hooks-Holds (IsPart (part w.rl)) (λ w k e. e) kube wait_strategy timeout drv (λ w e. e)
        hook earlier is (All-Stays (part w.rl) is stays) w refl

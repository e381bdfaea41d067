-- ===== src/Action/Hooks/Frame.antt =====
-- `execHook` leaves alone what is not its business.
use aws_ecommerce_k8s.Base.{
  ℕ, zero, suc, ◌≡◌, refl, ap, false, List, [], ◌∷◌, map, ◌==◌, get_elem?, modify_at, All, arith,
}
use aws_ecommerce_k8s.Base.Bytes.{Bytes}
use aws_ecommerce_k8s.Release.Hook.{HookEvent, Hook}
use aws_ecommerce_k8s.Release.Defs.{Release}
use aws_ecommerce_k8s.Driver.Interface.{Driver}
use aws_ecommerce_k8s.Action.Step.{Keeps->>=, follow}
use aws_ecommerce_k8s.Action.World.{World}
use aws_ecommerce_k8s.Action.Kube.{KubeClient}
use aws_ecommerce_k8s.Action.Hooks.{executing}
use aws_ecommerce_k8s.Action.Hooks.Exec.{run_hooks, clean_up, exec_hook}
use aws_ecommerce_k8s.Action.Hooks.Invariant.{IsRunChange, erased}
use aws_ecommerce_k8s.Action.Hooks.Keeps.{
  Stays, erased_release, run_hooks-KeepsOf, clean_up-KeepsOf,
}

map-modify_at :
    (f : Hook → Hook)
    → IsRunChange f
    → (i : ℕ) (hs : List Hook) → map erased (modify_at i f hs) ≡ map erased hs
unfolding modify_at
map-modify_at f c i [] = refl
map-modify_at f c zero (h ∷ hs) = ap (λ x. x ∷ map erased hs) (c h)
map-modify_at f c (suc i) (h ∷ hs) = ap (λ xs. erased h ∷ xs) (map-modify_at f c i hs)

erased_release-Stays : (i : ℕ) → Stays erased_release i
erased_release-Stays i f c rl = ap (λ hs. record rl { hooks = hs }) (map-modify_at f c i rl.hooks)

pub get_elem?-modify_at :
    (f : Hook → Hook) (i j : ℕ) (hs : List Hook)
    → (i == j) ≡ false
    → get_elem? (modify_at i f hs) j ≡ get_elem? hs j
unfolding get_elem? modify_at
get_elem?-modify_at f i j [] other = refl
get_elem?-modify_at f zero zero (h ∷ hs) other = ground arith
get_elem?-modify_at f zero (suc j) (h ∷ hs) other = refl
get_elem?-modify_at f (suc i) zero (h ∷ hs) other = refl
get_elem?-modify_at f (suc i) (suc j) (h ∷ hs) other = get_elem?-modify_at f i j hs (ground arith)

All-Stays :
    {B : Type 0} (part : Release → B) (is : List ℕ) → ((i : ℕ) → Stays part i) → All (Stays part) is
All-Stays part [] s = tt
All-Stays part (i ∷ is) s = (s i, All-Stays part is s)

All-other :
    (j : ℕ) (is : List ℕ)
    → All (λ i. (i == j) ≡ false) is
    → All (Stays (λ rl. get_elem? rl.hooks j)) is
All-other j [] others = tt
All-other j (i ∷ is) (other, others) =
    (λ f c rl. get_elem?-modify_at f i j rl.hooks other, All-other j is others)

module _ {K D R P V : Type 0} (kube : KubeClient K R P V) (drv : Driver D) (wait_strategy : Bytes)
    (timeout : ℕ) where
  exec_hook-KeepsOf :
      {B : Type 0} (part : Release → B) (hook : HookEvent) (w : World K D)
      → All (Stays part) (executing hook w.rl.hooks)
      → part (exec_hook kube drv wait_strategy timeout hook w).1.rl ≡ part w.rl
  unfolding exec_hook follow
  exec_hook-KeepsOf part hook w stays =
      let is = executing hook w.rl.hooks in
      Keeps->>= (λ w. part w.rl) (run_hooks kube drv wait_strategy timeout hook [] is)
        (λ _. clean_up kube drv wait_strategy timeout is)
        (run_hooks-KeepsOf part kube wait_strategy timeout drv hook [] is stays)
        (λ _. clean_up-KeepsOf part kube wait_strategy timeout drv is) w

  -- Whatever the client and the storage answer, and whether it fails or not, `execHook` changes
  -- nothing of the release but the delete policies and the last runs of its hooks, and nothing at all
  -- of a hook that it does not run.
  pub exec_hook_frame :
      (hook : HookEvent) (w : World K D)
      → let rl = (exec_hook kube drv wait_strategy timeout hook w).1.rl in
        (erased_release rl ≡ erased_release w.rl)
        × ((j : ℕ)
            → All (λ i. (i == j) ≡ false) (executing hook w.rl.hooks)
            → get_elem? rl.hooks j ≡ get_elem? w.rl.hooks j)
  exec_hook_frame hook w = (
    exec_hook-KeepsOf erased_release hook w (All-Stays erased_release _ erased_release-Stays),
    λ j others. exec_hook-KeepsOf (λ rl. get_elem? rl.hooks j) hook w (All-other j _ others),
  )

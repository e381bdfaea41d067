-- ===== src/Tests/Hooks.antt =====
-- Runs of `execHook` on a release with three hooks.
use aws_ecommerce_k8s.Base.{
  ℕ, suc, ◌==◌, ◌≡◌, refl, false, none, some, [], ◌∷◌, keep_if, get_elem?, All,
}
use aws_ecommerce_k8s.Base.Bytes.{Bytes, bytes}
use aws_ecommerce_k8s.Base.Int.{ℤ, pos, negsuc}
use aws_ecommerce_k8s.Base.Sort.{IsSortedBy, sort_by}
use mathlib.Core.List.{Mem}
use aws_ecommerce_k8s.Release.Hook.{HookEvent, pre_install, post_install, Hook, unset, succeeded}
use aws_ecommerce_k8s.Release.Status.{status_deployed}
use aws_ecommerce_k8s.Driver.Errors.{ok}
use aws_ecommerce_k8s.Driver.Memory.{Memory, memory_driver}
use aws_ecommerce_k8s.Action.Step.{done}
use aws_ecommerce_k8s.Action.World.{World}
use aws_ecommerce_k8s.Action.Kube.{KubeClient}
use aws_ecommerce_k8s.Action.Hooks.{executing, executing_hooks, select_from, appended, same_event}
use aws_ecommerce_k8s.Action.Hooks.Exec.{exec_hook}
use aws_ecommerce_k8s.Action.Hooks.Keeps.{erased_release}
use aws_ecommerce_k8s.Action.Hooks.Frame.{exec_hook_frame}
use aws_ecommerce_k8s.Action.Hooks.Order.{IsRun, comes_first, by_place, ties, executing_lem}
use aws_ecommerce_k8s.Action.Hooks.Succeeds.{phase_of, exec_hook_succeeds}
use aws_ecommerce_k8s.Action.Hooks.Reliable.{IsReliable, exec_hook_reliable}
use aws_ecommerce_k8s.Tests.Data.{release, shop, full_store}

abbrev hook_of : Bytes → HookEvent → ℤ → Hook
hook_of name event weight = record {
  name = name;
  kind = bytes "Job";
  path = name;
  manifest = name;
  events = event ∷ [];
  last_run = record { started_at = 0; completed_at = 0; phase = unset };
  weight = weight;
  delete_policies = [];
  output_log_policies = [];
}

abbrev pub migrate : Hook
migrate = hook_of (bytes "migrate") pre_install (pos 5)

abbrev notify : Hook
notify = hook_of (bytes "notify") post_install (pos 0)

abbrev prepare : Hook
prepare = hook_of (bytes "prepare") pre_install (negsuc 0)

-- A cluster that is only a clock, and a client of it that never fails.
abbrev pub steady : KubeClient ℕ Bytes (Unit {0}) (Unit {0})
steady = record {
  build = λ m v k. (ok m, suc k);
  create = λ r k. (none, suc k);
  delete = λ r k. ([], suc k);
  get_waiter = λ s k. (ok tt, k);
  delete_with_propagation = none;
  is_empty = λ r. false;
  parse_head = λ m. ok (record { version = []; kind = []; metadata = none });
  is_reachable = λ k. (none, k);
  update = λ old new force k. ((new, none), suc k);
  wait = λ v r t k. (none, suc k);
  wait_with_jobs = λ v r t k. (none, suc k);
  set_metadata = λ name namespace force r k. (ok r, k);
  watch_until_ready = λ v r t k. (none, suc k);
  wait_for_delete = λ v r t k. (none, suc k);
  now = λ k. k;
  metadata_namespace = λ m. ok [];
  logs = none;
}

steady-IsReliable : IsReliable steady
steady-IsReliable = record {
  objects = λ m. m;
  waiter = tt;
  builds = λ m v k. refl;
  creates = λ r k. refl;
  deletes = λ r k. refl;
  waits = λ s k. refl;
  gets_ready = λ v r t k. refl;
  gets_deleted = λ v r t k. refl;
}

abbrev installing : World ℕ Memory
installing = record {
  cluster = 100;
  releases = full_store;
  rl = record (release shop 3 status_deployed) { hooks = migrate ∷ notify ∷ prepare ∷ [] };
}

abbrev run : World ℕ Memory
run = (exec_hook steady memory_driver (bytes "watcher") 300 pre_install installing).1

-- The lighter hook comes first; the hook of another event is not run.
order : executing pre_install installing.rl.hooks ≡ 2 ∷ 0 ∷ []
unfolding executing executing_hooks select_from appended same_event sort_by
order = refl

executing_example :
    let hooks = migrate ∷ notify ∷ prepare ∷ [] in
    let runs = executing_hooks pre_install hooks in
    All (IsRun pre_install hooks) runs
    × ((i : ℕ) (h : Hook) → IsRun pre_install hooks (i, h) → Mem (i, h) runs)
    × IsSortedBy comes_first runs
    × ((h : Hook) → IsSortedBy by_place (keep_if (ties h) runs))
executing_example = executing_lem pre_install (migrate ∷ notify ∷ prepare ∷ [])

exec_hook_frame_example :
    (erased_release run.rl ≡ erased_release installing.rl)
    × ((j : ℕ)
        → All (λ i. (i == j) ≡ false) (executing pre_install installing.rl.hooks)
        → get_elem? run.rl.hooks j ≡ get_elem? installing.rl.hooks j)
exec_hook_frame_example =
    exec_hook_frame steady memory_driver (bytes "watcher") 300 pre_install installing

exec_hook_reliable_example :
    ((exec_hook steady memory_driver (bytes "watcher") 300 pre_install installing).0 ≡ done tt)
    × All
        (λ r. phase_of (get_elem? run.rl.hooks r.0) ≡ some succeeded)
        (executing_hooks pre_install installing.rl.hooks)
exec_hook_reliable_example =
    exec_hook_reliable steady memory_driver (bytes "watcher") 300 steady-IsReliable pre_install
      installing

ended : (exec_hook steady memory_driver (bytes "watcher") 300 pre_install installing).0 ≡ done tt
ended =
    (exec_hook_reliable steady memory_driver (bytes "watcher") 300 steady-IsReliable pre_install
      installing).0

exec_hook_succeeds_example :
    All
      (λ r. phase_of (get_elem? run.rl.hooks r.0) ≡ some succeeded)
      (executing_hooks pre_install installing.rl.hooks)
exec_hook_succeeds_example =
    exec_hook_succeeds steady memory_driver (bytes "watcher") 300 pre_install installing ended

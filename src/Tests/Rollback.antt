-- ===== src/Tests/Rollback.antt =====
-- A rollback over the in-memory driver.
use aws_ecommerce_k8s.Base.{ℕ, ◌≡◌, refl, true, false, some}
use aws_ecommerce_k8s.Base.Bytes.{Bytes, bytes, str_eq}
use aws_ecommerce_k8s.Base.Int.{ℤ, pos}
use aws_ecommerce_k8s.Base.Regexp.{nullable, derivative, match_string}
use aws_ecommerce_k8s.Chart.Names.{validate_release_name}
use aws_ecommerce_k8s.Release.Defs.{Release}
use aws_ecommerce_k8s.Action.Hooks.{executing, executing_hooks, select_from}
use aws_ecommerce_k8s.Action.Hooks.Exec.{exec_hook, run_hooks, clean_up}
use aws_ecommerce_k8s.Base.Assoc.{lookup}
use aws_ecommerce_k8s.Driver.Memory.{Memory, memory_driver, new_memory, records_of, releases_in}
use aws_ecommerce_k8s.Driver.History.{IsHistoryDriver}
use aws_ecommerce_k8s.Driver.Memory.Spec.{view, find}
use aws_ecommerce_k8s.Driver.Memory.Valid.{new_memory-IsValid}
use aws_ecommerce_k8s.Driver.Memory.History.{
  IsSound, revision_at, create-IsSound, memory-IsHistoryDriver,
}
use aws_ecommerce_k8s.Storage
use aws_ecommerce_k8s.Action.Step.{Ends, done, follow, map_error, each}
use aws_ecommerce_k8s.Action.World.{World}
use aws_ecommerce_k8s.Action.Rollback.{
  Rollback, run, prepare_rollback, perform_rollback, update_cluster, finish_rollback, update_result,
  wait_result, supersede, deployed_or_none, version_exists, target_release,
}
use aws_ecommerce_k8s.Action.Rollback.Run.{RolledBack, run_rolls_back}
use aws_ecommerce_k8s.Tests.Data.{shop, first, second, one, two, full_store, runs}
use aws_ecommerce_k8s.Action.Rollback.DryRun.{dry_run_lem}
use aws_ecommerce_k8s.Tests.Hooks.{steady}

abbrev pub home : Bytes
home = bytes "default"

nothing :
    (v : ℤ) (rls : Release) → revision_at shop home v new_memory ≡ some rls → rls.namespace ≡ home
unfolding view find records_of releases_in lookup
nothing v rls there = cc

new-IsSound : IsSound shop home new_memory
new-IsSound = record {
  valid = new_memory-IsValid;
  here = refl;
  bound = unfold str_eq in refl;
  owned = λ v rls there. nothing v rls there;
}

pub two-IsSound : IsSound shop home two
two-IsSound =
    create-IsSound shop home one
      (create-IsSound shop home new_memory new-IsSound first (refl, refl)) second (refl, refl)

-- `helm rollback shop`
abbrev back : Rollback
back = record {
  version = pos 0;
  timeout = 300;
  wait_strategy = bytes "watcher";
  wait_for_jobs = false;
  disable_hooks = false;
  dry_run = false;
  force = false;
  cleanup_on_fail = false;
  max_history = pos 10;
}

abbrev pub before : World ℕ Memory
before = record { cluster = 100; releases = full_store; rl = second }

abbrev after : World ℕ Memory
after = (run steady memory_driver back shop before).1

succeeds : (run steady memory_driver back shop before).0 ≡ done tt
unfolding run follow validate_release_name nullable derivative match_string Storage.last
    Storage.newest_or Storage.history Storage.get Storage.create Storage.create_with
    Storage.create_pruned Storage.create_driver Storage.remove_least_recent Storage.prune_history
    Storage.update Storage.deployed_all Storage.deployed_all_result perform_rollback update_cluster
    finish_rollback update_result wait_result supersede deployed_or_none map_error exec_hook
    run_hooks clean_up executing executing_hooks select_from each runs version_exists target_release
    prepare_rollback
succeeds = refl

run_rolls_back_example :
    Ends
      (RolledBack steady memory_driver back shop home
        (IsSound shop home)
        (revision_at shop home)
        (memory-IsHistoryDriver shop home)
        before
        two-IsSound
        refl)
      (run steady memory_driver back shop before)
run_rolls_back_example =
    run_rolls_back steady memory_driver back shop home (IsSound shop home) (revision_at shop home)
      (memory-IsHistoryDriver shop home) before two-IsSound refl

dry_run_example :
    ((run steady memory_driver (record back { dry_run = true }) shop before).1.cluster ≡ 100)
    × ((run steady memory_driver (record back { dry_run = true }) shop before).1.releases.driver
        ≡ two)
dry_run_example = dry_run_lem steady memory_driver (record back { dry_run = true }) shop before refl

memory-IsHistoryDriver_example :
    IsHistoryDriver memory_driver shop home (IsSound shop home) (revision_at shop home)
memory-IsHistoryDriver_example = memory-IsHistoryDriver shop home

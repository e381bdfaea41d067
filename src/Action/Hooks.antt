-- ===== src/Action/Hooks.antt =====
-- hooks.go of pkg/action: which hooks of a release an event runs, in which order, and their policies.
pub mod Calls
pub mod Exec
pub mod Invariant
pub mod Keeps
pub mod Frame
pub mod Order
pub mod Succeeds
pub mod Reliable
use mathlib.Core.List.{reverse}
use aws_ecommerce_k8s.Base.{
  ℕ, suc, Bool, true, false, not, Option, none, some, List, [], ◌∷◌, ◌++◌, map, if◌then◌else◌,
  get_elem?, modify_at,
}
use aws_ecommerce_k8s.Base.Bytes.{Bytes, bytes, str_eq, str_lt, slice_contains}
use aws_ecommerce_k8s.Base.Int.{lt_int, eq_int, pos}
use aws_ecommerce_k8s.Base.Sort.{sort_by}
use aws_ecommerce_k8s.Release.Hook.{
  HookEvent, event_name, HookDeletePolicy, HookOutputLogPolicy, hook_succeeded, hook_failed,
  hook_before_hook_creation, hook_output_on_succeeded, hook_output_on_failed, HookPhase, unknown,
  running, succeeded, failed, HookExecution, Hook,
}
use aws_ecommerce_k8s.Release.Defs.{Release}
use aws_ecommerce_k8s.Driver.Errors.{Error, Result, ok, err}
use aws_ecommerce_k8s.Driver.Interface.{Driver}
use aws_ecommerce_k8s.Storage
use aws_ecommerce_k8s.Storage.{Storage}
use aws_ecommerce_k8s.Action.Step.{
  Outcome, done, Step, ◌>>=◌, ◌>>◌, pure, fail, gets, modify, quietly, each,
}
use aws_ecommerce_k8s.Action.Kube.{KubeClient, LogsClient, ListOptions}

-- The errors, by what they wrap; `joined` is `joinErrors`.
pub data HookError : Type 0 where
  unable_to_build unable_to_create : HookEvent → Bytes → Error → HookError
  unable_to_build_for_deleting unable_to_parse_namespace : Bytes → Error → HookError
  unable_to_get_waiter plain : Error → HookError
  joined : List Error → HookError

unfoldable pub same_event : HookEvent → HookEvent → Bool
unfolding str_eq event_name
same_event e hook = str_eq (event_name e) (event_name hook)

-- `hookByWeight`
abbrev pub by_weight : Hook → Hook → Bool
by_weight a b = if eq_int a.weight b.weight then str_lt a.name b.name else lt_int a.weight b.weight

-- The inner loop over the events of a hook: it appends the hook for each one that is the event.
unfoldable pub appended : HookEvent → ℕ → Hook → List HookEvent → List (ℕ × Hook)
appended hook i h [] = []
appended hook i h (e ∷ es) =
    let rest = appended hook i h es in if same_event e hook then (i, h) ∷ rest else rest

unfoldable pub select_from : HookEvent → ℕ → List Hook → List (ℕ × Hook)
select_from hook i [] = []
select_from hook i (h ∷ hs) = appended hook i h h.events ++ select_from hook (suc i) hs

-- `executingHooks` after the stable sort, with what the pointers point at.
unfoldable pub executing_hooks : HookEvent → List Hook → List (ℕ × Hook)
unfolding select_from sort_by
executing_hooks hook hooks = sort_by (λ a b. by_weight a.1 b.1) (select_from hook 0 hooks)

unfoldable pub executing : HookEvent → List Hook → List ℕ
executing hook hooks = map (λ ih. ih.0) (executing_hooks hook hooks)

abbrev pub with_policies : List HookDeletePolicy → Hook → Hook
with_policies [] h = record h { delete_policies = hook_before_hook_creation ∷ [] }
with_policies (p ∷ ps) h = h

-- `hookSetDeletePolicy`: the default is before-hook-creation.
unfoldable pub hook_set_delete_policy : Hook → Hook
hook_set_delete_policy h = with_policies h.delete_policies h

unfoldable pub hook_has_delete_policy : Hook → HookDeletePolicy → Bool
unfolding slice_contains
hook_has_delete_policy h policy = slice_contains h.delete_policies policy

unfoldable pub hook_has_output_log_policy : Hook → HookOutputLogPolicy → Bool
unfolding slice_contains
hook_has_output_log_policy h policy = slice_contains h.output_log_policies policy

abbrev pub start_at : ℕ → Hook → Hook
start_at t h = record h { last_run = record { started_at = t; completed_at = 0; phase = running } }

abbrev pub set_phase : HookPhase → Hook → Hook
set_phase p h = record h { last_run = record h.last_run { phase = p } }

abbrev pub complete_at : ℕ → Hook → Hook
complete_at t h = record h { last_run = record h.last_run { completed_at = t } }

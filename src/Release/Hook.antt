-- ===== src/Release/Hook.antt =====
-- hook.go of pkg/release/v1.
use aws_ecommerce_k8s.Base.{ℕ, List}
use aws_ecommerce_k8s.Base.Bytes.{Bytes, bytes}
use aws_ecommerce_k8s.Base.Int.{ℤ}

-- The hook events: Go strings, of which the code makes only these.
pub data HookEvent : Type 0 where
  pre_install post_install pre_delete post_delete pre_upgrade post_upgrade pre_rollback
        post_rollback test :
      HookEvent

-- The string behind an event, which `String()` returns.
unfoldable pub event_name : HookEvent → Bytes
event_name pre_install = bytes "pre-install"
event_name post_install = bytes "post-install"
event_name pre_delete = bytes "pre-delete"
event_name post_delete = bytes "post-delete"
event_name pre_upgrade = bytes "pre-upgrade"
event_name post_upgrade = bytes "post-upgrade"
event_name pre_rollback = bytes "pre-rollback"
event_name post_rollback = bytes "post-rollback"
event_name test = bytes "test"

-- A delete policy and an output log policy are strings taken from an annotation.
abbrev pub HookDeletePolicy : Type 0
HookDeletePolicy = Bytes

abbrev pub HookOutputLogPolicy : Type 0
HookOutputLogPolicy = Bytes

abbrev pub hook_succeeded : HookDeletePolicy
hook_succeeded = bytes "hook-succeeded"

abbrev pub hook_failed : HookDeletePolicy
hook_failed = bytes "hook-failed"

abbrev pub hook_before_hook_creation : HookDeletePolicy
hook_before_hook_creation = bytes "before-hook-creation"

abbrev pub hook_output_on_succeeded : HookOutputLogPolicy
hook_output_on_succeeded = bytes "hook-succeeded"

abbrev pub hook_output_on_failed : HookOutputLogPolicy
hook_output_on_failed = bytes "hook-failed"

pub data HookPhase : Type 0 where
  unset unknown running succeeded failed : HookPhase

-- Times are seconds; the zero time is 0.
pub record HookExecution : Type 0 where
  pub started_at : ℕ
  pub completed_at : ℕ
  pub phase : HookPhase

pub record Hook : Type 0 where
  pub name : Bytes
  pub kind : Bytes
  pub path : Bytes
  pub manifest : Bytes
  pub events : List HookEvent
  pub last_run : HookExecution
  pub weight : ℤ
  pub delete_policies : List HookDeletePolicy
  pub output_log_policies : List HookOutputLogPolicy

-- ===== src/Action/Hooks/Calls.antt =====
-- hooks.go: the calls of the Kubernetes client that delete a hook's resources and output its logs.
use aws_ecommerce_k8s.Base.{ℕ, false, not, Option, none, some, List, [], ◌∷◌, ◌++◌, if◌then◌else◌}
use aws_ecommerce_k8s.Base.Bytes.{Bytes, bytes, str_eq}
use aws_ecommerce_k8s.Release.Hook.{HookDeletePolicy, HookOutputLogPolicy, Hook}
use aws_ecommerce_k8s.Driver.Errors.{Error, Result, ok, err}
use aws_ecommerce_k8s.Action.Step.{Step, ◌>>=◌, ◌>>◌, pure, fail}
use aws_ecommerce_k8s.Action.World.{World, attempt, observe}
use aws_ecommerce_k8s.Action.Kube.{KubeClient, LogsClient, ListOptions}
use aws_ecommerce_k8s.Action.Hooks.{
  HookError, unable_to_build_for_deleting, unable_to_parse_namespace, plain, joined,
  hook_has_delete_policy, hook_has_output_log_policy,
}

module _ {K D : Type 0} where
  -- An error returned as it is.
  abbrev pub raise_plain : Option Error → Step (World K D) HookError (Unit {0})
  raise_plain none = pure tt
  raise_plain (some e) = fail (plain e)

  abbrev raise_joined : List Error → Step (World K D) HookError (Unit {0})
  raise_joined [] = pure tt
  raise_joined (e ∷ es) = fail (joined (e ∷ es))

  module _ {R P V : Type 0} (kube : KubeClient K R P V) (wait_strategy : Bytes) (timeout : ℕ) where
    unfoldable pub delete_resources : Hook → Step (World K D) HookError (Unit {0})
    delete_resources h = do
      resources ← attempt (unable_to_build_for_deleting h.path) (kube.build h.manifest false)
      raise_joined (← observe (kube.delete resources))
      waiter ← attempt plain (kube.get_waiter wait_strategy)
      raise_plain (← observe (kube.wait_for_delete waiter resources timeout))

    -- `deleteHookByPolicy`: custom resource definitions are never deleted.
    unfoldable pub delete_hook_by_policy :
        Hook → HookDeletePolicy → Step (World K D) HookError (Unit {0})
    unfolding delete_resources
    delete_hook_by_policy h policy =
        if str_eq h.kind (bytes "CustomResourceDefinition")
        then pure tt
        else if hook_has_delete_policy h policy
        then delete_resources h
        else pure tt

  module _ {R P V : Type 0} (kube : KubeClient K R P V) where
    -- `deriveNamespace`
    derive_namespace_result : Hook → Bytes → Result Bytes → Step (World K D) HookError Bytes
    derive_namespace_result h namespace (err e) = fail (unable_to_parse_namespace h.path e)
    derive_namespace_result h namespace (ok found) =
        if str_eq found [] then pure namespace else pure found

    -- `outputContainerLogsForListOptions`: a client without the interface for logs outputs none.
    output_logs_of :
        Option (LogsClient K P) → Bytes → ListOptions → Step (World K D) HookError (Unit {0})
    output_logs_of none namespace options = pure tt
    output_logs_of (some logs) namespace options = do
      pods ← attempt plain (logs.get_pod_list namespace options)
      raise_plain (← observe (logs.output_container_logs pods namespace))

    output_kind : Hook → Bytes → Step (World K D) HookError (Unit {0})
    unfolding output_logs_of
    output_kind h namespace =
        if str_eq h.kind (bytes "Job")
        then output_logs_of kube.logs namespace
            (record { label_selector = bytes "job-name=" ++ h.name; field_selector = [] })
        else if str_eq h.kind (bytes "Pod")
        then output_logs_of kube.logs namespace
            (record { label_selector = []; field_selector = bytes "metadata.name=" ++ h.name })
        else pure tt

    unfoldable pub output_logs_by_policy :
        Hook → Bytes → HookOutputLogPolicy → Step (World K D) HookError (Unit {0})
    unfolding derive_namespace_result output_kind
    output_logs_by_policy h release_namespace policy =
        if not (hook_has_output_log_policy h policy) then pure tt else do
          namespace ←
              derive_namespace_result h release_namespace (kube.metadata_namespace h.manifest)
          output_kind h namespace

-- ===== src/Action/Kube.antt =====
-- What pkg/action asks of a Kubernetes client (interface.go of pkg/kube), over the state `K` of the
-- cluster and its clock. `R` is a list of resources, `P` a list of pods and `V` a waiter.
use aws_ecommerce_k8s.Base.{ℕ, Bool, Option, List}
use aws_ecommerce_k8s.Base.Bytes.{Bytes}
use aws_ecommerce_k8s.Release.Kinds.{SimpleHead}
use aws_ecommerce_k8s.Driver.Errors.{Error, Result}

pub record ListOptions : Type 0 where
  pub label_selector : Bytes
  pub field_selector : Bytes

-- `InterfaceLogs`
pub record LogsClient (K P : Type 0) : Type 0 where
  pub get_pod_list : Bytes → ListOptions → K → Result P × K
  pub output_container_logs : P → Bytes → K → Option Error × K

-- `Interface`, the methods of a `Waiter`, and the visit of the resources that sets their metadata for a
-- release (`setMetadataVisitor`). `update` also gives the resources that it created. `now` is `helmtime.Now`, `metadata_namespace` reads
-- the field `metadata.namespace` of a YAML document, and `logs` is there where the client has the
-- interface for logs too, and `delete_with_propagation` where it has the one that deletes by a policy.
-- `is_empty` is `len(resources) == 0`, and `parse_head` reads the head of a YAML document.
pub record KubeClient (K R P V : Type 0) : Type 0 where
  pub build : Bytes → Bool → K → Result R × K
  pub create : R → K → Option Error × K
  pub delete : R → K → List Error × K
  pub get_waiter : Bytes → K → Result V × K
  pub delete_with_propagation : Option (R → Bytes → K → List Error × K)
  pub is_empty : R → Bool
  pub parse_head : Bytes → Result SimpleHead
  pub is_reachable : K → Option Error × K
  pub update : R → R → Bool → K → (R × Option Error) × K
  pub wait : V → R → ℕ → K → Option Error × K
  pub wait_with_jobs : V → R → ℕ → K → Option Error × K
  pub set_metadata : Bytes → Bytes → Bool → R → K → Result R × K
  pub watch_until_ready : V → R → ℕ → K → Option Error × K
  pub wait_for_delete : V → R → ℕ → K → Option Error × K
  pub now : K → ℕ
  pub metadata_namespace : Bytes → Result Bytes
  pub logs : Option (LogsClient K P)

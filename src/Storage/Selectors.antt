-- ===== src/Storage/Selectors.antt =====
-- The label sets by which storage.go queries a driver.
use aws_ecommerce_k8s.Base.{[], ◌∷◌}
use aws_ecommerce_k8s.Base.Bytes.{Bytes, bytes}
use aws_ecommerce_k8s.Base.Assoc.{Assoc}

abbrev pub owned_by_helm : Bytes → Assoc Bytes
owned_by_helm name = (bytes "name", name) ∷ (bytes "owner", bytes "helm") ∷ []

abbrev pub deployed_by_helm : Bytes → Assoc Bytes
deployed_by_helm name =
    (bytes "name", name) ∷ (bytes "owner", bytes "helm") ∷ (bytes "status", bytes "deployed") ∷ []

-- ===== src/Storage/Key.antt =====
-- `makeKey` of storage.go.
pub mod Laws
use aws_ecommerce_k8s.Base.{◌++◌}
use aws_ecommerce_k8s.Base.Bytes.{Bytes, bytes}
use aws_ecommerce_k8s.Base.Int.{ℤ}
use aws_ecommerce_k8s.Base.Decimal.{itoa}

abbrev pub helm_storage_type : Bytes
helm_storage_type = bytes "sh.helm.release.v1"

-- "%s.%s.v%d"
unfoldable pub make_key : Bytes → ℤ → Bytes
unfolding itoa
make_key rlsname version =
    helm_storage_type ++ (bytes "." ++ (rlsname ++ (bytes ".v" ++ itoa version)))

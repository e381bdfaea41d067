-- ===== src/Release/Defs.antt =====
-- release.go and info.go of pkg/release/v1.
use aws_ecommerce_k8s.Base.{ℕ, List}
use aws_ecommerce_k8s.Base.Bytes.{Bytes}
use aws_ecommerce_k8s.Base.Int.{ℤ}
use aws_ecommerce_k8s.Base.Assoc.{Assoc}
use aws_ecommerce_k8s.Release.Status.{Status}
use aws_ecommerce_k8s.Release.Hook.{Hook}

-- `Resources` is left out: it is filled only when a client asks for the live objects.
-- Times are seconds; the zero time is 0.
pub record Info : Type 0 where
  pub first_deployed : ℕ
  pub last_deployed : ℕ
  pub deleted : ℕ
  pub description : Bytes
  pub status : Status
  pub notes : Bytes

-- `chart` and `config` are carried along by the code here and never looked into, so they stand
-- as opaque bytes.
pub record Release : Type 0 where
  pub name : Bytes
  pub info : Info
  pub chart : Bytes
  pub config : Bytes
  pub manifest : Bytes
  pub hooks : List Hook
  pub version : ℤ
  pub namespace : Bytes
  pub labels : Assoc Bytes

unfoldable pub set_status : Release → Status → Bytes → Release
set_status r status msg = record r { info = record r.info { status = status; description = msg } }

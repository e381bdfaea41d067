-- ===== src/Driver/Interface.antt =====
-- The interfaces of driver.go, over the state `D` that a driver keeps. A method that changes the
-- state returns the new one beside its result, which is an error or what the method returns.
use mathlib.Core.Option.{Option}
use aws_ecommerce_k8s.Base.{Bool, List}
use aws_ecommerce_k8s.Base.Bytes.{Bytes}
use aws_ecommerce_k8s.Base.Assoc.{Assoc}
use aws_ecommerce_k8s.Release.Defs.{Release}
use aws_ecommerce_k8s.Driver.Errors.{Error, Result}

pub record Driver (D : Type 0) : Type 0 where
  pub create : Bytes → Release → D → Option Error × D
  pub update : Bytes → Release → D → Option Error × D
  pub delete : Bytes → D → Result Release × D
  pub get : Bytes → D → Result Release
  pub list : (Release → Bool) → D → Result (List Release)
  pub query : Assoc Bytes → D → Result (List Release)
  pub name : Bytes

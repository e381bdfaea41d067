-- ===== src/Storage/Fresh.antt =====
-- `Create` of a revision that is not stored succeeds, also after others were deleted.
use aws_ecommerce_k8s.Base.{
  ◌≡◌, refl, ◌∙◌, false, Option, none, some, List, [], ◌∷◌, is_some, arith, Option-cases, inl, inr,
}
use aws_ecommerce_k8s.Base.Bytes.{Bytes}
use aws_ecommerce_k8s.Base.Int.{ℤ}
use aws_ecommerce_k8s.Release.Defs.{Release}
use aws_ecommerce_k8s.Driver.Records.{Record}
use aws_ecommerce_k8s.Driver.Memory.{Memory, memory_driver, records_of, namespace_of}
use aws_ecommerce_k8s.Driver.Memory.Valid.{IsValid, records_of-IsHistory}
use aws_ecommerce_k8s.Driver.Memory.Spec.{held, find, view}
use aws_ecommerce_k8s.Driver.Memory.Query.{revisions}
use aws_ecommerce_k8s.Driver.Memory.Refine.{create-refines}
use aws_ecommerce_k8s.Storage.{Storage, create_driver}
use aws_ecommerce_k8s.Storage.Versions.{has_version, without, get-has_version}
use aws_ecommerce_k8s.Storage.Bound.{without_all}

fresh-without :
    (v w : ℤ) (rs : List Release) → has_version w rs ≡ false → has_version w (without v rs) ≡ false
fresh-without v w [] h = refl
fresh-without v w (r ∷ rs) h = ground (arith, fresh-without v w rs)

pub fresh-without_all :
    (del rs : List Release) (w : ℤ)
    → has_version w rs ≡ false
    → has_version w (without_all del rs) ≡ false
fresh-without_all [] rs w h = h
fresh-without_all (d ∷ del) rs w h =
    fresh-without_all del (without d.version rs) w (fresh-without d.version w rs h)

is_some-held : (o : Option Record) → is_some (held o) ≡ is_some o
is_some-held none = refl
is_some-held (some r) = refl

view-has_version :
    (ns name : Bytes) (v : ℤ) (mem : Memory)
    → IsValid mem
    → is_some (view ns name v mem) ≡ has_version v (revisions ns name mem)
unfolding view find revisions
view-has_version ns name v mem valid = elim (Option-cases (records_of ns name mem)) [
  | inl missing ↦ rw missing refl
  | inr (recs, there) ↦ rw there (
      is_some-held _
      ∙ get-has_version name recs v (records_of-IsHistory ns mem valid name recs there).own)
]

pub create_driver-fresh :
    (rls : Release) (t : Storage Memory)
    → IsValid t.driver
    → has_version rls.version (revisions (namespace_of rls) rls.name t.driver) ≡ false
    → (create_driver memory_driver rls t).0 ≡ none
unfolding create_driver
create_driver-fresh rls t valid fresh =
    let known = view-has_version (namespace_of rls) rls.name rls.version t.driver valid in
    (create-refines rls t.driver valid).0 ∙ rw (known ∙ fresh) refl

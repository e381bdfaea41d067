-- ===== src/Release/Filter.antt =====
-- filter.go of pkg/release/util.
use aws_ecommerce_k8s.Base.{
  Bool, true, false, Option, none, some, List, [], ◌∷◌, not, if◌then◌else◌,
}
use aws_ecommerce_k8s.Base.Bytes.{str_eq}
use aws_ecommerce_k8s.Release.Status.{Status}
use aws_ecommerce_k8s.Release.Defs.{Release}

-- A filter is given a pointer that may be nil.
abbrev pub FilterFunc : Type 0
FilterFunc = Option Release → Bool

unfoldable pub check : FilterFunc → Option Release → Bool
check fn none = false
check fn (some rls) = fn (some rls)

unfoldable pub filter : FilterFunc → List (Option Release) → List (Option Release)
unfolding check
filter fn [] = []
filter fn (rel ∷ rels) = let rets = filter fn rels in if check fn rel then rel ∷ rets else rets

unfoldable pub any : List FilterFunc → FilterFunc
any [] rls = false
any (f ∷ filters) rls = let rest = any filters rls in if f rls then true else rest

unfoldable pub all : List FilterFunc → FilterFunc
all [] rls = true
all (f ∷ filters) rls = let rest = all filters rls in if not (f rls) then false else rest

unfoldable pub status_filter : Status → FilterFunc
unfolding str_eq
status_filter status none = true
status_filter status (some rls) = str_eq rls.info.status status

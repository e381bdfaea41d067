-- ===== src/Storage/Prune.antt =====
-- The choice of `removeLeastRecent`: which revisions to delete.
pub mod Laws
use aws_ecommerce_k8s.Base.{
  ℕ, ◌-◌, suc, Bool, true, false, not, Option, none, some, List, [], ◌∷◌, if◌then◌else◌, length,
  ◌==◌,
}
use aws_ecommerce_k8s.Base.Int.{eq_int}
use aws_ecommerce_k8s.Release.Defs.{Release}

-- Whether the loop appends the release: not if it is the last deployed one.
abbrev pub may_delete : Option Release → Release → Bool
may_delete none rel = true
may_delete (some last_deployed) rel = not (eq_int rel.version last_deployed.version)

-- The loop, at `kept` releases of the history that are not marked: it stops once `maximum` are left.
unfoldable pub mark : ℕ → Option Release → ℕ → List Release → List Release
mark maximum last_deployed kept [] = []
mark maximum last_deployed kept (rel ∷ rels) =
    let marked = rel ∷ mark maximum last_deployed (kept - 1) rels in
    let passed = mark maximum last_deployed kept rels in
    if kept == maximum then [] else if may_delete last_deployed rel then marked else passed

unfoldable pub to_delete : ℕ → List Release → Option Release → List Release
unfolding mark
to_delete maximum h last_deployed = mark maximum last_deployed (length h) h

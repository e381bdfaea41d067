-- ===== src/Storage/Prune/Laws.antt =====
-- Which revisions `removeLeastRecent` marks.
use aws_ecommerce_k8s.Base.{
  ℕ, zero, suc, ◌-◌, ◌≤◌, ◌≡◌, refl, true, false, Option, List, [], ◌∷◌, length, take, keep_if,
  arith, Bool-cases, inl, inr, ◌==◌,
}
use aws_ecommerce_k8s.Release.Defs.{Release}
use aws_ecommerce_k8s.Storage.Prune.{may_delete, mark, to_delete}

take-nil : (n : ℕ) → [] ≡ take {A = Release} n []
take-nil zero = refl
take-nil (suc n) = refl

stops : (maximum kept : ℕ) → (kept == maximum) ≡ true → kept - maximum ≡ 0
stops maximum kept full = ground arith

goes_on :
    (maximum kept : ℕ)
    → maximum ≤ kept
    → (kept == maximum) ≡ false
    → kept - maximum ≡ suc (kept - 1 - maximum)
goes_on maximum kept le room = ground arith

mark-take :
    (maximum : ℕ) (last_deployed : Option Release) (kept : ℕ) (h : List Release)
    → maximum ≤ kept
    → mark maximum last_deployed kept h
      ≡ take (kept - maximum) (keep_if (may_delete last_deployed) h)
unfolding mark keep_if
mark-take maximum last_deployed kept [] le = take-nil (kept - maximum)
mark-take maximum last_deployed kept (rel ∷ rels) le = elim (Bool-cases (kept == maximum)) [
  | inl full ↦ rw full (rw (stops maximum kept full))
  | inr room ↦ elim (Bool-cases (may_delete last_deployed rel)) [
    | inl marked ↦ rw (goes_on maximum kept le room) (
        ground
          (arith, marked, room, mark-take maximum last_deployed (kept - 1) rels (ground arith)))
    | inr passed ↦ ground (arith, passed, room, mark-take maximum last_deployed kept rels le)
  ]
]

-- When the history is longer than `maximum`, the releases marked for deletion are the oldest ones
-- that may be deleted (any but the last deployed revision), as many as the history is too long by,
-- or all of them if they are fewer.
pub to_delete-oldest :
    (maximum : ℕ) (h : List Release) (last_deployed : Option Release)
    → maximum ≤ length h
    → to_delete maximum h last_deployed
      ≡ take (length h - maximum) (keep_if (may_delete last_deployed) h)
unfolding to_delete
to_delete-oldest maximum h last_deployed = mark-take maximum last_deployed (length h) h

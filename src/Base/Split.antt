-- ===== src/Base/Split.antt =====
-- `strings.Split` and `strings.Join` at a separator of one byte.
use aws_ecommerce_k8s.Base.Lists.{All}
use mathlib.Core.List.{List, [], ◌∷◌, ◌++◌}
use mathlib.Core.Path.{◌≡◌, refl, ap, ◌∙◌}
use mathlib.Core.Bool.{false}
use mathlib.Core.Logic.{inl, inr}
use native.Mathlib.Omega.{arith}
use Prim.Native.Nat.{ℕ}
use aws_ecommerce_k8s.Base.Tests.{Bool-cases, ◌==◌, if◌then◌else◌}
use aws_ecommerce_k8s.Base.Bytes.{Bytes, split, join, onto_head}

module _ (d : ℕ) where
  -- The byte does not occur.
  abbrev pub IsFree : Bytes → Type 0
  IsFree = All (λ c. (c == d) ≡ false)

  split-cons :
      (c : ℕ) (s : Bytes)
      → split (c ∷ s) (d ∷ [])
        ≡ (if c == d then [] ∷ split s (d ∷ []) else onto_head c (split s (d ∷ [])))
  unfolding split
  split-cons c s = ground arith

  onto_head-IsFree :
      (c : ℕ) (ps : List Bytes) → (c == d) ≡ false → All IsFree ps → All IsFree (onto_head c ps)
  onto_head-IsFree c [] h ps = ((h, tt), tt)
  onto_head-IsFree c (p ∷ ps) h (free, rest) = ((h, free), rest)

  pub split-IsFree : (s : Bytes) → All IsFree (split s (d ∷ []))
  split-IsFree [] = unfold split in (tt, tt)
  split-IsFree (c ∷ s) = elim (Bool-cases (c == d)) [
    | inl same ↦ rw (split-cons c s) (rw same (tt, split-IsFree s))
    | inr other ↦ rw (split-cons c s) (rw other (onto_head-IsFree c _ other (split-IsFree s)))
  ]

  split-free : (p : Bytes) → IsFree p → split p (d ∷ []) ≡ p ∷ []
  split-free [] h = unfold split in refl
  split-free (c ∷ p) h = split-cons c p ∙ rw (h.0) (rw (split-free p h.1) (refl))

  split-piece : (p s : Bytes) → IsFree p → split (p ++ (d ∷ s)) (d ∷ []) ≡ p ∷ split s (d ∷ [])
  split-piece [] s h = split-cons d s ∙ ground arith
  split-piece (c ∷ p) s h = split-cons c (p ++ (d ∷ s)) ∙ rw (h.0) (rw (split-piece p s h.1) (refl))

  pub split-join :
      (p : Bytes) (ps : List Bytes)
      → All IsFree (p ∷ ps)
      → split (join (p ∷ ps) (d ∷ [])) (d ∷ []) ≡ p ∷ ps
  unfolding join
  split-join p [] h = split-free p h.0
  split-join p (q ∷ ps) h =
      split-piece p (join (q ∷ ps) (d ∷ [])) h.0 ∙ ap (λ l. p ∷ l) (split-join q ps h.1)

-- ===== src/Base/Assoc.antt =====
-- Go maps with string keys, as association lists. A new key goes to the end of the list; the
-- order of the list stands for the order in which `range` meets the entries.
use mathlib.Core.Path.{◌≡◌, refl, sym, subst, subst₂}
use mathlib.Core.Logic.{inl, inr}
use mathlib.Core.Option.{Option, none, some}
use mathlib.Core.List.{List, [], ◌∷◌}
use native.Mathlib.Omega.{arith}
use aws_ecommerce_k8s.Base.Tests.{if◌then◌else◌, Bool-cases}
use aws_ecommerce_k8s.Base.Bytes.{Bytes, str_eq, str_eq_iff}

abbrev pub Assoc {ℓ} : Type ℓ → Type ℓ
Assoc V = List (Bytes × V)

module _ {ℓ} {V : Type ℓ} where
  -- `v, ok := m[k]`
  unfoldable pub lookup : Bytes → Assoc V → Option V
  lookup k [] = none
  lookup k ((j, v) ∷ m) = if str_eq j k then some v else lookup k m

  -- `m[k] = v`
  unfoldable pub insert : Bytes → V → Assoc V → Assoc V
  insert k v [] = (k, v) ∷ []
  insert k v ((j, w) ∷ m) = if str_eq j k then (j, v) ∷ m else (j, w) ∷ insert k v m

  -- `delete(m, k)`
  unfoldable pub remove : Bytes → Assoc V → Assoc V
  remove k [] = []
  remove k ((j, w) ∷ m) = let rest = remove k m in if str_eq j k then rest else (j, w) ∷ rest

  pub lookup-insert :
      (k j : Bytes) (v : V) (m : Assoc V)
      → lookup j (insert k v m) ≡ (if str_eq k j then some v else lookup j m)
  unfolding lookup insert
  lookup-insert k j v [] = refl
  lookup-insert k j v ((i, w) ∷ m) =
      ground (arith, str_eq_iff k j, str_eq_iff i k, str_eq_iff i j, lookup-insert k j v m)

  pub lookup-remove :
      (k j : Bytes) (m : Assoc V)
      → lookup j (remove k m) ≡ (if str_eq k j then none else lookup j m)
  unfolding lookup remove
  lookup-remove k j [] = ground arith
  lookup-remove k j ((i, w) ∷ m) =
      ground (arith, str_eq_iff k j, str_eq_iff i k, str_eq_iff i j, lookup-remove k j m)

module _ {ℓ} {V : Type ℓ} where
  -- No two entries have one key, as in every Go map.
  abbrev pub IsMap : Assoc V → Type ℓ
  IsMap [] = Unit
  IsMap ((j, v) ∷ m) = (lookup j m ≡ none) × IsMap m

  pub IsMap-insert : (k : Bytes) (v : V) (m : Assoc V) → IsMap m → IsMap (insert k v m)
  unfolding insert
  IsMap-insert k v [] h = (unfold lookup in refl, tt)
  IsMap-insert k v ((j, w) ∷ m) h = elim (Bool-cases (str_eq j k)) [
    | inl same ↦ rw same h
    | inr other ↦ rw other (
      rw (lookup-insert k j v m) (ground (arith, h.0, str_eq_iff j k, str_eq_iff k j)),
      IsMap-insert k v m h.1,
    )
  ]

module _ {ℓ κ} {V : Type ℓ} (P : Bytes → V → Type κ) where
  -- A property of every entry.
  abbrev pub Every : Assoc V → Type κ
  Every [] = Unit
  Every ((j, v) ∷ m) = P j v × Every m

  pub Every-insert : (k : Bytes) (v : V) (m : Assoc V) → P k v → Every m → Every (insert k v m)
  unfolding insert
  Every-insert k v [] p h = (p, tt)
  Every-insert k v ((j, w) ∷ m) p h = elim (Bool-cases (str_eq j k)) [
    | inl same ↦ rw same (subst (λ i. P i v) (sym ((str_eq_iff j k).0 same)) p, h.1)
    | inr other ↦ rw other (h.0, Every-insert k v m p h.1)
  ]

  pub Every-lookup : (k : Bytes) (v : V) (m : Assoc V) → Every m → lookup k m ≡ some v → P k v
  unfolding lookup
  Every-lookup k v [] h e = cc
  Every-lookup k v ((j, w) ∷ m) h e = elim (Bool-cases (str_eq j k)) [
    | inl same ↦
        let found : some w ≡ some v = rw same at e in
        subst₂ P ((str_eq_iff j k).0 same) (cc found) h.0
    | inr other ↦ Every-lookup k v m h.1 (rw other at e)
  ]

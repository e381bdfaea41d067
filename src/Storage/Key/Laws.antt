-- ===== src/Storage/Key/Laws.antt =====
-- What the in-memory driver reads back from a key of `makeKey`.
use aws_ecommerce_k8s.Base.{
  ℕ, zero, suc, ◌≤◌, ◌≡◌, refl, ap, true, false, none, some, List, [], ◌∷◌, ◌++◌, inl, inr, length,
  All, arith, Bool-cases,
}
use aws_ecommerce_k8s.Base.Bytes.{
  Bytes, bytes, str_eq, str_eq_iff, contains, split, split_skip, trim_prefix-append,
}
use aws_ecommerce_k8s.Base.Int.{ℤ, eq_int, eq_int→eq}
use aws_ecommerce_k8s.Base.Decimal.{itoa, IsInt64, atoi-itoa, itoa_inj, itoa-All, is_digit_or_minus}
use aws_ecommerce_k8s.Driver.Memory.{key_name, two_elems}
use aws_ecommerce_k8s.Storage.Key.{make_key}

abbrev dot_v : Bytes
dot_v = bytes ".v"

-- Text with no separator in it is one piece.
split_plain : (s : Bytes) → All (λ c. is_digit_or_minus c ≡ true) s → split s dot_v ≡ s ∷ []
unfolding split
split_plain [] h = refl
split_plain (c ∷ s) h = ground (arith, split_plain s h.1)

split_name :
    (name ver : Bytes)
    → contains name dot_v ≡ false
    → split (name ++ (dot_v ++ ver)) dot_v ≡ name ∷ split ver dot_v
unfolding split contains
split_name [] ver h = refl
split_name (c ∷ []) ver h = ground arith
split_name (c ∷ d ∷ name) ver h = ground (arith, split_name (d ∷ name) ver)

-- The key that `makeKey` builds from a name with no ".v" in it and a 64-bit revision is read back as
-- that name.
pub key_name-make_key :
    (name : Bytes) (version : ℤ)
    → contains name dot_v ≡ false
    → IsInt64 version
    → key_name (make_key name version) ≡ some name
unfolding key_name make_key
key_name-make_key name version plain fits =
    rw (trim_prefix-append (bytes "sh.helm.release.v1.") (name ++ (dot_v ++ itoa version))) (
      rw (split_name name (itoa version) plain) (
        rw (split_plain (itoa version) (itoa-All version))
          (rw (atoi-itoa version fits, two_elems))))

pieces_pos : (skip : ℕ) (s : Bytes) → 1 ≤ length (split_skip dot_v skip s)
unfolding split_skip
pieces_pos skip [] = omega arith
pieces_pos (suc skip) (c ∷ s) = pieces_pos skip s
pieces_pos zero (c ∷ s) = ground (arith, pieces_pos 1 s, pieces_pos 0 s)

pieces-before : (s ver : Bytes) → 2 ≤ length (split (s ++ (dot_v ++ ver)) dot_v)
unfolding split
pieces-before [] ver = omega (arith, pieces_pos 0 ver)
pieces-before (c ∷ []) ver = ground (arith, pieces-before [] ver, pieces_pos 0 ver)
pieces-before (c ∷ d ∷ s) ver =
    ground (arith, pieces-before (d ∷ s) ver, pieces_pos 0 (s ++ (dot_v ++ ver)))

pieces-more :
    (s ver : Bytes) → contains s dot_v ≡ true → 3 ≤ length (split (s ++ (dot_v ++ ver)) dot_v)
unfolding split contains
pieces-more [] ver h = cc
pieces-more (c ∷ []) ver h = ground arith
pieces-more (c ∷ d ∷ s) ver h = ground (arith, pieces-more (d ∷ s) ver, pieces-before s ver)

two_elems_long : (ps : List Bytes) → 3 ≤ length ps → two_elems ps ≡ none
unfolding two_elems
two_elems_long [] h = refl
two_elems_long (a ∷ []) h = refl
two_elems_long (a ∷ b ∷ []) h = absurd (omega arith)
two_elems_long (a ∷ b ∷ c ∷ ps) h = refl

-- The key of a release whose name has a ".v" in it names no release at all.
pub key_name-ambiguous :
    (name : Bytes) (version : ℤ)
    → contains name dot_v ≡ true
    → key_name (make_key name version) ≡ none
unfolding key_name make_key
key_name-ambiguous name version h =
    rw (trim_prefix-append (bytes "sh.helm.release.v1.") (name ++ (dot_v ++ itoa version)))
      (two_elems_long _ (pieces-more name (itoa version) h))

append_cancel : (p s t : Bytes) → p ++ s ≡ p ++ t → s ≡ t
append_cancel [] s t e = e
append_cancel (c ∷ p) s t e = append_cancel p s t (cc)

pub make_key_inj : (name : Bytes) (v w : ℤ) → make_key name v ≡ make_key name w → v ≡ w
unfolding make_key
make_key_inj name v w e = itoa_inj v w (
    append_cancel (bytes ".v") _ _
      (append_cancel name _ _ (append_cancel (bytes "sh.helm.release.v1.") _ _ e)))

keys_differ :
    (name : Bytes) (v w : ℤ)
    → eq_int v w ≡ false
    → str_eq (make_key name v) (make_key name w) ≡ false
keys_differ name v w other = elim (Bool-cases (str_eq (make_key name v) (make_key name w))) [
  | inl same ↦ absurd (ground (arith, make_key_inj name v w ((str_eq_iff _ _).0 same)))
  | inr e ↦ e
]

-- Within one release, keys compare as revisions do.
pub str_eq-make_key :
    (name : Bytes) (v w : ℤ) → str_eq (make_key name v) (make_key name w) ≡ eq_int v w
str_eq-make_key name v w = elim (Bool-cases (eq_int v w)) [
  | inl same ↦ rw same ((str_eq_iff _ _).1 (ap (make_key name) (eq_int→eq v w same)))
  | inr other ↦ rw other (keys_differ name v w other)
]

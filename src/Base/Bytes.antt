-- ===== src/Base/Bytes.antt =====
-- Go strings as lists of bytes, with the functions of package `strings` that the code calls.
use Prim.Native.Nat.{ℕ, zero, suc, ◌-◌}
use Prim.Native.Char.{code}
use Prim.Native.String.{String}
use mathlib.Core.Path.{◌≡◌, refl}
use mathlib.Core.Logic.{◌↔◌}
use mathlib.Core.Bool.{Bool, true, false, ◌&&◌, ◌||◌}
use mathlib.Core.List.{List, [], ◌∷◌, ◌++◌}
use native.Mathlib.Omega.{arith}
use aws_ecommerce_k8s.Base.Tests.{ltb, ◌==◌, if◌then◌else◌}
use aws_ecommerce_k8s.Base.Lists.{length, drop}

abbrev pub Bytes : Type 0
Bytes = List ℕ

-- The bytes of an ASCII literal.
abbrev pub bytes : String → Bytes
bytes String.[] = []
bytes (String.◌∷◌ c s) = code c ∷ bytes s

-- `a == b` on strings.
unfoldable pub str_eq : Bytes → Bytes → Bool
str_eq [] [] = true
str_eq (a ∷ s) (b ∷ t) = (a == b) && str_eq s t
str_eq _ _ = false

pub str_eq_iff : (s t : Bytes) → (str_eq s t ≡ true) ↔ (s ≡ t)
unfolding str_eq
str_eq_iff [] [] = ground arith
str_eq_iff [] (b ∷ t) = ground arith
str_eq_iff (a ∷ s) [] = ground arith
str_eq_iff (a ∷ s) (b ∷ t) = ground (arith, str_eq_iff s t)

pub str_eq_refl : (s : Bytes) → str_eq s s ≡ true
str_eq_refl s = (str_eq_iff s s).1 refl

-- `slices.Contains`
unfoldable pub slice_contains : List Bytes → Bytes → Bool
slice_contains [] x = false
slice_contains (y ∷ ys) x = let rest = slice_contains ys x in if str_eq y x then true else rest

-- `a < b` on strings: byte by byte.
unfoldable pub str_lt : Bytes → Bytes → Bool
str_lt _ [] = false
str_lt [] (b ∷ t) = true
str_lt (a ∷ s) (b ∷ t) = ltb a b || ((a == b) && str_lt s t)

-- `strings.HasPrefix`.
unfoldable pub has_prefix : Bytes → Bytes → Bool
has_prefix s [] = true
has_prefix [] (p ∷ ps) = false
has_prefix (c ∷ s) (p ∷ ps) = (c == p) && has_prefix s ps

-- `strings.TrimPrefix`.
unfoldable pub trim_prefix : Bytes → Bytes → Bytes
unfolding has_prefix
trim_prefix s p = if has_prefix s p then drop (length p) s else s

-- `strings.Contains`.
unfoldable pub contains : Bytes → Bytes → Bool
unfolding has_prefix
contains [] sub = has_prefix [] sub
contains (c ∷ s) sub = has_prefix (c ∷ s) sub || contains s sub

-- Puts a byte in front of the first piece.
abbrev pub onto_head : ℕ → List Bytes → List Bytes
onto_head c [] = (c ∷ []) ∷ []
onto_head c (p ∷ ps) = (c ∷ p) ∷ ps

-- `strings.Split` at a separator that is not empty; `skip` bytes of a separator are still to pass.
unfoldable pub split_skip : (sep : Bytes) → ℕ → Bytes → List Bytes
split_skip sep skip [] = [] ∷ []
split_skip sep (suc skip) (c ∷ s) = split_skip sep skip s
split_skip sep zero (c ∷ s) =
    let piece = [] ∷ split_skip sep (length sep - 1) s in
    let longer = onto_head c (split_skip sep 0 s) in
    if has_prefix (c ∷ s) sep then piece else longer

unfoldable pub split : Bytes → Bytes → List Bytes
unfolding split_skip has_prefix
split s sep = split_skip sep 0 s

-- `strings.Join`.
unfoldable pub join : List Bytes → Bytes → Bytes
join [] sep = []
join (p ∷ []) sep = p
join (p ∷ q ∷ ps) sep = p ++ (sep ++ join (q ∷ ps) sep)

split_dots :
    split (bytes "a.vb..v1.v2") (bytes ".v") ≡ bytes "a" ∷ bytes "b." ∷ bytes "1" ∷ bytes "2" ∷ []
unfolding split
split_dots = refl

pub has_prefix-append : (p s : Bytes) → has_prefix (p ++ s) p ≡ true
unfolding has_prefix
has_prefix-append [] s = refl
has_prefix-append (c ∷ p) s = ground (arith, has_prefix-append p s)

drop-length-append : (p s : Bytes) → drop (length p) (p ++ s) ≡ s
drop-length-append [] s = refl
drop-length-append (c ∷ p) s = drop-length-append p s

pub trim_prefix-append : (p s : Bytes) → trim_prefix (p ++ s) p ≡ s
unfolding trim_prefix
trim_prefix-append p s = ground (arith, has_prefix-append p s, drop-length-append p s)

pub str_lt_asym : (a b : Bytes) → str_lt a b ≡ true → str_lt b a ≡ false
unfolding str_lt
str_lt_asym [] [] h = refl
str_lt_asym [] (d ∷ b) h = refl
str_lt_asym (c ∷ a) [] h = ground arith
str_lt_asym (c ∷ a) (d ∷ b) h = ground (arith, str_lt_asym a b)

pub str_lt_neg_trans :
    (a b c : Bytes) → str_lt a b ≡ false → str_lt b c ≡ false → str_lt a c ≡ false
unfolding str_lt
str_lt_neg_trans a b [] h k = refl
str_lt_neg_trans a [] (z ∷ c) h k = ground arith
str_lt_neg_trans [] (y ∷ b) (z ∷ c) h k = ground arith
str_lt_neg_trans (x ∷ a) (y ∷ b) (z ∷ c) h k = ground (arith, str_lt_neg_trans a b c)

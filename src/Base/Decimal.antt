-- ===== src/Base/Decimal.antt =====
-- `strconv.Itoa` (which `%d` prints too) and `strconv.Atoi`.
use Prim.Native.Nat.{ℕ, zero, suc, ◌+◌, ◌-◌, ◌*◌, ◌/◌, ◌%◌, ◌^◌, ◌<◌}
use mathlib.Core.Path.{◌≡◌, refl, sym, ap, ◌∙◌}
use mathlib.Core.Logic.{◌≢◌, inl, inr}
use mathlib.Core.Bool.{Bool, true, ◌&&◌, ◌||◌}
use mathlib.Core.Option.{Option, none, some}
use mathlib.Core.List.{[], ◌∷◌}
use native.Mathlib.Omega.{arith}
use aws_ecommerce_k8s.Base.Tests.{ltb, leb, ◌==◌, if◌then◌else◌, Bool-cases}
use aws_ecommerce_k8s.Base.Lists.{All}
use aws_ecommerce_k8s.Base.Int.{ℤ, pos, negsuc}
use aws_ecommerce_k8s.Base.Bytes.{Bytes}

-- Decimal digits in front of `acc`; `fuel` bounds the number of digits.
itoa_go : ℕ → ℕ → Bytes → Bytes
itoa_go zero n acc = acc
itoa_go (suc fuel) n acc =
    let rest = itoa_go fuel (n / 10) ((48 + n % 10) ∷ acc) in
    if ltb n 10 then (48 + n) ∷ acc else rest

itoa_nat : ℕ → Bytes
itoa_nat n = itoa_go (suc n) n []

unfoldable pub itoa : ℤ → Bytes
unfolding itoa_nat itoa_go
itoa (pos n) = itoa_nat n
itoa (negsuc n) = b'-' ∷ itoa_nat (suc n)

abbrev is_digit : ℕ → Bool
is_digit c = leb 48 c && leb c 57

-- Reads digits to the end of the text.
digits_go : ℕ → Bytes → Option ℕ
digits_go acc [] = some acc
digits_go acc (c ∷ s) = if is_digit c then digits_go (acc * 10 + (c - 48)) s else none

read_digits : Bytes → Option ℕ
read_digits [] = none
read_digits (c ∷ s) = digits_go 0 (c ∷ s)

abbrev in_range : ℕ → (ℕ → ℤ) → Option ℕ → Option ℤ
in_range limit make none = none
in_range limit make (some n) = if leb n limit then some (make n) else none

abbrev negated : ℕ → ℤ
negated zero = pos 0
negated (suc n) = negsuc n

-- `strconv.Atoi` at 64 bits: an optional sign, one digit or more, in the range of `int`.
unfoldable pub atoi : Bytes → Option ℤ
unfolding read_digits digits_go
atoi [] = none
atoi (c ∷ s) =
    if c == b'-'
    then in_range (2 ^ 63) negated (read_digits s)
    else if c == b'+'
    then in_range (2 ^ 63 - 1) pos (read_digits s)
    else in_range (2 ^ 63 - 1) pos (read_digits (c ∷ s))

-- The integers that an `int` of 64 bits holds.
abbrev pub IsInt64 : ℤ → Type 0
IsInt64 (pos n) = n < 2 ^ 63
IsInt64 (negsuc n) = n < 2 ^ 63

last_digit :
    (n : ℕ) (acc : Bytes) → ltb n 10 ≡ true → digits_go 0 ((48 + n) ∷ acc) ≡ digits_go n acc
unfolding digits_go
last_digit n acc h = ground arith

next_digit : (n : ℕ) (acc : Bytes) → digits_go (n / 10) ((48 + n % 10) ∷ acc) ≡ digits_go n acc
unfolding digits_go
next_digit n acc = ground arith

digits_go-itoa_go :
    (fuel n : ℕ) (acc : Bytes) → n < fuel → digits_go 0 (itoa_go fuel n acc) ≡ digits_go n acc
unfolding itoa_go
digits_go-itoa_go zero n acc h = elim h [ ]
digits_go-itoa_go (suc fuel) n acc h = elim (Bool-cases (ltb n 10)) [
  | inl small ↦ rw small (last_digit n acc small)
  | inr large ↦
      rw large
        (digits_go-itoa_go fuel (n / 10) ((48 + n % 10) ∷ acc) (ground arith) ∙ next_digit n acc)
]

-- What `Itoa` prints of a number is digits, one or more.
abbrev StartsWithDigit : Bytes → Type 0
StartsWithDigit [] = ⊥
StartsWithDigit (c ∷ s) = is_digit c ≡ true

abbrev pub AllDigits : Bytes → Type 0
AllDigits = All (λ c. is_digit c ≡ true)

itoa_go-AllDigits : (fuel n : ℕ) (acc : Bytes) → AllDigits acc → AllDigits (itoa_go fuel n acc)
unfolding itoa_go
itoa_go-AllDigits zero n acc h = h
itoa_go-AllDigits (suc fuel) n acc h = elim (Bool-cases (ltb n 10)) [
  | inl small ↦ rw small (ground arith, h)
  | inr large ↦ rw large (itoa_go-AllDigits fuel (n / 10) ((48 + n % 10) ∷ acc) (ground arith, h))
]

itoa_go_first :
    (fuel n : ℕ) (acc : Bytes) → StartsWithDigit acc → StartsWithDigit (itoa_go fuel n acc)
unfolding itoa_go
itoa_go_first zero n acc h = h
itoa_go_first (suc fuel) n acc h = elim (Bool-cases (ltb n 10)) [
  | inl small ↦ rw small (ground arith)
  | inr large ↦ rw large (itoa_go_first fuel (n / 10) ((48 + n % 10) ∷ acc) (ground arith))
]

itoa_nat_first : (n : ℕ) → StartsWithDigit (itoa_nat n)
unfolding itoa_nat itoa_go
itoa_nat_first n = elim (Bool-cases (ltb n 10)) [
  | inl small ↦ rw small (ground arith)
  | inr large ↦ rw large (itoa_go_first n (n / 10) ((48 + n % 10) ∷ []) (ground arith))
]

read_digits_first : (s : Bytes) → StartsWithDigit s → read_digits s ≡ digits_go 0 s
unfolding read_digits
read_digits_first [] h = absurd h
read_digits_first (c ∷ s) h = refl

read_digits-itoa_nat : (n : ℕ) → read_digits (itoa_nat n) ≡ some n
unfolding itoa_nat digits_go
read_digits-itoa_nat n =
    read_digits_first (itoa_nat n) (itoa_nat_first n) ∙ digits_go-itoa_go (suc n) n [] (omega arith)

atoi_first : (s : Bytes) → StartsWithDigit s → atoi s ≡ in_range (2 ^ 63 - 1) pos (read_digits s)
unfolding atoi
atoi_first [] h = absurd h
atoi_first (c ∷ s) h = ground arith

atoi_minus : (s : Bytes) → atoi (b'-' ∷ s) ≡ in_range (2 ^ 63) negated (read_digits s)
unfolding atoi
atoi_minus s = refl

-- Reading back what was printed gives the same integer.
pub atoi-itoa : (v : ℤ) → IsInt64 v → atoi (itoa v) ≡ some v
unfolding itoa
atoi-itoa (pos n) h =
    atoi_first (itoa_nat n) (itoa_nat_first n) ∙ rw (read_digits-itoa_nat n) (ground arith)
atoi-itoa (negsuc n) h =
    atoi_minus (itoa_nat (suc n)) ∙ rw (read_digits-itoa_nat (suc n)) (ground arith)

itoa_nat_inj : (a b : ℕ) → itoa_nat a ≡ itoa_nat b → a ≡ b
itoa_nat_inj a b e = cc (read_digits-itoa_nat a, read_digits-itoa_nat b)

not_minus : (n : ℕ) (s : Bytes) → itoa_nat n ≢ b'-' ∷ s
not_minus n s e = let h = rw e at (itoa_nat_first n) in ground arith

-- Two integers that print alike are equal.
pub itoa_inj : (a b : ℤ) → itoa a ≡ itoa b → a ≡ b
unfolding itoa
itoa_inj (pos a) (pos b) e = ap pos (itoa_nat_inj a b e)
itoa_inj (pos a) (negsuc b) e = absurd (not_minus a (itoa_nat (suc b)) e)
itoa_inj (negsuc a) (pos b) e = absurd (not_minus b (itoa_nat (suc a)) (sym e))
itoa_inj (negsuc a) (negsuc b) e = let same = itoa_nat_inj (suc a) (suc b) (cc) in ground arith

-- What `Itoa` prints holds no byte but digits and a minus sign.
abbrev pub is_digit_or_minus : ℕ → Bool
is_digit_or_minus c = is_digit c || c == b'-'

AllDigits-weaken : (s : Bytes) → AllDigits s → All (λ c. is_digit_or_minus c ≡ true) s
AllDigits-weaken [] h = tt
AllDigits-weaken (c ∷ s) h = (ground arith, AllDigits-weaken s h.1)

pub itoa-All : (v : ℤ) → All (λ c. is_digit_or_minus c ≡ true) (itoa v)
unfolding itoa itoa_nat
itoa-All (pos n) = AllDigits-weaken _ (itoa_go-AllDigits (suc n) n [] tt)
itoa-All (negsuc n) = (refl, AllDigits-weaken _ (itoa_go-AllDigits (suc (suc n)) (suc n) [] tt))

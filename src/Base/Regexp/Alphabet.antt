-- ===== src/Base/Regexp/Alphabet.antt =====
-- The characters of a string that matches are those of the expression's classes.
use Prim.Native.Nat.{ℕ}
use mathlib.Core.Path.{◌≡◌, refl}
use mathlib.Core.Logic.{inl, inr}
use mathlib.Core.Bool.{Bool, true, false}
use mathlib.Core.List.{[], ◌∷◌}
use aws_ecommerce_k8s.Base.Tests.{if◌then◌else◌, Bool-cases}
use aws_ecommerce_k8s.Base.Lists.{All}
use aws_ecommerce_k8s.Base.Bytes.{Bytes}
use aws_ecommerce_k8s.Base.Regexp.{
  Regexp, nothing, empty, class, seq, either, many, nullable, derivative, match_string,
}

-- Every class of the expression is within the alphabet.
abbrev pub Within : (ℕ → Bool) → Regexp → Type 0
Within p nothing = Unit
Within p empty = Unit
Within p (class f) = (c : ℕ) → f c ≡ true → p c ≡ true
Within p (seq r s) = Within p r × Within p s
Within p (either r s) = Within p r × Within p s
Within p (many r) = Within p r

-- An expression that matches no string.
abbrev pub IsVoid : Regexp → Type 0
IsVoid nothing = Unit
IsVoid empty = ⊥
IsVoid (class f) = ⊥
IsVoid (seq r s) = IsVoid r
IsVoid (either r s) = IsVoid r × IsVoid s
IsVoid (many r) = ⊥

Within-if :
    (p : ℕ → Bool) (b : Bool) (r s : Regexp)
    → Within p r
    → Within p s
    → Within p (if b then r else s)
Within-if p true r s wr ws = wr
Within-if p false r s wr ws = ws

IsVoid-if :
    (b : Bool) (r s : Regexp) → (b ≡ true → IsVoid r) → IsVoid s → IsVoid (if b then r else s)
IsVoid-if true r s vr vs = vr refl
IsVoid-if false r s vr vs = vs

Within-derivative : (p : ℕ → Bool) (c : ℕ) (r : Regexp) → Within p r → Within p (derivative c r)
unfolding derivative
Within-derivative p c nothing w = tt
Within-derivative p c empty w = tt
Within-derivative p c (class f) w = Within-if p (f c) empty nothing tt tt
Within-derivative p c (seq r s) (wr, ws) = (
  (Within-derivative p c r wr, ws),
  Within-if p (nullable r) (derivative c s) nothing (Within-derivative p c s ws) tt,
)
Within-derivative p c (either r s) (wr, ws) =
    (Within-derivative p c r wr, Within-derivative p c s ws)
Within-derivative p c (many r) w = (Within-derivative p c r w, w)

IsVoid-derivative :
    (p : ℕ → Bool) (c : ℕ) (r : Regexp) → Within p r → p c ≡ false → IsVoid (derivative c r)
unfolding derivative
IsVoid-derivative p c nothing w h = tt
IsVoid-derivative p c empty w h = tt
IsVoid-derivative p c (class f) w h =
    IsVoid-if (f c) empty nothing (λ e. let bad : true ≡ false = cc (w c e) in cc) tt
IsVoid-derivative p c (seq r s) (wr, ws) h = (
  IsVoid-derivative p c r wr h,
  IsVoid-if (nullable r) (derivative c s) nothing (λ e. IsVoid-derivative p c s ws h) tt,
)
IsVoid-derivative p c (either r s) (wr, ws) h =
    (IsVoid-derivative p c r wr h, IsVoid-derivative p c s ws h)
IsVoid-derivative p c (many r) w h = IsVoid-derivative p c r w h

IsVoid-nullable : (r : Regexp) → IsVoid r → nullable r ≡ false
unfolding nullable
IsVoid-nullable nothing v = refl
IsVoid-nullable empty v = absurd v
IsVoid-nullable (class f) v = absurd v
IsVoid-nullable (seq r s) v = rw (IsVoid-nullable r v)
IsVoid-nullable (either r s) (vr, vs) = rw (IsVoid-nullable r vr) (IsVoid-nullable s vs)
IsVoid-nullable (many r) v = absurd v

IsVoid-stays : (c : ℕ) (r : Regexp) → IsVoid r → IsVoid (derivative c r)
unfolding derivative
IsVoid-stays c nothing v = tt
IsVoid-stays c empty v = absurd v
IsVoid-stays c (class f) v = absurd v
IsVoid-stays c (seq r s) v = (
  IsVoid-stays c r v,
  IsVoid-if (nullable r) (derivative c s) nothing
      (λ e. let bad : true ≡ false = cc (IsVoid-nullable r v) in cc) tt,
)
IsVoid-stays c (either r s) (vr, vs) = (IsVoid-stays c r vr, IsVoid-stays c s vs)
IsVoid-stays c (many r) v = absurd v

pub IsVoid-match : (s : Bytes) (r : Regexp) → IsVoid r → match_string r s ≡ false
unfolding match_string
IsVoid-match [] r v = IsVoid-nullable r v
IsVoid-match (c ∷ s) r v = IsVoid-match s (derivative c r) (IsVoid-stays c r v)

pub match_string-All :
    (p : ℕ → Bool) (s : Bytes) (r : Regexp)
    → Within p r
    → match_string r s ≡ true
    → All (λ c. p c ≡ true) s
unfolding match_string
match_string-All p [] r w h = tt
match_string-All p (c ∷ s) r w h = elim (Bool-cases (p c)) [
  | inl inside ↦ (inside, match_string-All p s (derivative c r) (Within-derivative p c r w) h)
  | inr outside ↦
      let nowhere = IsVoid-match s (derivative c r) (IsVoid-derivative p c r w outside) in
      let bad : true ≡ false = cc nowhere in cc
]

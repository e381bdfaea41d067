-- ===== src/Base/Regexp.antt =====
-- Regular expressions of package regexp, matched against a whole string by derivatives.
pub mod Alphabet
use aws_ecommerce_k8s.Base.Tests.{if◌then◌else◌}
use aws_ecommerce_k8s.Base.Bytes.{Bytes}
use Prim.Native.Nat.{ℕ}
use mathlib.Core.Bool.{Bool, true, false, ◌&&◌, ◌||◌}
use mathlib.Core.List.{[], ◌∷◌}

pub data Regexp : Type 0 where
  nothing empty : Regexp
  class : (ℕ → Bool) → Regexp
  seq either : Regexp → Regexp → Regexp
  many : Regexp → Regexp

-- `r?`
abbrev pub optional : Regexp → Regexp
optional r = either r empty

unfoldable pub nullable : Regexp → Bool
nullable nothing = false
nullable empty = true
nullable (class f) = false
nullable (seq r s) = nullable r && nullable s
nullable (either r s) = nullable r || nullable s
nullable (many r) = true

-- What is left to match after a character.
unfoldable pub derivative : ℕ → Regexp → Regexp
derivative c nothing = nothing
derivative c empty = nothing
derivative c (class f) = if f c then empty else nothing
derivative c (seq r s) =
    either (seq (derivative c r) s) (if nullable r then derivative c s else nothing)
derivative c (either r s) = either (derivative c r) (derivative c s)
derivative c (many r) = seq (derivative c r) (many r)

unfoldable pub match_string : Regexp → Bytes → Bool
match_string r [] = nullable r
match_string r (c ∷ s) = match_string (derivative c r) s

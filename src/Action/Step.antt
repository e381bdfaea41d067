-- ===== src/Action/Step.antt =====
-- Go code that changes shared state and may return an error: a function from the state to an outcome
-- and the new state. What was changed before an error stays changed.
use aws_ecommerce_k8s.Base.{List, [], ◌∷◌, ◌≡◌, ◌∙◌, refl, sym}
use mathlib.Core.Path.{subst}

pub data Outcome (E A : Type 0) : Type 0 where
  done : A → Outcome E A
  raised : E → Outcome E A

abbrev pub Step : Type 0 → Type 0 → Type 0 → Type 0
Step W E A = W → Outcome E A × W

-- What follows a step is run where it did not fail.
unfoldable pub follow : {W E A B : Type 0} → Outcome E A × W → (A → Step W E B) → Outcome E B × W
follow (done a, w) f = f a w
follow (raised e, w) f = (raised e, w)

infixl 5 ◌>>=◌ ◌>>◌
abbrev pub ◌>>=◌ : {W E A B : Type 0} → Step W E A → (A → Step W E B) → Step W E B
◌>>=◌ m f w = follow (m w) f

abbrev pub ◌>>◌ : {W E B : Type 0} → Step W E (Unit {0}) → Step W E B → Step W E B
◌>>◌ m k w = follow (m w) (λ _. k)

abbrev pub pure : {W E A : Type 0} → A → Step W E A
pure a w = (done a, w)

abbrev pub fail : {W E A : Type 0} → E → Step W E A
fail e w = (raised e, w)

abbrev pub gets : {W E A : Type 0} → (W → A) → Step W E A
gets f w = (done (f w), w)

abbrev pub modify : {W E : Type 0} → (W → W) → Step W E (Unit {0})
modify f w = (done tt, f w)

-- The same step, with what the code makes of its error.
unfoldable pub map_error : {W E E' A : Type 0} → (E → E') → Outcome E A × W → Outcome E' A × W
map_error wrap (done a, w) = (done a, w)
map_error wrap (raised e, w) = (raised (wrap e), w)

-- An error that is only logged.
abbrev pub quietly : {W E : Type 0} → Step W E (Unit {0}) → Step W E (Unit {0})
quietly m w = (done tt, (m w).1)

-- A loop that returns at the first error.
unfoldable pub each : {W E A : Type 0} → (A → Step W E (Unit {0})) → List A → Step W E (Unit {0})
each f [] = pure tt
each f (x ∷ xs) = f x >> each f xs

-- The part of the state that a step leaves as it is.
abbrev pub Keeps : {W E A B : Type 0} → (W → B) → Step W E A → Type 0
Keeps {W} view m = (w : W) → view (m w).1 ≡ view w

Keeps-follow :
    {W E A B C : Type 0} (view : W → C) (r : Outcome E A × W) (f : A → Step W E B)
    → ((a : A) → Keeps view (f a))
    → view (follow r f).1 ≡ view r.1
unfolding follow
Keeps-follow view (done a, w) f k = k a w
Keeps-follow view (raised e, w) f k = refl

pub Keeps->>= :
    {W E A B C : Type 0} (view : W → C) (m : Step W E A) (f : A → Step W E B)
    → Keeps view m
    → ((a : A) → Keeps view (f a))
    → Keeps view (m >>= f)
Keeps->>= view m f km kf w = Keeps-follow view (m w) f kf ∙ km w

pub Keeps-each :
    {W E A C : Type 0} (view : W → C) (f : A → Step W E (Unit {0}))
    → ((a : A) → Keeps view (f a))
    → (xs : List A) → Keeps view (each f xs)
unfolding each
Keeps-each view f k [] w = refl
Keeps-each view f k (x ∷ xs) w =
    Keeps->>= view (f x) (λ _. each f xs) (k x) (λ _. Keeps-each view f k xs) w

-- What a step does not break.
abbrev pub Holds : {W E A : Type 0} → (W → Type 0) → Step W E A → Type 0
Holds {W} Inv m = (w : W) → Inv w → Inv (m w).1

Holds-follow :
    {W E A B : Type 0} (Inv : W → Type 0) (r : Outcome E A × W) (f : A → Step W E B)
    → ((a : A) → Holds Inv (f a))
    → Inv r.1
    → Inv (follow r f).1
unfolding follow
Holds-follow Inv (done a, w) f h i = h a w i
Holds-follow Inv (raised e, w) f h i = i

pub Holds->>= :
    {W E A B : Type 0} (Inv : W → Type 0) (m : Step W E A) (f : A → Step W E B)
    → Holds Inv m
    → ((a : A) → Holds Inv (f a))
    → Holds Inv (m >>= f)
Holds->>= Inv m f hm hf w i = Holds-follow Inv (m w) f hf (hm w i)

pub Holds-each :
    {W E A : Type 0} (Inv : W → Type 0) (f : A → Step W E (Unit {0}))
    → ((a : A) → Holds Inv (f a))
    → (xs : List A) → Holds Inv (each f xs)
unfolding each
Holds-each Inv f h [] w i = i
Holds-each Inv f h (x ∷ xs) w i =
    Holds->>= Inv (f x) (λ _. each f xs) (h x) (λ _. Holds-each Inv f h xs) w i

-- What holds of the result and the state after a step that did not fail.
abbrev pub Ends : {W E A : Type 0} → (A → W → Type 0) → Outcome E A × W → Type 0
Ends Q (done a, w) = Q a w
Ends Q (raised e, w) = Unit

pub Ends-follow :
    {W E A B : Type 0} (Q : B → W → Type 0) (P : A → W → Type 0) (r : Outcome E A × W)
    (f : A → Step W E B)
    → Ends P r
    → ((a : A) (w : W) → P a w → Ends Q (f a w))
    → Ends Q (follow r f)
unfolding follow
Ends-follow Q P (done a, w) f p k = k a w p
Ends-follow Q P (raised e, w) f p k = tt

-- A step that may be followed by anything promises what its last part does.
pub Ends-last :
    {W E A B : Type 0} (Q : B → W → Type 0) (r : Outcome E A × W) (f : A → Step W E B)
    → ((a : A) (w : W) → Ends Q (f a w))
    → Ends Q (follow r f)
unfolding follow
Ends-last Q (done a, w) f k = k a w
Ends-last Q (raised e, w) f k = tt

pub Ends-both :
    {W E A : Type 0} (P Q : A → W → Type 0) (r : Outcome E A × W)
    → Ends P r
    → Ends Q r
    → Ends (λ a w. P a w × Q a w) r
Ends-both P Q (done a, w) p q = (p, q)
Ends-both P Q (raised e, w) p q = tt

pub Ends-kept :
    {W E A B : Type 0} (P : B → Type 0) (view : W → B) (b : B) (r : Outcome E A × W)
    → view r.1 ≡ b
    → P b
    → Ends (λ a w. P (view w)) r
Ends-kept P view b (done a, w) e p = subst P (sym e) p
Ends-kept P view b (raised x, w) e p = tt

pub Ends-map :
    {W E A : Type 0} (P Q : A → W → Type 0) (r : Outcome E A × W)
    → ((a : A) (w : W) → P a w → Q a w)
    → Ends P r
    → Ends Q r
Ends-map P Q (done a, w) f p = f a w p
Ends-map P Q (raised x, w) f p = tt

pub Ends-state :
    {W E A : Type 0} (P : W → Type 0) (r : Outcome E A × W) → P r.1 → Ends (λ a w. P w) r
Ends-state P (done a, w) p = p
Ends-state P (raised x, w) p = tt

pub Ends-done :
    {W E : Type 0} (Q : Unit {0} → W → Type 0) (r : Outcome E (Unit {0}) × W)
    → r.0 ≡ done tt
    → Ends Q r
    → Q tt r.1
Ends-done Q (done a, w) h q = q
Ends-done Q (raised e, w) h q = cc

-- A step that did not fail.
abbrev pub IsDone : {W E A : Type 0} → Outcome E A × W → Type 0
IsDone (done a, w) = Unit
IsDone (raised e, w) = ⊥

pub follow-IsDone :
    {W E A B : Type 0} (r : Outcome E A × W) (f : A → Step W E B)
    → IsDone r
    → ((a : A) (w : W) → IsDone (f a w))
    → IsDone (follow r f)
unfolding follow
follow-IsDone (done a, w) f d k = k a w
follow-IsDone (raised e, w) f d k = absurd d

pub each-IsDone :
    {W E A : Type 0} (f : A → Step W E (Unit {0}))
    → ((a : A) (w : W) → IsDone (f a w))
    → (xs : List A) (w : W) → IsDone (each f xs w)
unfolding each
each-IsDone f d [] w = tt
each-IsDone f d (x ∷ xs) w = follow-IsDone (f x w) _ (d x w) (λ a w. each-IsDone f d xs w)

pub IsDone-done : {W E : Type 0} (r : Outcome E (Unit {0}) × W) → IsDone r → r.0 ≡ done tt
IsDone-done (done a, w) d = refl
IsDone-done (raised e, w) d = absurd d

pub follow-done :
    {W E A B : Type 0} (r : Outcome E A × W) (f : A → Step W E B) (a : A)
    → r.0 ≡ done a
    → ((w : W) → IsDone (f a w))
    → IsDone (follow r f)
unfolding follow
follow-done (done b, w) f a e k = subst (λ x. IsDone (f x w)) (cc) (k w)
follow-done (raised x, w) f a e k = cc

-- What a step ends in, where the steps before it do not break what it needs.
pub Ends-held :
    {W E A B : Type 0} (Inv : W → Type 0) (Q : B → W → Type 0) (m : Step W E A) (f : A → Step W E B)
    → Holds Inv m
    → ((a : A) (w : W) → Inv w → Ends Q (f a w))
    → (w : W) → Inv w
    → Ends Q ((m >>= f) w)
Ends-held Inv Q m f hm hf w i = Ends-follow Q (λ a. Inv) (m w) f (Ends-state Inv (m w) (hm w i)) hf

-- ===== src/Base/Action.antt =====
-- Calls with effects: a function of the world, which may raise and leaves a world behind. What
-- was done before an exception stays done.
use mathlib.Core.Logic.{◌⊎◌, inl, inr}
use mathlib.Core.Bool.{Bool, true, false}
use mathlib.Core.Path.{◌≡◌, refl, ap}
use native.Mathlib.Omega.{arith}
use pc_platform_validation_t.Base.Exceptions.{Exception, Result, ok, raised, succeeds}
use pc_platform_validation_t.Base.Tests.{if◌then◌else◌}

abbrev pub Action : Type 0 → Type 0 → Type 0
Action W A = W → Result A × W

module _ {W : Type 0} where
  infixl 5 ◌>>=◌ ◌>>◌
  abbrev pub ◌>>=◌ : {A B : Type 0} → Action W A → (A → Action W B) → Action W B
  ◌>>=◌ m f w = let (r, w') = m w in elim r [ ok a ↦ f a w' | raised e ↦ (raised e, w') ]

  abbrev pub ◌>>◌ : {B : Type 0} → Action W (Unit {0}) → Action W B → Action W B
  m >> k = m >>= λ _. k

  abbrev pub pure : {A : Type 0} → A → Action W A
  pure a w = (ok a, w)

  -- A call without effects.
  abbrev pub lift : {A : Type 0} → Result A → Action W A
  lift r w = (r, w)

  -- `try`: the outcome of a call as a value.
  abbrev pub attempt : {A : Type 0} → Action W A → Action W (Result A)
  attempt m w = let (r, w') = m w in (ok r, w')

  -- `except BaseException: cleanup; raise`
  abbrev pub on_raise : {A : Type 0} → Action W A → Action W (Unit {0}) → Action W A
  on_raise m cleanup w =
      let (r, w') = m w in
      elim r [ ok a ↦ (ok a, w') | raised e ↦ (cleanup >>= λ _ w₁. (raised e, w₁)) w' ]

  -- A call that cannot raise.
  abbrev pub query : {A : Type 0} → (W → A × W) → Action W A
  query f w = let (a, w') = f w in (ok a, w')

module _ {W A B : Type 0} where
  abbrev continue : Result A × W → (A → Action W B) → Result B × W
  continue (r, w) f = elim r [ ok a ↦ f a w | raised e ↦ (raised e, w) ]

  continue-eq-ok :
      (r : Result A × W) (f : A → Action W B) {b : B} {w' : W}
      → continue r f ≡ (ok b, w')
      → (a : A) × (w₁ : W) × (r ≡ (ok a, w₁)) × (f a w₁ ≡ (ok b, w'))
  continue-eq-ok (ok a, w) f h = (a, w, refl, h)
  continue-eq-ok (raised e, w) f h = ground arith

  continue-eq-raised :
      (r : Result A × W) (f : A → Action W B) {e : Exception} {w' : W}
      → continue r f ≡ (raised e, w')
      → (r ≡ (raised e, w')) ⊎ ((a : A) × (w₁ : W) × (r ≡ (ok a, w₁)) × (f a w₁ ≡ (raised e, w')))
  continue-eq-raised (ok a, w) f h = inr (a, w, refl, h)
  continue-eq-raised (raised e, w) f h = inl (ground arith)

  -- Inversion of a sequence of two calls that returned.
  pub >>=-eq-ok :
      (m : Action W A) (f : A → Action W B) (w : W) {b : B} {w' : W}
      → (m >>= f) w ≡ (ok b, w')
      → (a : A) × (w₁ : W) × (m w ≡ (ok a, w₁)) × (f a w₁ ≡ (ok b, w'))
  >>=-eq-ok m f w h = continue-eq-ok (m w) f h

  -- A first call that returned gives way to the second.
  pub >>=-after :
      (m : Action W A) (f : A → Action W B) (w : W) {a : A} {w₁ : W}
      → m w ≡ (ok a, w₁)
      → (m >>= f) w ≡ f a w₁
  >>=-after m f w h = ap (λ p. continue p f) h

module _ {W A : Type 0} where
  pub attempt-eq-ok :
      (m : Action W A) (w : W) {r : Result A} {w' : W} → attempt m w ≡ (ok r, w') → m w ≡ (r, w')
  attempt-eq-ok m w h = ground arith

  pub lift-eq-ok : (r : Result A) (w : W) {a : A} {w' : W} → lift r w ≡ (ok a, w') → r ≡ ok a
  lift-eq-ok r w h = ground arith

  -- Inversion of a branch that returned.
  pub if_cases :
      (b : Bool) (m n : Action W A) (w : W) {r : Result A × W}
      → (if b then m else n) w ≡ r
      → ((b ≡ true) × (m w ≡ r)) ⊎ ((b ≡ false) × (n w ≡ r))
  if_cases true m n w h = inl (refl, h)
  if_cases false m n w h = inr (refl, h)

  pub pure-eq-ok : (a : A) (w : W) {b : A} {w' : W} → pure a w ≡ (ok b, w') → a ≡ b
  pure-eq-ok a w h = ground arith

module _ {W A B : Type 0} where
  -- A sequence that raised did so in its first call, or in its second after the first returned.
  pub >>=-eq-raised :
      (m : Action W A) (f : A → Action W B) (w : W) {e : Exception} {w' : W}
      → (m >>= f) w ≡ (raised e, w')
      → (m w ≡ (raised e, w'))
        ⊎ ((a : A) × (w₁ : W) × (m w ≡ (ok a, w₁)) × (f a w₁ ≡ (raised e, w')))
  >>=-eq-raised m f w h = continue-eq-raised (m w) f h

module _ {W A : Type 0} where
  undone-eq-raised :
      (r : Result A × W) (cleanup : Action W (Unit {0})) {e : Exception} {w' : W}
      → ((x : Exception) (v : W) → r ≡ (raised x, v) → succeeds (cleanup v).0 ≡ true)
      → on_raise (λ v. r) cleanup r.1 ≡ (raised e, w')
      → (w₁ : W) × (r ≡ (raised e, w₁)) × (cleanup w₁ ≡ (ok tt, w'))
  undone-eq-raised (ok a, w) cleanup c h = ground arith
  undone-eq-raised (raised e, w) cleanup c h =
      (w, ground (arith, c e w refl), ground (arith, c e w refl))

  -- What was raised under a cleanup that returns then.
  pub on_raise-eq-raised :
      (m : Action W A) (cleanup : Action W (Unit {0})) (w : W) {e : Exception} {w' : W}
      → ((x : Exception) (v : W) → m w ≡ (raised x, v) → succeeds (cleanup v).0 ≡ true)
      → on_raise m cleanup w ≡ (raised e, w')
      → (w₁ : W) × (m w ≡ (raised e, w₁)) × (cleanup w₁ ≡ (ok tt, w'))
  on_raise-eq-raised m cleanup w c h = undone-eq-raised (m w) cleanup c h

  pub on_raise-eq-ok :
      (m : Action W A) (cleanup : Action W (Unit {0})) (w : W) {a : A} {w' : W}
      → on_raise m cleanup w ≡ (ok a, w')
      → m w ≡ (ok a, w')
  on_raise-eq-ok m cleanup w h = ground arith

module _ {W A B : Type 0} where
  returns_after :
      (r : Result A × W) (f : A → Action W B)
      → succeeds r.0 ≡ true
      → ((a : A) (v : W) → r ≡ (ok a, v) → succeeds (f a v).0 ≡ true)
      → succeeds (continue r f).0 ≡ true
  returns_after (ok a, w) f m n = n a w refl
  returns_after (raised e, w) f m n = ground arith

  -- A call that returns, and then one that does.
  pub >>=-returns :
      (m : Action W A) (f : A → Action W B) (w : W)
      → succeeds (m w).0 ≡ true
      → ((a : A) (v : W) → m w ≡ (ok a, v) → succeeds (f a v).0 ≡ true)
      → succeeds ((m >>= f) w).0 ≡ true
  >>=-returns m f w n k = returns_after (m w) f n k

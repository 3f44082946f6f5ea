-- ===== src/Base/Endings.antt =====
-- What holds after an action that ends well, from a given state.
use mathlib.Core.Path.{◌≡◌, refl}
use elastic_env_operator.Base.Effects.{Result, ok, err, panic, Exec, continue, replaced, ◌>>=◌}
use elastic_env_operator.Base.Invariants.{Keeps}

abbrev pub EndsIn : {S A : Type 0} → (S → Type 0) → Exec S A → S → Type 0
EndsIn {A = A} Q act s = (a : A) → (act s).0 ≡ ok a → Q (act s).1

module _ {S A B : Type 0} (Q : S → Type 0) where
  continue-EndsIn :
      (r : Result A) (next : A → Exec S B) (s : S)
      → ((a : A) → r ≡ ok a → EndsIn Q (next a) s)
      → (b : B) → (continue r next s).0 ≡ ok b
      → Q (continue r next s).1
  continue-EndsIn (ok a) next s k b e = k a refl b e
  continue-EndsIn (err e') next s k b e = absurd (cc e)
  continue-EndsIn panic next s k b e = absurd (cc e)

  pub EndsIn-bind :
      (first : Exec S A) (next : A → Exec S B) (s : S)
      → ((a : A) → (first s).0 ≡ ok a → EndsIn Q (next a) (first s).1)
      → EndsIn Q (first >>= next) s
  EndsIn-bind first next s k = continue-EndsIn (first s).0 next (first s).1 k

pub EndsIn-kept :
    {S A : Type 0} (Q : S → Type 0) (act : Exec S A) (s : S) → Keeps Q act → Q s → EndsIn Q act s
EndsIn-kept Q act s k h a e = k s h

-- An action that always ends well.
abbrev pub EndsWell : {S A : Type 0} → Exec S A → Type 0
EndsWell {A = A} act = (s : _) → (a : A) × ((act s).0 ≡ ok a)

module _ {S A B : Type 0} where
  pub continue-EndsWell :
      (r : Result A) (next : A → Exec S B) (s : S)
      → (a : A) × (r ≡ ok a)
      → ((a : A) → EndsWell (next a))
      → (b : B) × ((continue r next s).0 ≡ ok b)
  continue-EndsWell (ok a) next s h k = k a s
  continue-EndsWell (err e) next s h k = absurd (cc h.1)
  continue-EndsWell panic next s h k = absurd (cc h.1)

  pub EndsWell-bind :
      (first : Exec S A) (next : A → Exec S B)
      → EndsWell first
      → ((a : A) → EndsWell (next a))
      → EndsWell (first >>= next)
  EndsWell-bind first next h k s = continue-EndsWell (first s).0 next (first s).1 (h s) k

-- An action that ends well from the given state, in a state of the property.
abbrev pub Attains : {S A : Type 0} → (S → Type 0) → Exec S A → S → Type 0
Attains {A = A} Q act s = (a : A) × ((act s).0 ≡ ok a) × Q (act s).1

pub Attains-kept :
    {S A : Type 0} (Q : S → Type 0) (act : Exec S A) (s : S)
    → EndsWell act
    → Keeps Q act
    → Q s
    → Attains Q act s
Attains-kept Q act s succeeds k h = ((succeeds s).0, (succeeds s).1, k s h)

module _ {S A B : Type 0} (Q R : S → Type 0) where
  continue-Attains :
      (r : Result A) (next : A → Exec S B) (s : S)
      → (a : A) × (r ≡ ok a) × Q s
      → ((a : A) (s' : S) → Q s' → Attains R (next a) s')
      → (b : B) × ((continue r next s).0 ≡ ok b) × R (continue r next s).1
  continue-Attains (ok a) next s h k = k a s h.2
  continue-Attains (err e) next s h k = absurd (cc h.1)
  continue-Attains panic next s h k = absurd (cc h.1)

  pub Attains-bind :
      (first : Exec S A) (next : A → Exec S B) (s : S)
      → Attains Q first s
      → ((a : A) (s' : S) → Q s' → Attains R (next a) s')
      → Attains R (first >>= next) s
  Attains-bind first next s h k = continue-Attains (first s).0 next (first s).1 h k

-- A write that succeeds gives an object to put in the place of the one before.
pub replaced_ok :
    {O W : Type 0} (o : O) (r : Result O) (w : W)
    → (o' : O) × (r ≡ ok o')
    → (replaced o r w).0 ≡ ok tt
replaced_ok o (ok o') w h = refl
replaced_ok o (err e) w h = absurd (cc h.1)
replaced_ok o panic w h = absurd (cc h.1)

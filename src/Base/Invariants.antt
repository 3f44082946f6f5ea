-- ===== src/Base/Invariants.antt =====
-- Properties of the state that an action keeps, whether it returns, fails or panics. One rule for
-- each way in which the handlers build an action.
use mathlib.Core.Bool.{Bool, true, false}
use mathlib.Core.Path.{◌≡◌, refl}
use mathlib.Core.Logic.{◌⊎◌, inl, inr}
use elastic_env_operator.Base.Tests.{if◌then◌else◌}
use elastic_env_operator.Base.Effects.{
  Error, Result, ok, err, panic, Exec, continue, continue_keeps, ◌>>=◌, on_rest, on_object,
  replaced,
}

abbrev pub Keeps : {S A : Type 0} → (S → Type 0) → Exec S A → Type 0
Keeps P act = (s : _) → P s → P (act s).1

module _ {S A B : Type 0} (P : S → Type 0) where
  pub Keeps-bind :
      (first : Exec S A) (next : A → Exec S B)
      → Keeps P first
      → ((a : A) → Keeps P (next a))
      → Keeps P (first >>= next)
  Keeps-bind first next k l s h =
      continue_keeps P (first s).0 next (first s).1 (k s h) (λ a s' h'. l a s' h')

module _ {S A : Type 0} (P : S → Type 0) where
  pub Keeps-if :
      (b : Bool) (first second : Exec S A)
      → (b ≡ true → Keeps P first)
      → (b ≡ false → Keeps P second)
      → Keeps P (if b then first else second)
  Keeps-if true first second k l = k refl
  Keeps-if false first second k l = l refl

module _ {O W : Type 0} (P : W → Type 0) where
  pub Keeps-on_rest :
      {A : Type 0} (f : O → Exec W A)
      → ((o : O) → Keeps P (f o))
      → Keeps (λ (s : O × W). P s.1) (on_rest f)
  Keeps-on_rest f k s h = k s.0 s.1 h

  replaced_keeps : (o : O) (r : Result O) (w : W) → P w → P (replaced o r w).1.1
  replaced_keeps o (ok o') w h = h
  replaced_keeps o (err e) w h = h
  replaced_keeps o panic w h = h

  pub Keeps-on_object :
      (f : O → Exec W O) → ((o : O) → Keeps P (f o)) → Keeps (λ (s : O × W). P s.1) (on_object f)
  Keeps-on_object f k s h = replaced_keeps s.0 (f s.0 s.1).0 (f s.0 s.1).1 (k s.0 s.1 h)

pub Result-cases :
    {A : Type 0} (r : Result A)
    → ((a : A) × (r ≡ ok a)) ⊎ (((e : Error) × (r ≡ err e)) ⊎ (r ≡ panic))
Result-cases (ok a) = inl (a, refl)
Result-cases (err e) = inr (inl (e, refl))
Result-cases panic = inr (inr refl)

-- What holds of both branches.
pub both_branches :
    {A : Type 0} (Q : A → Type 0) (b : Bool) (x y : A) → Q x → Q y → Q (if b then x else y)
both_branches Q true x y h k = h
both_branches Q false x y h k = k

-- An action leads from a state of the one property to one of the other.
abbrev pub Leads : {S A : Type 0} → (S → Type 0) → (S → Type 0) → Exec S A → Type 0
Leads Q R act = (s : _) → Q s → R (act s).1

continue_leads :
    {S A B : Type 0} (Q R : S → Type 0) (r : Result A) (next : A → Exec S B) (s : S)
    → ((t : S) → Q t → R t)
    → ((a : A) → Leads Q R (next a))
    → Q s
    → R (continue r next s).1
continue_leads Q R (ok a) next s weaker k h = k a s h
continue_leads Q R (err e) next s weaker k h = weaker s h
continue_leads Q R panic next s weaker k h = weaker s h

pub Leads-bind :
    {S A B : Type 0} (Q R : S → Type 0) (first : Exec S A) (next : A → Exec S B)
    → ((t : S) → Q t → R t)
    → Keeps Q first
    → ((a : A) → Leads Q R (next a))
    → Leads Q R (first >>= next)
Leads-bind Q R first next weaker k l s h =
    continue_leads Q R (first s).0 next (first s).1 weaker l (k s h)

-- A call that ends well ran its first part well; what that reached, the rest keeps.
pub continue_reaches :
    {S A B : Type 0} (P : S → Type 0) (r : Result A) (next : A → Exec S B) (s : S) (b : B)
    → ((a : A) → r ≡ ok a → P s)
    → ((a : A) → Keeps P (next a))
    → (continue r next s).0 ≡ ok b
    → P (continue r next s).1
continue_reaches P (ok a) next s b reached k e = k a s (reached a refl)
continue_reaches P (err e') next s b reached k e = absurd (cc e)
continue_reaches P panic next s b reached k e = absurd (cc e)

-- ===== src/Base/Effects.antt =====
-- Methods that change a state and may return an error or panic. What was written before an error
-- stays written, so the state comes back beside the error too.
use elastic_env_operator.Base.Maps.{Map, nil, made, insert}
use Prim.Native.String.{String}
use mathlib.Core.Bool.{Bool, false}

-- Go's `error`: its text, and what apierrors.IsNotFound says of it.
pub record Error : Type 0 where
  pub is_not_found : Bool
  pub message : String

-- fmt.Errorf
abbrev pub errorf : String → Error
errorf message = record { is_not_found = false; message = message }

pub data Result {ℓ} (A : Type ℓ) : Type ℓ where
  ok : A → Result A
  err : Error → Result A
  panic : Result A

abbrev pub Exec {ℓ} : Type ℓ → Type ℓ → Type ℓ
Exec S A = S → Result A × S

module _ {ℓ} {S A : Type ℓ} where
  abbrev pub pure : A → Exec S A
  pure a s = (ok a, s)

  abbrev pub raise : Error → Exec S A
  raise e s = (err e, s)

  abbrev pub crash : Exec S A
  crash s = (panic, s)

  abbrev pub lift : Result A → Exec S A
  lift r s = (r, s)

module _ {ℓ} {S A B : Type ℓ} where
  abbrev pub continue : Result A → (A → Exec S B) → Exec S B
  continue (ok value) next state = next value state
  continue (err e) next state = (err e, state)
  continue panic next state = (panic, state)

  infixl 5 ◌>>=◌ ◌>>◌
  abbrev pub ◌>>=◌ : Exec S A → (A → Exec S B) → Exec S B
  ◌>>=◌ act next state = let (result, after) = act state in continue result next after

  abbrev pub ◌>>◌ : Exec S A → Exec S B → Exec S B
  first >> second = first >>= λ ignored. second

-- m[k] = v
abbrev pub assign {ℓ} : {V : Type ℓ} → Map V → String → V → Result (Map V)
assign nil k v = panic
assign (made m) k v = ok (made (insert k v m))

-- An object that a method may change in place, beside the rest of the state: a method of the rest,
-- and what is left of an object that a call returns or fails to return.
abbrev pub on_rest {ℓ} : {O W A : Type ℓ} → (O → Exec W A) → Exec (O × W) A
on_rest f (o, w) = let (result, w') = f o w in (result, (o, w'))

abbrev pub replaced {ℓ} : {O W : Type ℓ} → O → Result O → W → Result (Unit {ℓ}) × (O × W)
replaced o (ok o') w = (ok tt, (o', w))
replaced o (err e) w = (err e, (o, w))
replaced o panic w = (panic, (o, w))

abbrev pub on_object {ℓ} : {O W : Type ℓ} → (O → Exec W O) → Exec (O × W) (Unit {ℓ})
on_object f (o, w) = let (result, w') = f o w in replaced o result w'

-- A property that holds of a state holds after a continuation that keeps it.
pub continue_keeps {ℓ} :
    {S A B : Type ℓ} (P : S → Type ℓ) (r : Result A) (f : A → Exec S B) (s : S)
    → P s
    → ((a : A) (s' : S) → P s' → P (f a s').1)
    → P (continue r f s).1
continue_keeps P (ok a) f s h k = k a s h
continue_keeps P (err e) f s h k = h
continue_keeps P panic f s h k = h

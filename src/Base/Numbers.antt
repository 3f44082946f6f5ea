-- ===== src/Base/Numbers.antt =====
-- strconv.Atoi: an optional sign and decimal digits, in the range of a 64-bit `int`.
use Prim.Native.Nat.{ℕ, ◌+◌, ◌*◌, ◌-◌, ◌^◌}
use Prim.Native.Char.{code}
use Prim.Native.String.{String}
use mathlib.Core.Path.{◌≡◌, refl}
use mathlib.Core.Bool.{◌&&◌}
use mathlib.Core.Option.{Option, none, some}
use elastic_env_operator.Base.Tests.{leb, ltb, nat_eq, if◌then◌else◌}
use elastic_env_operator.Base.Int.{ℤ, pos, negsuc}

parse_digits : ℕ → String → Option ℕ
parse_digits acc String.[] = some acc
parse_digits acc (String.◌∷◌ c s) =
    let rest = parse_digits (acc * 10 + (code c - 48)) s in
    if leb b'0' (code c) && leb (code c) b'9' then rest else none

-- At least one digit.
digits : String → Option ℕ
digits String.[] = none
digits (String.◌∷◌ c s) = parse_digits 0 (String.◌∷◌ c s)

positive : ℕ → Option ℤ
positive n = if ltb n (2 ^ 63) then some (pos n) else none

negative : ℕ → Option ℤ
negative n =
    if nat_eq n 0 then some (pos 0) else if leb n (2 ^ 63) then some (negsuc (n - 1)) else none

abbrev and_then {ℓ κ} : {A : Type ℓ} {B : Type κ} → Option A → (A → Option B) → Option B
and_then none f = none
and_then (some a) f = f a

unfoldable pub atoi : String → Option ℤ
unfolding digits parse_digits positive negative
atoi String.[] = none
atoi (String.◌∷◌ c s) =
    if nat_eq (code c) b'-'
    then and_then (digits s) negative
    else if nat_eq (code c) b'+'
    then and_then (digits s) positive
    else and_then (digits (String.◌∷◌ c s)) positive

atoi_negative : atoi "-30" ≡ some (negsuc 29)
unfolding atoi
atoi_negative = refl

atoi_too_large : atoi "9223372036854775808" ≡ none
unfolding atoi
atoi_too_large = refl

atoi_no_number : atoi "30s" ≡ none
unfolding atoi
atoi_no_number = refl

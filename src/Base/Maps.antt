-- ===== src/Base/Maps.antt =====
-- Go's maps with string keys: `nil`, which reads as empty and panics when it is written to, or a
-- table of entries. The order of the entries stands for the order in which `range` visits them.
use Prim.Native.String.{String}
use mathlib.Core.Path.{◌≡◌, refl}
use mathlib.Core.Bool.{Bool, true, false}
use mathlib.Core.Option.{Option, none, some}
use mathlib.Core.List.{List, [], ◌∷◌}
use native.Mathlib.Omega.{arith}
use text.Mathlib.Text.{◌==◌}
use text.Mathlib.TextEquality.{eq_iff}
use elastic_env_operator.Base.Tests.{if◌then◌else◌}

abbrev pub Entries {ℓ} : Type ℓ → Type ℓ
Entries V = List (String × V)

module _ {ℓ} {V : Type ℓ} where
  unfoldable pub lookup : String → Entries V → Option V
  lookup key [] = none
  lookup key ((name, value) ∷ rest) = if name == key then some value else lookup key rest

  unfoldable pub insert : String → V → Entries V → Entries V
  insert key new [] = (key, new) ∷ []
  insert key new ((name, value) ∷ rest) =
      if name == key then (key, new) ∷ rest else (name, value) ∷ insert key new rest

  unfoldable pub erase : String → Entries V → Entries V
  erase k [] = []
  erase k ((j, v) ∷ m) = let rest = erase k m in if j == k then rest else (j, v) ∷ rest

  -- `for k, v := range m { r[k] = v }`. No order of the visits is promised: the last entry is
  -- visited first here, so that of two entries with one key the first counts, as in `lookup`.
  unfoldable pub set_all : Entries V → Entries V → Entries V
  set_all r [] = r
  set_all r ((k, v) ∷ m) = insert k v (set_all r m)

  abbrev pub first_of_two : Option V → Option V → Option V
  first_of_two none o = o
  first_of_two (some v) o = some v

  pub lookup-insert :
      (key other : String) (new : V) (rest : Entries V)
      → lookup other (insert key new rest) ≡ (if key == other then some new else lookup other rest)
  unfolding insert lookup
  lookup-insert key other new [] = refl
  lookup-insert key other new ((name, value) ∷ rest) = ground (
    arith,
    lookup-insert key other new rest,
    eq_iff name other,
    eq_iff name key,
    eq_iff key other,
  )

  pub lookup-erase :
      (k j : String) (m : Entries V) → lookup j (erase k m) ≡ (if k == j then none else lookup j m)
  unfolding lookup erase
  lookup-erase k j [] = ground arith
  lookup-erase k j ((i, w) ∷ m) =
      ground (arith, eq_iff k j, eq_iff i k, eq_iff i j, lookup-erase k j m)

  pub lookup-set_all :
      (j : String) (r m : Entries V)
      → lookup j (set_all r m) ≡ first_of_two (lookup j m) (lookup j r)
  unfolding lookup set_all
  lookup-set_all j r [] = refl
  lookup-set_all j r ((k, v) ∷ m) =
      ground (arith, lookup-insert k j v (set_all r m), lookup-set_all j r m)

pub data Map {ℓ} (V : Type ℓ) : Type ℓ where
  nil : Map V
  made : Entries V → Map V

module _ {ℓ} {V : Type ℓ} where
  abbrev pub entries : Map V → Entries V
  entries nil = []
  entries (made m) = m

  -- v, ok := m[k]
  abbrev pub get? : Map V → String → Option V
  get? m k = lookup k (entries m)

  -- delete(m, k)
  abbrev pub remove : Map V → String → Map V
  remove nil k = nil
  remove (made m) k = made (erase k m)

  abbrev pub is_nil : Map V → Bool
  is_nil nil = true
  is_nil (made m) = false

  -- len(m) == 0
  abbrev pub is_void : Map V → Bool
  is_void nil = true
  is_void (made []) = true
  is_void (made (e ∷ m)) = false

  -- _, ok := m[k]
  abbrev pub has : Map V → String → Bool
  has m k = elim (get? m k) [ none ↦ false | some _ ↦ true ]

-- m[k] in a map of strings: a missing key reads as "".
abbrev pub text_or_empty : Option String → String
text_or_empty none = ""
text_or_empty (some v) = v

abbrev pub index : Map String → String → String
index m k = text_or_empty (get? m k)

pub get?-remove {ℓ} :
    {V : Type ℓ} (m : Map V) (k j : String)
    → get? (remove m k) j ≡ (if k == j then none else get? m j)
unfolding lookup
get?-remove nil k j = ground arith
get?-remove (made m) k j = lookup-erase k j m

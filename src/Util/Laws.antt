-- ===== src/Util/Laws.antt =====
-- Laws of the helpers that several handlers use.
use Prim.Native.Char.{code}
use Prim.Native.String.append
use text.Mathlib.TextLemmas.{append_cancel_left}
use mathlib.Core.Path.{subst}
use elastic_env_operator.Base.{
  false, has, eq_refl, ◌≡◌, ◌↔◌, ap, ◌∙◌, inl, inr, Bool-cases, String, ◌<>◌, Map, get?, lookup,
  first_of_two, lookup-set_all, [], entries, arith, set_all, true, List, ◌∷◌, ◌==◌, eq_iff, split,
  nat_eq,
}
use elastic_env_operator.Util.{merge_string_map, contain_string, get_subset_name}

-- A key of the merged map has the value of the map that is merged in if that has the key, and of
-- the base otherwise.
pub get-merge_string_map :
    (base to_merge : Map String) (k : String)
    → get? (merge_string_map base to_merge) k ≡ first_of_two (get? to_merge k) (get? base k)
unfolding merge_string_map lookup
get-merge_string_map base to_merge k = ground (
  arith,
  lookup-set_all k (set_all [] (entries base)) (entries to_merge),
  lookup-set_all k [] (entries base),
)

-- A key that neither map has is not in the merged map.
pub has-merge_string_map :
    (base to_merge : Map String) (k : String)
    → has base k ≡ false
    → has to_merge k ≡ false
    → has (merge_string_map base to_merge) k ≡ false
has-merge_string_map base to_merge k h h' = ground (arith, get-merge_string_map base to_merge k)

pub data Member (item : String) : List String → Type 0 where
  here : (list : List String) → Member item (item ∷ list)
  there : {i : String} {list : List String} → Member item list → Member item (i ∷ list)

contain_string_sound :
    (list : List String) (item : String) → contain_string list item ≡ true → Member item list
unfolding contain_string
contain_string_sound [] item h = absurd (cc h)
contain_string_sound (i ∷ list) item h = elim (Bool-cases (i == item)) [
  | inl e ↦ subst (λ x. Member x (i ∷ list)) ((eq_iff i item).0 e) (here list)
  | inr e ↦ there (contain_string_sound list item (ground arith))
]

contain_string_complete :
    {item : String} {list : List String} → Member item list → contain_string list item ≡ true
unfolding contain_string
contain_string_complete {item} (here list) = ground (arith, eq_refl item)
contain_string_complete (there m) = ground (arith, contain_string_complete m)

-- `ContainString` finds exactly the members of the list.
pub contain_string_iff :
    (list : List String) (item : String) → (contain_string list item ≡ true) ↔ Member item list
contain_string_iff list item = (contain_string_sound list item, contain_string_complete)

-- The subsets of two planes of one service have different names.
pub get_subset_name-injective :
    (service p q : String) → get_subset_name service p ≡ get_subset_name service q → p ≡ q
unfolding get_subset_name
get_subset_name-injective service p q e =
    append_cancel_left "-" p q (append_cancel_left (split b'.' service).0 ("-" <> p) ("-" <> q) e)

-- The first piece of a text that goes on behind the separator.
split-append : (s t : String) → (split b'.' s).1 ≡ [] → (split b'.' (s <> ("." <> t))).0 ≡ s
unfolding split
split-append String.[] t h =
    ap (λ x. (split b'.' x).0) (append.nil ("." <> t) ∙ append.cons "." "" t)
split-append (String.◌∷◌ c s) t h = elim (Bool-cases (nat_eq (code c) b'.')) [
  | inl e ↦ absurd (ground arith)
  | inr e ↦
      ap (λ x. (split b'.' x).0) (append.cons c s ("." <> t))
      ∙ rw e (ap (String.◌∷◌ c) (split-append s t (ground arith)))
]

-- The subset of a service that is named with its domain is that of its first label.
pub get_subset_name-domain :
    (service domain plane : String)
    → (split b'.' service).1 ≡ []
    → get_subset_name (service <> ("." <> domain)) plane ≡ service <> ("-" <> plane)
unfolding get_subset_name
get_subset_name-domain service domain plane h =
    ap (λ x. x <> ("-" <> plane)) (split-append service domain h)

-- ===== src/Cluster/Answers.antt =====
-- A server that answers: a read finds the object or reports that it is missing, and every write is
-- accepted.
use elastic_env_operator.Base.{String, ◌≡◌, refl, true, Map, List, Result, ok, err, panic, EndsWell}
use elastic_env_operator.Cluster.{Resource, unless_missing, or_none_listed, get_or_new, list_into}

-- An answer, or the error that nothing is there.
abbrev pub IsAnswer : {A : Type 0} → Result A → Type 0
IsAnswer (ok a) = Unit
IsAnswer (err e) = e.is_not_found ≡ true
IsAnswer panic = ⊥

pub record Answers {W O : Type 0} (r : Resource W O) : Type 0 where
  pub get : (namespace name : String) (w : W) → IsAnswer (r.get namespace name w)
  pub list :
      (namespace : String) (labels : Map String) (w : W) → IsAnswer (r.list namespace labels w)
  pub create : (o : O) → EndsWell (r.create o)
  pub update : (o : O) → EndsWell (r.update o)
  pub update_status : (o : O) → EndsWell (r.update_status o)
  pub delete : (o : O) (w : W) → IsAnswer (r.delete o w).0

unless_missing_answered :
    {O : Type 0} (found : Result O) (blank : O)
    → IsAnswer found
    → (o : O) × (unless_missing found blank ≡ ok o)
unless_missing_answered (ok o) blank h = (o, refl)
unless_missing_answered (err e) blank h = (blank, rw h refl)
unless_missing_answered panic blank h = elim h [ ]

or_none_listed_answered :
    {O : Type 0} (listed : Result (List O)) (before : List O)
    → IsAnswer listed
    → (os : List O) × (or_none_listed listed before ≡ ok os)
or_none_listed_answered (ok os) before h = (os, refl)
or_none_listed_answered (err e) before h = (before, rw h refl)
or_none_listed_answered panic before h = elim h [ ]

module _ {W O : Type 0} (r : Resource W O) (answers : Answers r) where
  pub get_or_new-EndsWell :
      (namespace name : String) (blank : O) → EndsWell (get_or_new r namespace name blank)
  unfolding get_or_new
  get_or_new-EndsWell namespace name blank w =
      unless_missing_answered (r.get namespace name w) blank (answers.get namespace name w)

  pub list_into-EndsWell :
      (namespace : String) (labels : Map String) (before : List O)
      → EndsWell (list_into r namespace labels before)
  unfolding list_into
  list_into-EndsWell namespace labels before w =
      or_none_listed_answered (r.list namespace labels w) before (answers.list namespace labels w)

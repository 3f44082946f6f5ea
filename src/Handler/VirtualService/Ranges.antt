-- ===== src/Handler/VirtualService/Ranges.antt =====
-- The order in which `range` visits the keys of a map: any order, and a new one each time.
use elastic_env_operator.Base.{String, List, [], ◌∷◌, All}

-- A key of a list, and the others.
pub data Picks (p : String) : List String → List String → Type 0 where
  here : {ps : List String} → Picks p (p ∷ ps) ps
  later : {q : String} {ps rest : List String} → Picks p ps rest → Picks p (q ∷ ps) (q ∷ rest)

-- Every key is visited once.
pub data Visits : List String → List String → Type 0 where
  done : Visits [] []
  visit :
      {p : String} {ps rest order : List String}
      → Picks p ps rest
      → Visits rest order
      → Visits ps (p ∷ order)

-- What one loop makes of the keys.
pub record Range : Type 0 where
  pub order : List String → List String
  pub visits : (keys : List String) → Visits keys (order keys)

Picks-All :
    (P : String → Type 0) {p : String} {ps rest : List String}
    → Picks p ps rest
    → All P ps
    → P p × All P rest
Picks-All P here h = h
Picks-All P (later picks) h = let (first, others) = Picks-All P picks h.1 in (first, (h.0, others))

-- What holds of all keys holds of those that are visited.
pub Visits-All :
    (P : String → Type 0) {ps order : List String} → Visits ps order → All P ps → All P order
Visits-All P done h = tt
Visits-All P (visit picks rest) h =
    let (first, others) = Picks-All P picks h in (first, Visits-All P rest others)

pub Visits-same : (ps : List String) → Visits ps ps
Visits-same [] = done
Visits-same (p ∷ ps) = visit here (Visits-same ps)

abbrev pub as_is : Range
as_is = record { order = λ ps. ps; visits = Visits-same }

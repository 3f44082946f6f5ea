-- ===== src/Entity/ConfigMap/Lifecycle.antt =====
-- The life of the configuration: loads of the config map and timers that run out.
use elastic_env_operator.Base.{
  inr, inl, [], Bool-cases, no_items, false, ◌≡◌, refl, true, ℤ, List, ◌∷◌, Map, String, arith,
}
use elastic_env_operator.Entity.ConfigMap.{Json, SqbConfigMapEntity, new_entity, from_map, fire}

pub data Step (json : Json) : SqbConfigMapEntity → SqbConfigMapEntity → Type 0 where
  load : (m : Map String) (sc : SqbConfigMapEntity) → Step json sc (from_map json m sc)
  ring :
      (sc : SqbConfigMapEntity) (delay : ℤ) (rest : List ℤ)
      → sc.timers ≡ delay ∷ rest
      → Step json sc (fire sc rest)

pub data Reach (json : Json) : SqbConfigMapEntity → Type 0 where
  start : Reach json new_entity
  next : {sc sc' : SqbConfigMapEntity} → Reach json sc → Step json sc sc' → Reach json sc'

-- Before the first load no timer runs and nothing is ready; after it the operator is ready, or a
-- timer runs that will make it so.
pub record IsLive (sc : SqbConfigMapEntity) : Type 0 where
  pub asleep : sc.initialized ≡ false → (sc.ready ≡ false) × (no_items sc.timers ≡ true)
  pub awake : sc.initialized ≡ true → sc.ready ≡ false → no_items sc.timers ≡ false

Step-IsLive :
    {json : Json} {sc sc' : SqbConfigMapEntity} → Step json sc sc' → IsLive sc → IsLive sc'
unfolding from_map fire
Step-IsLive (load m sc) h = ground arith
Step-IsLive (ring sc delay rest e) h = record {
  asleep = λ i. absurd (cc ((h.asleep i).1, e));
  awake = λ i r. cc;
}

Reach-IsLive : {json : Json} {sc : SqbConfigMapEntity} → Reach json sc → IsLive sc
Reach-IsLive start = ground arith
Reach-IsLive (next r s) = Step-IsLive s (Reach-IsLive r)

-- In every state that loads and timers reach, the operator is ready only if the configuration was
-- loaded.
pub ready-initialized :
    {json : Json} {sc : SqbConfigMapEntity}
    → Reach json sc
    → sc.ready ≡ true
    → sc.initialized ≡ true
ready-initialized {sc} r h = elim (Bool-cases sc.initialized) [
  | inl e ↦ e
  | inr e ↦ absurd (cc (((Reach-IsLive r).asleep e).0, h))
]

first_timer :
    (timers : List ℤ)
    → no_items timers ≡ false
    → (delay : ℤ) × (rest : List ℤ) × (timers ≡ delay ∷ rest)
first_timer [] h = absurd (cc h)
first_timer (delay ∷ rest) h = (delay, rest, refl)

-- From every reachable state in which the configuration is loaded, with whatever data, and the
-- operator is not ready, the end of a timer that runs makes it ready, and changes nothing of the
-- configuration.
pub becomes_ready :
    {json : Json} {sc : SqbConfigMapEntity}
    → Reach json sc
    → sc.initialized ≡ true
    → sc.ready ≡ false
    → (sc' : SqbConfigMapEntity) × Step json sc sc' × (sc'.ready ≡ true) × (sc'.config ≡ sc.config)
unfolding fire
becomes_ready {sc} r i n =
    let (delay, rest, e) = first_timer sc.timers ((Reach-IsLive r).awake i n) in
    (fire sc rest, ring sc delay rest e, refl, refl)

-- No step takes readiness or the loaded configuration away.
pub Step-stays_ready :
    {json : Json} {sc sc' : SqbConfigMapEntity}
    → Step json sc sc'
    → sc.initialized ≡ true
    → (sc'.initialized ≡ true) × (sc.ready ≡ true → sc'.ready ≡ true)
unfolding from_map fire
Step-stays_ready (load m sc) i = (refl, λ r. r)
Step-stays_ready (ring sc delay rest e) i = (i, λ r. refl)

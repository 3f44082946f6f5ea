-- ===== src/Tests/Configuration.antt =====
-- A configuration that is loaded, waited for and loaded again.
use elastic_env_operator.Entity.ConfigMap.Locks.Laws.{single_locks_go_on}
use elastic_env_operator.Base.{inl, inr, ◌≡◌, refl, String, true, none, some, [], ◌∷◌, ℕ, Map, made}
use elastic_env_operator.Entity.ConfigMap.{SqbConfigMapEntity, new_entity, from_map, load_data}
use elastic_env_operator.Entity.ConfigMap.Laws.{IsWellFormed, load_data-IsWellFormed}
use elastic_env_operator.Entity.ConfigMap.Lifecycle.{Step, Reach, start, next, load, becomes_ready}
use elastic_env_operator.Entity.ConfigMap.Locks.{
  LockState, acquire, unlock, waiting, r_unlock, run, step, idle, stuck, get_domain_names_locks,
  get_domain_name_by_class_locks, from_map_locks, get_domain_name_by_class_deadlocks,
}
use elastic_env_operator.Tests.Fixtures.{json}

abbrev settings : Map String
settings = made (("istioEnable", "true") ∷ ("baseFlag", "base") ∷ [])

load_data-IsWellFormed_example : IsWellFormed (load_data json settings new_entity.config)
load_data-IsWellFormed_example = load_data-IsWellFormed json settings new_entity.config

loaded_once : Reach json (from_map json settings new_entity)
loaded_once = next start (load settings new_entity)

becomes_ready_example :
    (sc' : SqbConfigMapEntity) × Step json (from_map json settings new_entity) sc'
    × (sc'.ready ≡ true)
    × (sc'.config ≡ (from_map json settings new_entity).config)
unfolding from_map
becomes_ready_example = becomes_ready loaded_once refl refl

get_domain_name_by_class_deadlocks_example :
    (run
        (0 ∷ 1 ∷ [])
        (idle (get_domain_name_by_class_locks ∷ from_map_locks ∷ get_domain_names_locks ∷ []))
      ≡ some (stuck (get_domain_names_locks ∷ [])))
    × ((i : ℕ) → step i (stuck (get_domain_names_locks ∷ [])) ≡ none)
unfolding get_domain_names_locks
get_domain_name_by_class_deadlocks_example =
    get_domain_name_by_class_deadlocks (get_domain_names_locks ∷ []) refl

abbrev halfway : LockState
halfway = record {
  mutex = record { readers = 1; writer = waiting };
  goroutines = (r_unlock ∷ []) ∷ (acquire ∷ unlock ∷ []) ∷ [];
}

single_locks_go_on_example : (i : ℕ) × (s' : LockState) × (step i halfway ≡ some s')
unfolding run step get_domain_names_locks from_map_locks
single_locks_go_on_example =
    single_locks_go_on (get_domain_names_locks ∷ from_map_locks ∷ []) (0 ∷ 1 ∷ []) halfway
      (inl refl, (inr refl, tt)) refl refl

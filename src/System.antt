-- ===== src/System.antt =====
-- The operator as a whole: requests of all controllers, loads of the config map and the ends of its
-- timers, in any order, beside what others do to the cluster.
pub mod Laws
use elastic_env_operator.Base.{String, List, ◌∷◌, ◌≡◌, Map, Result, ℤ}
use elastic_env_operator.Entity.ConfigMap.{SqbConfigMapEntity, new_entity, fire}
use elastic_env_operator.Operator.{Operator}
use elastic_env_operator.Controllers.{reconcile_config_map}
use elastic_env_operator.Controllers.Requests.{Request, reconcile}

-- The operator while a configuration is in force.
abbrev pub with_config : Operator → SqbConfigMapEntity → Operator
with_config op sc = record op { config = sc }

module _ (op : Operator) where
  abbrev pub State : Type 0
  State = op.World × SqbConfigMapEntity

  -- The requests that come, by the configuration and the cluster that they meet, and what others do.
  module _ (Comes : SqbConfigMapEntity → Request → op.World → Type 0)
      (Others : op.World → op.World → Type 0) where
    pub data Step : State → State → Type 0 where
      request :
          (r : Request) (w : op.World) (sc : SqbConfigMapEntity)
          → Comes sc r w
          → Step (w, sc) ((reconcile (with_config op sc) r w).1, sc)
      -- The reconciliation of the config map, by what its read gave.
      load :
          (read : Result (Map String)) (w : op.World) (sc : SqbConfigMapEntity)
          → Step (w, sc) (w, (reconcile_config_map op.json read sc).1)
      -- The goroutine that waits for a timer.
      ring :
          (w : op.World) (sc : SqbConfigMapEntity) (delay : ℤ) (rest : List ℤ)
          → sc.timers ≡ delay ∷ rest
          → Step (w, sc) (w, fire sc rest)
      others : (w w' : op.World) (sc : SqbConfigMapEntity) → Others w w' → Step (w, sc) (w', sc)

    -- The states that a run reaches from a cluster, when the operator has just started.
    pub data Run (w : op.World) : State → Type 0 where
      start : Run w (w, new_entity)
      next : {s t : State} → Run w s → Step s t → Run w t

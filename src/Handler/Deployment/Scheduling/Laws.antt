-- ===== src/Handler/Deployment/Scheduling/Laws.antt =====
-- Laws of the scheduling of the pods of a deployment.
use elastic_env_operator.Base.{
  ℕ, ◌*◌, ◌≡◌, refl, ap, String, ◌==◌, Option, none, some, ℤ, pos, arith, Bool-cases, inl, inr,
}
use elastic_env_operator.Api.Core.{Probe, IntOrString}
use elastic_env_operator.Api.Types.{NodeAffinity}
use elastic_env_operator.Kinds.Workload.{Affinity, PodAntiAffinity, Strategy, RollingUpdate}
use elastic_env_operator.Handler.Deployment.Scheduling.{
  add_node_affinity, or_existing, add_pod_anti_affinity, rolling_update_of, config_rolling_update,
}

or_existing_idem :
    (old : Option PodAntiAffinity) (new : PodAntiAffinity)
    → or_existing (some (or_existing old new)) new ≡ or_existing old new
unfolding or_existing
or_existing_idem none new = refl
or_existing_idem (some old) new = refl

-- A later reconcile with the same specification leaves the affinity that an earlier one wrote.
pub affinity_idem :
    (app : String) (a : Option NodeAffinity) (found : Option Affinity)
    → add_pod_anti_affinity app
        (add_node_affinity a (add_pod_anti_affinity app (add_node_affinity a found)))
      ≡ add_pod_anti_affinity app (add_node_affinity a found)
unfolding add_pod_anti_affinity add_node_affinity or_existing
affinity_idem app (some a) (some old) = refl
affinity_idem app (some a) none = refl
affinity_idem app none (some old) = refl
affinity_idem app none none = refl

abbrev pub pos_value : ℤ → ℕ
pos_value (pos n) = n
pos_value _ = 0

-- The seconds for which a probe may fail before the pod is given up: a period for each failure.
abbrev pub seconds_of : Probe → ℕ
seconds_of p = pos_value p.failure_threshold * pos_value p.period_seconds

rolling_update_of_idem :
    (text : Option IntOrString → String) (r : Option RollingUpdate)
    → rolling_update_of text (rolling_update_of text r) ≡ rolling_update_of text r
unfolding rolling_update_of
rolling_update_of_idem text none = ground arith
rolling_update_of_idem text (some r) = ground arith

-- A later reconcile leaves the strategy that an earlier one wrote, whatever text the percentage or
-- number of unavailable pods prints as.
pub config_rolling_update_idem :
    (text : Option IntOrString → String) (s : Strategy)
    → config_rolling_update text (config_rolling_update text s) ≡ config_rolling_update text s
unfolding config_rolling_update
config_rolling_update_idem text s = elim (Bool-cases (s.type == "RollingUpdate")) [
  | inl e ↦
      rw (e, e)
        (ap (λ r. record s { rolling_update = r }) (rolling_update_of_idem text s.rolling_update))
  | inr e ↦ rw (e, e) refl
]

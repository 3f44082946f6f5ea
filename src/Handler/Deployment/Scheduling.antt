-- ===== src/Handler/Deployment/Scheduling.antt =====
-- deployment_handler.go: the parts of a deployment that say where and how its pods run.
pub mod Laws
use elastic_env_operator.Base.{
  ℕ, ◌+◌, ◌*◌, ◌/◌, ◌≤◌, ◌<◌, String, ◌<>◌, Bool, true, false, ◌==◌, Option, none, some, List, [],
  ◌∷◌, map, no_items, ℤ, pos, max_ℕ, Map, index, is_empty, if◌then◌else◌,
}
use elastic_env_operator.Api.Core.{Probe, NodeSelectorRequirement, IntOrString}
use elastic_env_operator.Api.Types.{NodeAffinity, NodeSelector, SqbDeployment}
use elastic_env_operator.Entity.Keys.{app_key, group_key}
use elastic_env_operator.Kinds.Workload.{
  Container, CoreNodeAffinity, PreferredTerm, PodAntiAffinity, Affinity, Strategy, RollingUpdate,
}

requirement_of : NodeSelector → NodeSelectorRequirement
requirement_of s = s.node_selector_requirement

preferred_of : NodeSelector → PreferredTerm
preferred_of s = record { weight = s.weight; preference = s.node_selector_requirement }

node_affinity_of : NodeAffinity → CoreNodeAffinity
unfolding requirement_of preferred_of
node_affinity_of a = record {
  required = if no_items a.require then none else some (map requirement_of a.require);
  preferred = map preferred_of a.prefer;
}

-- addNodeAffinity: the pod's affinity after it
unfoldable pub add_node_affinity : Option NodeAffinity → Option Affinity → Option Affinity
unfolding node_affinity_of
add_node_affinity (some a) (some old) =
    some (record old { node_affinity = some (node_affinity_of a) })
add_node_affinity (some a) none =
    some (record { node_affinity = some (node_affinity_of a); pod_anti_affinity = none })
add_node_affinity none (some old) = some (record old { node_affinity = none })
add_node_affinity none none = none

anti_affinity_to : String → PodAntiAffinity
anti_affinity_to app = record {
  weight = pos 100;
  requirement = record { key = app_key; operator = "In"; values = app ∷ [] };
  topology_key = "kubernetes.io/hostname";
}

or_existing : Option PodAntiAffinity → PodAntiAffinity → PodAntiAffinity
or_existing none new = new
or_existing (some old) new = old

-- addPodAntiAffinity, for the application's label of the pod template
unfoldable pub add_pod_anti_affinity : String → Option Affinity → Option Affinity
unfolding anti_affinity_to or_existing
add_pod_anti_affinity app (some old) = some (record old {
  pod_anti_affinity = some (or_existing old.pod_anti_affinity (anti_affinity_to app));
})
add_pod_anti_affinity app none =
    some (record { node_affinity = none; pod_anti_affinity = some (anti_affinity_to app) })

-- The startup probe of a health check: its failure threshold covers the initial delay, and at least
-- 180 seconds.
unfoldable pub startup_probe_of : Probe → Probe
startup_probe_of p = record {
  handler = p.handler;
  initial_delay_seconds = p.initial_delay_seconds;
  timeout_seconds = p.timeout_seconds;
  period_seconds = pos 10;
  success_threshold = pos 1;
  failure_threshold = pos (max_ℕ p.initial_delay_seconds 180 / 10);
}

abbrev pub delayed : Probe → Probe
delayed p = record p { initial_delay_seconds = pos 10 }

-- addStartupProbe, on the container
unfoldable pub add_startup_probe : Option Probe → Container → Container
unfolding startup_probe_of
add_startup_probe (some p) c = record c {
  liveness_probe = some (delayed p);
  readiness_probe = some (delayed p);
  startup_probe = some (startup_probe_of p);
}
add_startup_probe none c = record c {
  liveness_probe = none;
  readiness_probe = none;
  startup_probe = none;
}

delayed_probe : Option Probe → Option Probe
delayed_probe none = none
delayed_probe (some p) = some (delayed p)

-- addStartupProbe, on the SQBDeployment, whose health check is the probe of the container
unfoldable pub delayed_health_check : SqbDeployment → SqbDeployment
unfolding delayed_probe
delayed_health_check d = record d {
  spec = record d.spec {
    deploy_spec = record d.spec.deploy_spec { health_check = delayed_probe d.spec.health_check };
  };
}

-- addVaultConfig: the name of the service account
unfoldable pub service_account_of : Map String → String
service_account_of labels =
    let group = index labels group_key in
    if is_empty group then "default" else "sqb-" <> (group <> "-vault-sa")

abbrev zero_unavailable : IntOrString
zero_unavailable = record { is_string = false; int_val = pos 0; str_val = "" }

rolling_update_of : (Option IntOrString → String) → Option RollingUpdate → Option RollingUpdate
rolling_update_of text none = some (record { max_unavailable = some zero_unavailable })
rolling_update_of text (some r) =
    if text r.max_unavailable == "25%"
    then some (record { max_unavailable = some zero_unavailable })
    else some r

-- configRollingUpdate, where `text` prints an integer or a string
unfoldable pub config_rolling_update : (Option IntOrString → String) → Strategy → Strategy
unfolding rolling_update_of
config_rolling_update text s =
    if s.type == "RollingUpdate"
    then record s { rolling_update = rolling_update_of text s.rolling_update }
    else s

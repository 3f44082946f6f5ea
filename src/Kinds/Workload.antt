-- ===== src/Kinds/Workload.antt =====
-- Deployments, with the parts of the pod template that the operator sets.
use elastic_env_operator.Base.{String, List, [], ℤ, Option, none, Map, nil}
use elastic_env_operator.Api.Meta.{ObjectMeta, RuntimeObj, named}
use elastic_env_operator.Api.Core.{
  Raw, Probe, ResourceRequirements, CoreLifecycle, NodeSelectorRequirement, IntOrString,
}

pub record ContainerPort : Type 0 where
  pub name : String
  pub container_port : ℤ
  pub protocol : String

pub record VolumeMount : Type 0 where
  pub name : String
  pub mount_path : String

pub record DownwardApiVolumeFile : Type 0 where
  pub path : String
  pub field_path : String

pub data VolumeSource : Type 0 where
  empty_dir : VolumeSource
  host_path : String → VolumeSource
  config_map : String → VolumeSource
  secret : String → VolumeSource
  claim : String → VolumeSource
  downward_api : List DownwardApiVolumeFile → VolumeSource

pub record Volume : Type 0 where
  pub name : String
  pub source : VolumeSource

pub record Container : Type 0 where
  pub name : String
  pub image : String
  pub image_pull_policy : String
  pub command : List String
  pub args : List String
  pub env : List Raw
  pub ports : List ContainerPort
  pub volume_mounts : List VolumeMount
  pub resources : ResourceRequirements
  pub lifecycle : Option CoreLifecycle
  pub liveness_probe : Option Probe
  pub readiness_probe : Option Probe
  pub startup_probe : Option Probe

-- A node selector term holds one requirement here, which is all that the operator writes.
pub record PreferredTerm : Type 0 where
  pub weight : ℤ
  pub preference : NodeSelectorRequirement

pub record CoreNodeAffinity : Type 0 where
  pub required : Option (List NodeSelectorRequirement)
  pub preferred : List PreferredTerm

-- The term of the anti-affinity that the operator writes: weight, label key, operator, values and
-- topology.
pub record PodAntiAffinity : Type 0 where
  pub weight : ℤ
  pub requirement : NodeSelectorRequirement
  pub topology_key : String

pub record Affinity : Type 0 where
  pub node_affinity : Option CoreNodeAffinity
  pub pod_anti_affinity : Option PodAntiAffinity

pub record PodSpec : Type 0 where
  pub volumes : List Volume
  pub host_aliases : List Raw
  pub containers : List Container
  pub init_containers : List Container
  pub image_pull_secrets : List String
  pub service_account_name : String
  pub affinity : Option Affinity

pub record PodTemplate : Type 0 where
  pub labels : Map String
  pub annotations : Map String
  pub spec : PodSpec

-- The rolling update's `MaxUnavailable`, which may be absent.
pub record RollingUpdate : Type 0 where
  pub max_unavailable : Option IntOrString

pub record Strategy : Type 0 where
  pub type : String
  pub rolling_update : Option RollingUpdate

pub record DeploymentSpec : Type 0 where
  pub replicas : Option ℤ
  pub selector : Option (Map String)
  pub template : PodTemplate
  pub strategy : Strategy

pub record Deployment : Type 0 where
  pub metadata : ObjectMeta
  pub spec : DeploymentSpec

instance abbrev pub deployment_obj : RuntimeObj Deployment
deployment_obj = record { meta = λ d. d.metadata }

abbrev pub new_pod_spec : PodSpec
new_pod_spec = record {
  volumes = [];
  host_aliases = [];
  containers = [];
  init_containers = [];
  image_pull_secrets = [];
  service_account_name = "";
  affinity = none;
}

abbrev pub new_deployment_spec : DeploymentSpec
new_deployment_spec = record {
  replicas = none;
  selector = none;
  template = record { labels = nil; annotations = nil; spec = new_pod_spec };
  strategy = record { type = ""; rolling_update = none };
}

abbrev pub new_deployment : String → String → Deployment
new_deployment namespace name = record {
  metadata = named namespace name;
  spec = new_deployment_spec;
}

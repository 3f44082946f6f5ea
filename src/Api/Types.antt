-- ===== src/Api/Types.antt =====
-- sqbapplication_types.go, sqbdeployment_types.go, sqbplane_types.go: the custom resources. A
-- pointer that may be nil is an `Option`, and so is a list where the code tells nil from empty.
use elastic_env_operator.Base.{ℕ, String, Bool, List, ℤ, Option, Map}
use elastic_env_operator.Api.Meta.{ObjectMeta, RuntimeObj}
use elastic_env_operator.Api.Core.{
  Raw, ServicePort, ResourceRequirements, Probe, ExecAction, NodeSelectorRequirement, CoreLifecycle,
}

pub record Domain : Type 0 where
  pub class : String
  pub annotation : Map String
  pub host : String

pub record Subpath : Type 0 where
  pub path : String
  pub service_name : String
  pub service_port : ℤ

pub record IngressSpec : Type 0 where
  pub domains : List Domain
  pub subpaths : List Subpath

pub record ServiceSpec : Type 0 where
  pub ports : List ServicePort

pub record DownwardApiFile : Type 0 where
  pub file_name : String
  pub field_path : String

pub record VolumeSpec : Type 0 where
  pub mount_path : String
  pub host_path : String
  pub config_map : String
  pub secret : String
  pub empty_dir : Bool
  pub persistent_volume_claim : Bool
  pub persistent_volume_claim_name : String
  pub downward_api : Option (List DownwardApiFile)

pub record NodeSelector : Type 0 where
  pub weight : ℤ
  pub node_selector_requirement : NodeSelectorRequirement
  pub open node_selector_requirement use *

pub record NodeAffinity : Type 0 where
  pub require : List NodeSelector
  pub prefer : List NodeSelector

pub record InitHandler : Type 0 where
  pub exec : Option ExecAction

pub record Lifecycle : Type 0 where
  pub init : Option InitHandler
  pub core_lifecycle : CoreLifecycle
  pub open core_lifecycle use *

pub record DeploySpec : Type 0 where
  pub replicas : Option ℤ
  pub image : String
  pub command : List String
  pub args : List String
  pub host_alias : List Raw
  pub resources : Option ResourceRequirements
  pub env : List Raw
  pub health_check : Option Probe
  pub volumes : List VolumeSpec
  pub node_affinity : Option NodeAffinity
  pub lifecycle : Option Lifecycle

pub record SqbApplicationSpec : Type 0 where
  pub ingress_spec : IngressSpec
  pub open ingress_spec use *
  pub service_spec : ServiceSpec
  pub open service_spec use *
  pub deploy_spec : DeploySpec
  pub open deploy_spec use *

pub record SqbApplicationStatus : Type 0 where
  pub planes : Map ℕ
  pub mirrors : Map ℕ
  pub error_info : String

pub record SqbApplication : Type 0 where
  pub metadata : ObjectMeta
  pub open metadata use *
  pub spec : SqbApplicationSpec
  pub status : SqbApplicationStatus

pub record Selector : Type 0 where
  pub app : String
  pub plane : String

pub record SqbDeploymentSpec : Type 0 where
  pub selector : Selector
  pub deploy_spec : DeploySpec
  pub open deploy_spec use *

pub record SqbDeploymentStatus : Type 0 where
  pub error_info : String

pub record SqbDeployment : Type 0 where
  pub metadata : ObjectMeta
  pub open metadata use *
  pub spec : SqbDeploymentSpec
  pub status : SqbDeploymentStatus

pub record SqbPlaneSpec : Type 0 where
  pub description : String

pub record SqbPlaneStatus : Type 0 where
  pub mirrors : Map ℕ
  pub error_info : String

pub record SqbPlane : Type 0 where
  pub metadata : ObjectMeta
  pub open metadata use *
  pub spec : SqbPlaneSpec
  pub status : SqbPlaneStatus

instance abbrev pub sqb_application_obj : RuntimeObj SqbApplication
sqb_application_obj = record { meta = λ a. a.metadata }

instance abbrev pub sqb_deployment_obj : RuntimeObj SqbDeployment
sqb_deployment_obj = record { meta = λ d. d.metadata }

instance abbrev pub sqb_plane_obj : RuntimeObj SqbPlane
sqb_plane_obj = record { meta = λ p. p.metadata }

-- The metadata with other labels and annotations, and a resource with other annotations.
abbrev pub with_annotations : SqbDeployment → Map String → SqbDeployment
with_annotations d m = record d { metadata = record d.metadata { annotations = m } }

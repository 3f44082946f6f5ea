-- ===== src/Api/Merge.antt =====
-- util.go of api/v1alpha1, and the `Merge` methods of the custom resources. A method that changes
-- its receiver returns the new receiver.
pub mod Laws
use elastic_env_operator.Base.{
  String, Option, none, some, List, no_items, Map, made, entries, set_all, [], is_empty,
  if◌then◌else◌,
}
use elastic_env_operator.Api.Meta.{ObjectMeta}
use elastic_env_operator.Api.Types.{
  DeploySpec, SqbApplication, SqbApplicationSpec, SqbDeployment, SqbPlane,
}

-- MergeStringMap of api/v1alpha1/util.go
unfoldable pub merge_string_map : Map String → Map String → Map String
merge_string_map base to_merge = made (set_all (set_all [] (entries base)) (entries to_merge))

abbrev pub merge_metadata : ObjectMeta → ObjectMeta → ObjectMeta
unfolding merge_string_map
merge_metadata old news = record old {
  annotations = merge_string_map old.annotations news.annotations;
  labels = merge_string_map old.labels news.labels;
}

abbrev if_set {ℓ} : {A : Type ℓ} → Option A → Option A → Option A
if_set (some a) old = some a
if_set none old = old

-- func (old *DeploySpec) merge
unfoldable pub merge_deploy_spec : DeploySpec → DeploySpec → DeploySpec
merge_deploy_spec old news = record {
  replicas = if_set news.replicas old.replicas;
  image = if is_empty news.image then old.image else news.image;
  command = if no_items news.command then old.command else news.command;
  args = if no_items news.args then old.args else news.args;
  host_alias = if no_items news.host_alias then old.host_alias else news.host_alias;
  resources = if_set news.resources old.resources;
  env = if no_items news.env then old.env else news.env;
  health_check = news.health_check;
  volumes = if no_items news.volumes then old.volumes else news.volumes;
  node_affinity = if_set news.node_affinity old.node_affinity;
  lifecycle = news.lifecycle;
}

-- func (old *SQBApplication) Merge
unfoldable pub merge_sqb_application : SqbApplication → SqbApplication → SqbApplication
unfolding merge_deploy_spec
merge_sqb_application old news = record old {
  metadata = merge_metadata old.metadata news.metadata;
  spec = record {
    ingress_spec = record { domains = news.spec.domains; subpaths = news.spec.subpaths };
    service_spec = record { ports = news.spec.ports };
    deploy_spec = merge_deploy_spec old.spec.deploy_spec news.spec.deploy_spec;
  };
}

-- func (old *SQBDeployment) Merge
unfoldable pub merge_sqb_deployment : SqbDeployment → SqbDeployment → SqbDeployment
unfolding merge_deploy_spec
merge_sqb_deployment old news = record old {
  metadata = merge_metadata old.metadata news.metadata;
  spec = record old.spec {
    deploy_spec = merge_deploy_spec old.spec.deploy_spec news.spec.deploy_spec;
  };
}

-- func (old *SQBPlane) Merge
unfoldable pub merge_sqb_plane : SqbPlane → SqbPlane → SqbPlane
merge_sqb_plane old news = record old {
  metadata = merge_metadata old.metadata news.metadata;
  spec = news.spec;
}

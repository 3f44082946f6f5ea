-- ===== src/Handler/Deployment/Template.antt =====
-- deployment_handler.go: the deployment that `CreateOrUpdate` makes of an application, an
-- SQBDeployment and the deployment that it found.
pub mod Laws
use elastic_env_operator.Base.{
  String, ◌==◌, ◌||◌, not, Bool, true, false, Option, none, some, List, [], ◌∷◌, map, Map, nil,
  made, get?, index, remove, is_empty, Result, ok, err, panic, if◌then◌else◌,
}
use elastic_env_operator.Api.Core.{ServicePort, ResourceRequirements, CoreLifecycle}
use elastic_env_operator.Api.Types.{Lifecycle, InitHandler, SqbApplication, SqbDeployment}
use elastic_env_operator.Entity.Keys.{
  app_key, pod_annotation_key, deployment_annotation_key, istio_sidecar_inject_key,
  istio_inject_annotation_key, finalizer,
}
use elastic_env_operator.Entity.ConfigMap.{init_container_image, get_image_pull_secrets}
use elastic_env_operator.Util.{merge_string_map}
use elastic_env_operator.Kinds.Workload.{
  ContainerPort, VolumeMount, Container, PodSpec, PodTemplate, Deployment, DeploymentSpec,
}
use elastic_env_operator.Operator.{Operator}
use elastic_env_operator.Handler.Service.{passed_through}
use elastic_env_operator.Handler.Deployment.Volumes.{get_volume_and_volume_mounts}
use elastic_env_operator.Handler.Deployment.Scheduling.{
  add_node_affinity, add_pod_anti_affinity, add_startup_probe, service_account_of,
  config_rolling_update,
}

port_of : ServicePort → ContainerPort
port_of p = record { name = p.name; container_port = p.target_port.int_val; protocol = p.protocol }

-- The mounts of the container: all but the one at /etc/podinfo.
container_mounts : List VolumeMount → List VolumeMount
container_mounts [] = []
container_mounts (m ∷ ms) =
    let rest = container_mounts ms in if m.mount_path == "/etc/podinfo" then rest else m ∷ rest

resources_or_none : Option ResourceRequirements → ResourceRequirements
resources_or_none none = record { limits = ""; requests = "" }
resources_or_none (some r) = r

lifecycle_of : Option Lifecycle → Option CoreLifecycle
lifecycle_of none = none
lifecycle_of (some l) = some (record { post_start = l.post_start; pre_stop = l.pre_stop })

-- The business container.
unfoldable pub container_of : SqbApplication → SqbDeployment → Container
unfolding port_of container_mounts resources_or_none lifecycle_of get_volume_and_volume_mounts
container_of app d = record {
  name = d.name;
  image = d.spec.image;
  image_pull_policy = "";
  command = d.spec.command;
  args = d.spec.args;
  env = d.spec.env;
  ports = map port_of app.spec.ports;
  volume_mounts = container_mounts (get_volume_and_volume_mounts d.spec.volumes).1;
  resources = resources_or_none d.spec.resources;
  lifecycle = lifecycle_of d.spec.lifecycle;
  liveness_probe = d.spec.health_check;
  readiness_probe = d.spec.health_check;
  startup_probe = none;
}

-- `deploy.Lifecycle.Init`, where there is a lifecycle
unfoldable pub init_of : Option Lifecycle → Option InitHandler
init_of none = none
init_of (some l) = l.init

init_container : SqbDeployment → String → List String → Container
unfolding get_volume_and_volume_mounts
init_container d image command = record {
  name = "init0";
  image = image;
  image_pull_policy = "IfNotPresent";
  command = command;
  args = [];
  env = d.spec.env;
  ports = [];
  volume_mounts = (get_volume_and_volume_mounts d.spec.volumes).1;
  resources = resources_or_none none;
  lifecycle = none;
  liveness_probe = none;
  readiness_probe = none;
  startup_probe = none;
}

image_or_busybox : String → String
image_or_busybox image = if is_empty image then "busybox:1.32" else image

-- The init containers: those that were found stay unless one is asked for. A handler with no `exec`
-- makes the code read through a nil pointer.
unfoldable pub init_containers_of :
    String → SqbDeployment → List Container → Result (List Container)
unfolding init_of init_container image_or_busybox resources_or_none
init_containers_of image d found = elim (init_of d.spec.lifecycle) [
  | none ↦ if is_empty image then ok found else ok (init_container d image [] ∷ [])
  | some handler ↦ elim handler.exec [
    | none ↦ panic
    | some action ↦ ok (init_container d (image_or_busybox image) action.command ∷ [])
  ]
]

selector_or_app : Option (Map String) → String → Map String
selector_or_app none app = made ((app_key, app) ∷ [])
selector_or_app (some m) app = m

abbrev pub injected : String
injected = "sidecar.jaegertracing.io/injected"

abbrev inject : String
inject = "sidecar.jaegertracing.io/inject"

abbrev inject_of : SqbDeployment → Map String
inject_of d =
    made ((istio_sidecar_inject_key, index d.annotations istio_inject_annotation_key) ∷ [])

-- The deployment, with its init containers.
unfoldable pub desired_with :
    Operator → SqbApplication → SqbDeployment → Deployment → List Container → Deployment
unfolding merge_string_map selector_or_app container_of get_volume_and_volume_mounts
    get_image_pull_secrets add_startup_probe add_pod_anti_affinity add_node_affinity
    service_account_of config_rolling_update
desired_with op app d dep init_containers =
    let labels : Map String = merge_string_map dep.metadata.labels d.labels in
    let selector : Map String = selector_or_app dep.spec.selector d.spec.selector.app in
    let template_labels : Map String = remove (merge_string_map labels selector) injected in
    record {
      metadata = record dep.metadata {
        labels = remove labels injected;
        annotations =
            remove (passed_through op.json (get? d.annotations deployment_annotation_key)) inject;
        finalizers = op.add_finalizer dep.metadata.finalizers finalizer;
      };
      spec = record {
        replicas = d.spec.replicas;
        selector = some selector;
        template = record {
          labels = template_labels;
          annotations =
              merge_string_map (passed_through op.json (get? d.annotations pod_annotation_key))
                (inject_of d);
          spec = record {
            volumes = (get_volume_and_volume_mounts d.spec.volumes).0;
            host_aliases = d.spec.host_alias;
            containers = add_startup_probe d.spec.health_check (container_of app d) ∷ [];
            init_containers = init_containers;
            image_pull_secrets = get_image_pull_secrets op.config;
            service_account_name = service_account_of d.labels;
            affinity =
                add_pod_anti_affinity (index template_labels app_key)
                  (add_node_affinity d.spec.node_affinity dep.spec.template.spec.affinity);
          };
        };
        strategy = config_rolling_update op.int_or_string_text dep.spec.strategy;
      };
    }

with_init :
    Operator
    → SqbApplication
    → SqbDeployment
    → Deployment
    → Result (List Container)
    → Result Deployment
unfolding desired_with
with_init op app d dep (ok init_containers) = ok (desired_with op app d dep init_containers)
with_init op app d dep (err e) = err e
with_init op app d dep panic = panic

unfoldable pub desired : Operator → SqbApplication → SqbDeployment → Deployment → Result Deployment
unfolding init_containers_of with_init
desired op app d dep =
    with_init op app d dep
      (init_containers_of (init_container_image op.config) d dep.spec.template.spec.init_containers)

-- ===== src/Handler/Deployment.antt =====
-- deployment_handler.go: the Kubernetes deployment of an SQBDeployment, and the reconciler that
-- keeps the status of applications and planes.
pub mod Volumes
pub mod Scheduling
pub mod Template
pub mod Status
pub mod Written
use elastic_env_operator.Base.{
  String, Bool, true, false, not, ◌&&◌, ◌==◌, Option, none, some, is_empty, Result, ok, err, panic,
  Exec, on_rest, if◌then◌else◌,
}
use elastic_env_operator.Api.Types.{SqbApplication, SqbDeployment, sqb_deployment_obj}
use elastic_env_operator.Entity.ConfigMap.{deployment_spec}
use elastic_env_operator.Kinds.Workload.{Deployment, DeploymentSpec, new_deployment, deployment_obj}
use elastic_env_operator.Cluster.{unless_missing}
use elastic_env_operator.Operator.{Operator}
use elastic_env_operator.Handler
use elastic_env_operator.Handler.Deployment.Scheduling.{delayed_health_check}
use elastic_env_operator.Handler.Deployment.Template.{desired}

module _ (op : Operator) where
  with_spec : Deployment → Result DeploymentSpec → Result Deployment
  with_spec dep (ok spec) = ok (record dep { spec = spec })
  with_spec dep (err e) = err e
  with_spec dep panic = panic

  -- func (h *deploymentHandler) merge
  unfoldable pub merge : Deployment → String → Result Deployment
  unfolding with_spec
  merge dep spec_string = elim (op.unmarshal_deployment_spec spec_string) [
    | ok spec ↦ with_spec dep (op.merge_deployment_spec dep.spec spec)
    | err e ↦ err e
    | panic ↦ panic
  ]

  -- additionalSpec
  unfoldable pub additional_spec : Deployment → Result Deployment
  unfolding merge
  additional_spec dep =
      let spec_string = deployment_spec op.config in
      if not (is_empty spec_string) && dep.metadata.namespace == "sqb"
      then merge dep spec_string
      else ok dep

  unfoldable pub returned :
      SqbDeployment → Result Deployment × op.World → Result (Unit {0}) × (SqbDeployment × op.World)
  returned d (ok dep, w) = (ok tt, (d, w))
  returned d (err e, w) = (err e, (d, w))
  returned d (panic, w) = (panic, (d, w))

  unfoldable pub written :
      Result Deployment → SqbDeployment → op.World → Result (Unit {0}) × (SqbDeployment × op.World)
  unfolding Handler.create_or_update returned
  written (ok dep) d w = returned d (Handler.create_or_update op.deployments dep w)
  written (err e) d w = (err e, (d, w))
  written panic d w = (panic, (d, w))

  -- The delay of the health check is written into the SQBDeployment itself.
  unfoldable pub from_desired :
      Result Deployment → SqbDeployment → op.World → Result (Unit {0}) × (SqbDeployment × op.World)
  unfolding additional_spec delayed_health_check written
  from_desired (ok dep) d w = written (additional_spec dep) (delayed_health_check d) w
  from_desired (err e) d w = (err e, (d, w))
  from_desired panic d w = (panic, (d, w))

  -- What `CreateOrUpdate` does with the two objects that it reads.
  unfoldable pub from_objects :
      Result Deployment
      → Result SqbApplication
      → SqbDeployment
      → op.World
      → Result (Unit {0}) × (SqbDeployment × op.World)
  unfolding desired from_desired
  from_objects (err e) found_app d w = (err e, (d, w))
  from_objects panic found_app d w = (panic, (d, w))
  from_objects (ok dep) (err e) d w = (err e, (d, w))
  from_objects (ok dep) panic d w = (panic, (d, w))
  from_objects (ok dep) (ok app) d w = from_desired (desired op app d dep) d w

  -- func (h *deploymentHandler) CreateOrUpdate
  unfoldable pub create_or_update : Exec (SqbDeployment × op.World) (Unit {0})
  unfolding from_objects
  create_or_update (d, w) =
      from_objects
        (unless_missing (op.deployments.get d.namespace d.name w)
          (new_deployment d.namespace d.name))
        (op.sqb_applications.get d.namespace d.spec.selector.app w) d w

  -- func (h *deploymentHandler) Delete
  unfoldable pub delete : SqbDeployment → Exec op.World (Unit {0})
  unfolding Handler.delete
  delete d = Handler.delete op.deployments (new_deployment d.namespace d.name)

  -- func (h *deploymentHandler) Handle
  unfoldable pub handle : Exec (SqbDeployment × op.World) (Unit {0})
  unfolding create_or_update delete Handler.deleted
  handle (d, w) =
      if Handler.deleted op.sums d.metadata then on_rest delete (d, w) else create_or_update (d, w)

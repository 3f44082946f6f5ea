-- ===== src/Controllers/Requests.antt =====
-- controllers: the Reconcile methods of the four controllers that hand their requests to
-- `handle_reconcile`, and which object a request is for.
use elastic_env_operator.Base.{String, ◌≡◌, ok, false}
use elastic_env_operator.Api.Types.{
  SqbApplication, SqbDeployment, SqbPlane, sqb_application_obj, sqb_deployment_obj, sqb_plane_obj,
}
use elastic_env_operator.Kinds.Workload.{deployment_obj}
use elastic_env_operator.Operator.{Operator}
use elastic_env_operator.Handler.{is_deleted}
use elastic_env_operator.Handler.Reconcile.{Outcome, handle_reconcile}
use elastic_env_operator.Handler.SqbApplication
use elastic_env_operator.Handler.SqbDeployment
use elastic_env_operator.Handler.SqbPlane
use elastic_env_operator.Handler.Deployment.Status

-- ctrl.Request of a controller: the namespace and the name of an object of its kind.
pub data Request : Type 0 where
  for_application : String → String → Request
  for_sqb_deployment : String → String → Request
  for_plane : String → String → Request
  for_deployment : String → String → Request

module _ (op : Operator) where
  -- func (r *SQBApplicationReconciler) Reconcile
  unfoldable pub reconcile_application : String → String → op.World → Outcome × op.World
  unfolding handle_reconcile SqbApplication.reconciler
  reconcile_application namespace name =
      handle_reconcile (SqbApplication.reconciler op namespace name) op.config

  -- func (r *SQBDeploymentReconciler) Reconcile
  unfoldable pub reconcile_sqb_deployment : String → String → op.World → Outcome × op.World
  unfolding handle_reconcile SqbDeployment.reconciler
  reconcile_sqb_deployment namespace name =
      handle_reconcile (SqbDeployment.reconciler op namespace name) op.config

  -- func (r *SQBPlaneReconciler) Reconcile
  unfoldable pub reconcile_plane : String → String → op.World → Outcome × op.World
  unfolding handle_reconcile SqbPlane.reconciler
  reconcile_plane namespace name =
      handle_reconcile (SqbPlane.reconciler op namespace name) op.config

  -- func (r *DeploymentReconciler) Reconcile
  unfoldable pub reconcile_deployment : String → String → op.World → Outcome × op.World
  unfolding handle_reconcile Status.reconciler
  reconcile_deployment namespace name =
      handle_reconcile (Status.reconciler op namespace name) op.config

  unfoldable pub reconcile : Request → op.World → Outcome × op.World
  unfolding reconcile_application reconcile_sqb_deployment reconcile_plane reconcile_deployment
  reconcile (for_application namespace name) = reconcile_application namespace name
  reconcile (for_sqb_deployment namespace name) = reconcile_sqb_deployment namespace name
  reconcile (for_plane namespace name) = reconcile_plane namespace name
  reconcile (for_deployment namespace name) = reconcile_deployment namespace name

  -- What the request would read does not count as deleted.
  abbrev pub IsLive : Request → op.World → Type 0
  IsLive (for_application namespace name) w =
      (app : SqbApplication)
      → op.sqb_applications.get namespace name w ≡ ok app
      → is_deleted op.sums app.metadata ≡ ok false
  IsLive (for_sqb_deployment namespace name) w =
      (d : SqbDeployment)
      → op.sqb_deployments.get namespace name w ≡ ok d
      → is_deleted op.sums d.metadata ≡ ok false
  IsLive (for_plane namespace name) w =
      (p : SqbPlane)
      → op.sqb_planes.get namespace name w ≡ ok p
      → is_deleted op.sums p.metadata ≡ ok false
  IsLive (for_deployment namespace name) w = Unit {0}

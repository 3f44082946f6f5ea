-- ===== src/Handler/SqbDeployment.antt =====
-- sqbdeployment_handler.go: the reconciler of SQBDeployments.
pub mod Laws
use elastic_env_operator.Base.{
  String, ◌==◌, Bool, true, false, nil, made, Map, insert, entries, index, not, is_empty, Error,
  Result, ok, err, panic, Exec, pure, lift, on_rest, on_object, ◌>>=◌, ◌>>◌, if◌then◌else◌,
}
use elastic_env_operator.Api.Meta.{named}
use elastic_env_operator.Api.Types.{
  SqbApplication, SqbDeployment, sqb_deployment_obj, with_annotations,
}
use elastic_env_operator.Entity.Keys.{initialize_annotation_key, istio_inject_annotation_key}
use elastic_env_operator.Entity.ConfigMap.{SqbConfigMapEntity}
use elastic_env_operator.Cluster.{get}
use elastic_env_operator.Operator.{Operator}
use elastic_env_operator.Handler
use elastic_env_operator.Handler.Reconcile.{SqbReconciler}
use elastic_env_operator.Handler.Settings.{is_istio_inject}
use elastic_env_operator.Handler.Pvc
use elastic_env_operator.Handler.Ingress
use elastic_env_operator.Handler.Istio
use elastic_env_operator.Handler.Deployment
use elastic_env_operator.Handler.SqbDeploymentList.{truth}
use elastic_env_operator.Handler.SqbApplication.{new_deploy_spec}

-- &qav1alpha1.SQBDeployment{}
abbrev pub new_sqb_deployment : SqbDeployment
new_sqb_deployment = record {
  metadata = named "" "";
  spec = record { selector = record { app = ""; plane = "" }; deploy_spec = new_deploy_spec };
  status = record { error_info = "" };
}

abbrev pub with_error : SqbDeployment → String → SqbDeployment
with_error d message = record d { status = record { error_info = message } }

-- The two annotations that the first reconciliation writes. A map that is nil or empty is made
-- first.
unfoldable pub initialized : SqbConfigMapEntity → SqbApplication → SqbDeployment → SqbDeployment
unfolding is_istio_inject
initialized sc app d = with_annotations d (
    made (
      insert istio_inject_annotation_key (truth (is_istio_inject sc app))
        (insert initialize_annotation_key "true" (entries d.annotations))))

module _ (op : Operator) where
  -- `IsInitialized` for an SQBDeployment that has no mark: it returns `false`, and the error of the
  -- update.
  unfoldable pub initialize : Result SqbApplication → Exec (SqbDeployment × op.World) Bool
  unfolding initialized Handler.create_or_update
  initialize (ok app) (d, w) =
      (do on_object (Handler.create_or_update op.sqb_deployments); pure false)
        (initialized op.config app d, w)
  initialize (err e) (d, w) = (err e, (d, w))
  initialize panic (d, w) = (panic, (d, w))

  -- func (h *sqbDeploymentHandler) IsInitialized
  unfoldable pub is_initialized : Exec (SqbDeployment × op.World) Bool
  unfolding initialize
  is_initialized (d, w) =
      if index d.annotations initialize_annotation_key == "true"
      then (ok true, (d, w))
      else initialize (op.sqb_applications.get d.namespace d.spec.selector.app w) (d, w)

  -- What `Operate` does after its handlers.
  unfoldable pub finish : Bool → Exec (SqbDeployment × op.World) (Unit {0})
  unfolding Handler.delete Handler.update_status
  finish deleted (d, w) =
      if deleted
      then on_rest (Handler.delete op.sqb_deployments) (d, w)
      else if not (is_empty d.status.error_info)
      then on_object (Handler.update_status op.sqb_deployments) (with_error d "", w)
      else (ok tt, (d, w))

  -- The handlers of `Operate`, in their order.
  unfoldable pub handlers : Exec (SqbDeployment × op.World) (Unit {0})
  unfolding Pvc.handle Deployment.handle Ingress.handle_sqbdeployment Istio.handle_special
  handlers = do
    Pvc.handle op
    Deployment.handle op
    on_rest (Ingress.handle_sqbdeployment op)
    on_rest (Istio.handle_special op)

  -- func (h *sqbDeploymentHandler) Operate
  unfoldable pub operate : Exec (SqbDeployment × op.World) (Unit {0})
  unfolding Handler.is_deleted handlers finish
  operate (d, w) =
      (do deleted ← lift (Handler.is_deleted op.sums d.metadata); handlers; finish deleted) (d, w)

  -- func (h *sqbDeploymentHandler) ReconcileFail
  unfoldable pub reconcile_fail : Error → Exec (SqbDeployment × op.World) (Unit {0})
  unfolding Handler.update_status
  reconcile_fail e (d, w) =
      on_object (Handler.update_status op.sqb_deployments) (with_error d e.message, w)

  -- NewSqbDeploymentHanlder, for a request of a namespace and a name
  unfoldable pub reconciler : String → String → SqbReconciler op.World SqbDeployment
  unfolding is_initialized operate reconcile_fail get
  reconciler namespace name = record {
    blank = new_sqb_deployment;
    get_instance = get op.sqb_deployments namespace name;
    is_initialized = is_initialized;
    operate = operate;
    reconcile_fail = reconcile_fail;
  }

-- ===== src/Handler/SqbApplication.antt =====
-- sqbapplication_handler.go: the reconciler of applications.
pub mod Laws
use elastic_env_operator.Base.{
  String, Bool, true, false, List, [], ◌∷◌, map, none, nil, not, is_empty, Error, Exec, pure, lift,
  on_rest, on_object, ◌>>=◌, ◌>>◌, if◌then◌else◌, ok,
}
use elastic_env_operator.Api.Meta.{named}
use elastic_env_operator.Api.Types.{Domain, DeploySpec, SqbApplication, sqb_application_obj}
use elastic_env_operator.Entity.ConfigMap.{SqbConfigMapEntity, get_domain_name_by_class}
use elastic_env_operator.Cluster.{get}
use elastic_env_operator.Operator.{Operator}
use elastic_env_operator.Handler
use elastic_env_operator.Handler.Reconcile.{SqbReconciler}
use elastic_env_operator.Handler.Service
use elastic_env_operator.Handler.Ingress
use elastic_env_operator.Handler.Monitoring
use elastic_env_operator.Handler.SqbDeploymentList

abbrev pub new_deploy_spec : DeploySpec
new_deploy_spec = record {
  replicas = none;
  image = "";
  command = [];
  args = [];
  host_alias = [];
  resources = none;
  env = [];
  health_check = none;
  volumes = [];
  node_affinity = none;
  lifecycle = none;
}

-- &qav1alpha1.SQBApplication{}
abbrev pub new_application : SqbApplication
new_application = record {
  metadata = named "" "";
  spec = record {
    ingress_spec = record { domains = []; subpaths = [] };
    service_spec = record { ports = [] };
    deploy_spec = new_deploy_spec;
  };
  status = record { planes = nil; mirrors = nil; error_info = "" };
}

abbrev pub with_error : SqbApplication → String → SqbApplication
with_error app message = record app { status = record app.status { error_info = message } }

abbrev with_domains : SqbApplication → List Domain → SqbApplication
with_domains app domains = record app {
  spec = record app.spec { ingress_spec = record app.spec.ingress_spec { domains = domains } };
}

-- The default host of a domain that has none.
default_host : SqbConfigMapEntity → String → Domain → Domain
unfolding get_domain_name_by_class
default_host sc name domain =
    if is_empty domain.host
    then record domain { host = get_domain_name_by_class sc name domain.class }
    else domain

unfoldable pub with_default_hosts : SqbConfigMapEntity → SqbApplication → SqbApplication
unfolding default_host
with_default_hosts sc app = with_domains app (map (default_host sc app.name) app.spec.domains)

module _ (op : Operator) where
  -- What `Operate` does after its handlers.
  unfoldable pub finish : Bool → Exec (SqbApplication × op.World) (Unit {0})
  unfolding Handler.delete Handler.update_status
  finish deleted (app, w) =
      if deleted
      then on_rest (Handler.delete op.sqb_applications) (app, w)
      else if not (is_empty app.status.error_info)
      then on_object (Handler.update_status op.sqb_applications) (with_error app "", w)
      else (ok tt, (app, w))

  -- The handlers of `Operate`, in their order.
  unfoldable pub handlers : SqbApplication → Exec op.World (Unit {0})
  unfolding Service.handle Ingress.handle_sqbapplication SqbDeploymentList.handle_sqbapplication
      Monitoring.handle_vm
  handlers app = do
    Service.handle op app
    Ingress.handle_sqbapplication op app
    SqbDeploymentList.handle_sqbapplication op app
    Monitoring.handle_vm op app

  -- `Operate` after the test for deletion.
  unfoldable pub operate_unless_wrong : Bool → Exec (SqbApplication × op.World) (Unit {0})
  unfolding with_default_hosts handlers finish
  operate_unless_wrong deleted (app, w) =
      (do on_rest handlers; finish deleted) (with_default_hosts op.config app, w)

  -- func (h *sqbApplicationHandler) Operate
  unfoldable pub operate : Exec (SqbApplication × op.World) (Unit {0})
  unfolding Handler.is_deleted operate_unless_wrong
  operate (app, w) =
      (do deleted ← lift (Handler.is_deleted op.sums app.metadata); operate_unless_wrong deleted)
        (app, w)

  -- func (h *sqbApplicationHandler) ReconcileFail
  unfoldable pub reconcile_fail : Error → Exec (SqbApplication × op.World) (Unit {0})
  unfolding Handler.update_status
  reconcile_fail e (app, w) =
      on_object (Handler.update_status op.sqb_applications) (with_error app e.message, w)

  -- NewSqbApplicationHanlder, for a request of a namespace and a name
  unfoldable pub reconciler : String → String → SqbReconciler op.World SqbApplication
  unfolding operate reconcile_fail get
  reconciler namespace name = record {
    blank = new_application;
    get_instance = get op.sqb_applications namespace name;
    is_initialized = pure true;
    operate = operate;
    reconcile_fail = reconcile_fail;
  }

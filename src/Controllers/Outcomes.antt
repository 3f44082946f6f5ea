-- ===== src/Controllers/Outcomes.antt =====
-- Requests that are done, and what they leave in the cluster.
use elastic_env_operator.Base.{
  eq_iff, ◌≡◌, refl, ok, true, false, has, index, String, ℤ, some, is_empty, ap,
}
use mathlib.Core.Path.{subst}
use elastic_env_operator.Api.Types.{
  SqbApplication, SqbDeployment, sqb_application_obj, sqb_deployment_obj, sqb_plane_obj,
}
use elastic_env_operator.Entity.Keys.{kubevela_app_name_label, initialize_annotation_key}
use elastic_env_operator.Entity.ConfigMap.{is_initialized, is_ready}
use elastic_env_operator.Kinds.Workload.{deployment_obj}
use elastic_env_operator.Operator.{Operator}
use elastic_env_operator.Cluster.{get}
use elastic_env_operator.Cluster.Stores.{Stores, NoneOfKubevela}
use elastic_env_operator.Handler.{is_deleted}
use elastic_env_operator.Handler.SqbApplication
use elastic_env_operator.Handler.SqbDeployment
use elastic_env_operator.Handler.Deployment.Template.{init_of}
use elastic_env_operator.Handler.Deployment.Template.Laws.{HasCommand}
use elastic_env_operator.Handler.Guards.Handlers.{core}
use elastic_env_operator.Handler.Running.{running, facts, RunsAs, replicas_or_one}
use elastic_env_operator.Handler.Running.Deployments.{IsPlain}
use elastic_env_operator.Handler.Running.Operating.{DeploymentsLeft}
use elastic_env_operator.Handler.Running.Answering.{
  AnswersDeployment, ApplicationsLeft, HasApplication,
}
use elastic_env_operator.Handler.Running.Success.{operate_brings_up}
use elastic_env_operator.Handler.Reconcile.{done}
use elastic_env_operator.Handler.Reconcile.Finishing.{reconcile-IsDone}
use elastic_env_operator.Controllers.Requests.{reconcile, for_sqb_deployment}

module _ (op : Operator) (initialized : is_initialized op.config ≡ true)
    (ready : is_ready op.config ≡ true) where
  -- A request for an SQBDeployment that is there, has an image and a number of replicas of its own
  -- and the mark of its initialization, and does not count as deleted, is done, once the
  -- configuration is loaded and ready, and afterwards the cluster has its deployment, with these
  -- replicas, where a deployment without a number has one, and one container, of its name and with
  -- its image; where its application can be read and an init handler has its command, the server
  -- answers the calls, stores the deployments that it accepts, leaves deployments and applications
  -- when objects of other kinds are written or deleted, and reads a virtual service under its
  -- namespace, no additional specification is merged, and KubeVela made neither the SQBDeployment
  -- nor the deployments.
  pub sqb_deployment_request_runs :
      (stores : Stores running op.deployments)
      → NoneOfKubevela op.deployments
      → DeploymentsLeft op
      → (answers : AnswersDeployment op) (left : ApplicationsLeft op)
      → (namespace name : String) (d : SqbDeployment) (replicas : ℤ) (w : op.World)
      → op.sqb_deployments.get namespace name w ≡ ok d
      → is_empty d.spec.image ≡ false
      → d.spec.replicas ≡ some replicas
      → index d.annotations initialize_annotation_key ≡ "true"
      → IsPlain op d
      → has d.labels kubevela_app_name_label ≡ false
      → HasCommand (init_of d.spec.lifecycle)
      → is_deleted op.sums d.metadata ≡ ok false
      → HasApplication op (core d) w
      → ((reconcile op (for_sqb_deployment namespace name) w).0 ≡ done)
        × RunsAs op
            (d.metadata, (replicas, d.spec.image))
            (reconcile op (for_sqb_deployment namespace name) w).1
  unfolding replicas_or_one reconcile SqbDeployment.reconciler SqbDeployment.is_initialized get
  sqb_deployment_request_runs stores own kept answers left namespace name d replicas w found
        has_image given marked plain unowned command live app =
      subst
        (λ (n : ℤ).
          ((reconcile op (for_sqb_deployment namespace name) w).0 ≡ done)
          × RunsAs op (d.metadata, (n, d.spec.image))
              (reconcile op (for_sqb_deployment namespace name) w).1)
        (ap replicas_or_one given)
        (reconcile-IsDone (SqbDeployment.reconciler op namespace name) (RunsAs op (facts d))
          op.config d w initialized ready (rw found refl) (rw ((eq_iff _ _).1 marked) refl)
          (operate_brings_up op answers left stores own kept d w plain unowned command live app))

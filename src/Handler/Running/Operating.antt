-- ===== src/Handler/Running/Operating.antt =====
-- The operation on an SQBDeployment as a whole.
use mathlib.Core.Path.{subst}
use elastic_env_operator.Base.{
  ◌≡◌, sym, ap, false, not, is_empty, has, ok, Result, Exec, Keeps, Keeps-on_rest, Keeps-on_object,
  Keeps-bind, EndsIn, EndsIn-bind, EndsIn-kept, both_branches, on_rest, ◌>>◌, ◌>>=◌, lift, Bool,
}
use elastic_env_operator.Api.Types.{SqbDeployment, sqb_deployment_obj}
use elastic_env_operator.Entity.Keys.{kubevela_app_name_label}
use elastic_env_operator.Kinds.Workload.{deployment_obj}
use elastic_env_operator.Operator.{Operator}
use elastic_env_operator.Cluster.Stores.{Stores, NoneOfKubevela, Leaves}
use elastic_env_operator.Handler
use elastic_env_operator.Handler.{deleted, is_deleted, succeeded}
use elastic_env_operator.Handler.Pvc
use elastic_env_operator.Handler.Deployment
use elastic_env_operator.Handler.Ingress
use elastic_env_operator.Handler.Istio
use elastic_env_operator.Handler.SqbDeployment
use elastic_env_operator.Handler.SqbDeployment.{with_error}
use elastic_env_operator.Handler.Guards.{update_status-Keeps}
use elastic_env_operator.Handler.Guards.Handlers.{handle_public-Keeps, handle_special-Keeps}
use elastic_env_operator.Handler.Writing.{IsOf, Holds-IsOf, Leaves-KeepsWrites, Leaves-KeepsDeletes}
use elastic_env_operator.Handler.Running.{running, facts, RunsAs}
use elastic_env_operator.Handler.Running.Claiming.{handle_claims-OnlyVolumes}
use elastic_env_operator.Handler.Running.Deployments.{IsPlain, handle_runs}

-- What is done to the other kinds behind the handler of deployments leaves what is read of the
-- deployments.
pub record DeploymentsLeft (op : Operator) : Type 0 where
  pub ingresses : Leaves op.deployments op.ingresses
  pub virtual_services : Leaves op.deployments op.virtual_services
  pub sqb_deployments : Leaves op.deployments op.sqb_deployments

module _ (op : Operator) where
  module _ (stores : Stores running op.deployments) (own : NoneOfKubevela op.deployments)
      (left : DeploymentsLeft op) (d : SqbDeployment) (plain : IsPlain op d)
      (unowned : has d.labels kubevela_app_name_label ≡ false) where
    abbrev IsRun : op.World → Type 0
    IsRun = RunsAs op (facts d)

    abbrev IsRunAfter : SqbDeployment × op.World → Type 0
    IsRunAfter s = IsRun s.1

    IsRun-IsOf : IsOf op.deployments IsRun
    IsRun-IsOf = Holds-IsOf running op.deployments d.namespace d.name _

    -- The handlers behind that of the deployments.
    later_runs :
        Keeps IsRunAfter
          (on_rest (Ingress.handle_sqbdeployment op) >> on_rest (Istio.handle_special op))
    later_runs =
        Keeps-bind IsRunAfter (on_rest (Ingress.handle_sqbdeployment op))
          (λ _. on_rest (Istio.handle_special op))
          (Keeps-on_rest IsRun (Ingress.handle_sqbdeployment op) (
            handle_public-Keeps op IsRun
              (Leaves-KeepsWrites op.deployments op.ingresses IsRun left.ingresses IsRun-IsOf)
              (Leaves-KeepsDeletes op.deployments op.ingresses IsRun left.ingresses IsRun-IsOf)))
          (λ _. Keeps-on_rest IsRun (Istio.handle_special op) (
            handle_special-Keeps op IsRun
              (Leaves-KeepsWrites op.deployments op.virtual_services IsRun left.virtual_services
                IsRun-IsOf)
              (Leaves-KeepsDeletes op.deployments op.virtual_services IsRun left.virtual_services
                IsRun-IsOf)))

    finish_runs : Keeps IsRunAfter (SqbDeployment.finish op false)
    unfolding SqbDeployment.finish
    finish_runs (d', w) h =
        both_branches (λ (x : Result (Unit {0}) × (SqbDeployment × op.World)). IsRunAfter x.1)
          (not (is_empty d'.status.error_info)) _ _
          (Keeps-on_object IsRun (Handler.update_status op.sqb_deployments)
            (update_status-Keeps IsRun op.sqb_deployments (
              Leaves-KeepsWrites op.deployments op.sqb_deployments IsRun left.sqb_deployments
                IsRun-IsOf))
            (with_error d' "", w) h)
          h

    handlers_run :
        (w : op.World)
        → deleted op.sums d.metadata ≡ false
        → EndsIn IsRunAfter (SqbDeployment.handlers op) (d, w)
    unfolding SqbDeployment.handlers
    handlers_run w live =
        let later =
          on_rest (Ingress.handle_sqbdeployment op) >> on_rest (Istio.handle_special op) in
        let s = (Pvc.handle op (d, w)).1 in
        let (volumes, same) = handle_claims-OnlyVolumes op d w in
        EndsIn-bind IsRunAfter (Pvc.handle op) (λ _. Deployment.handle op >> later) (d, w)
          (λ _ _.
            EndsIn-bind IsRunAfter (Deployment.handle op) (λ _. later) s
              (λ u e. EndsIn-kept IsRunAfter later (Deployment.handle op s).1 later_runs (
                subst (λ d'. EndsIn IsRunAfter (Deployment.handle op) (d', s.1)) (sym same)
                  (handle_runs op stores own (Pvc.with_volumes d volumes) plain unowned s.1 live) u
                  e)))

    -- After an Operate of an SQBDeployment that does not count as deleted, if it ends well, the
    -- cluster has its deployment, with the replicas of the SQBDeployment, one where it gives none,
    -- and one container, of its name and with its image, where the server stores the deployments
    -- that it accepts and calls for the kinds that are written later leave them, no additional
    -- specification is merged, and KubeVela made neither the SQBDeployment nor the deployments.
    pub operate_runs :
        (w : op.World)
        → is_deleted op.sums d.metadata ≡ ok false
        → EndsIn (λ s. RunsAs op (facts d) s.1) (SqbDeployment.operate op) (d, w)
    unfolding SqbDeployment.operate deleted
    operate_runs w live =
        let last : Bool → Exec (SqbDeployment × op.World) (Unit {0}) =
          λ deleted. SqbDeployment.handlers op >> SqbDeployment.finish op deleted in
        subst (λ r. EndsIn IsRunAfter (lift r >>= last) (d, w)) (sym live)
          (EndsIn-bind IsRunAfter (SqbDeployment.handlers op) (λ _. SqbDeployment.finish op false)
            (d, w)
            (λ u e.
              EndsIn-kept IsRunAfter (SqbDeployment.finish op false) _ finish_runs
                (handlers_run w (ap succeeded live) u e)))

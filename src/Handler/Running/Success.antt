-- ===== src/Handler/Running/Success.antt =====
-- The operation on an SQBDeployment as a whole ends well where the server answers.
use mathlib.Core.Path.{subst}
use elastic_env_operator.Base.{
  replaced_ok, ◌≡◌, refl, sym, ap, false, not, is_empty, has, Result, ok, Exec, lift, on_rest, Bool,
  EndsWell, Attains, Attains-bind, ◌>>=◌, ◌>>◌, both_branches,
}
use elastic_env_operator.Api.Types.{SqbDeployment, sqb_application_obj, sqb_deployment_obj}
use elastic_env_operator.Entity.Keys.{kubevela_app_name_label}
use elastic_env_operator.Kinds.Core.{ingress_obj}
use elastic_env_operator.Kinds.Istio.{virtual_service_obj}
use elastic_env_operator.Kinds.Workload.{deployment_obj}
use elastic_env_operator.Operator.{Operator}
use elastic_env_operator.Cluster.Stores.{Stores, NoneOfKubevela}
use elastic_env_operator.Handler.Guards.Handlers.{
  core, handle_deployment-keeps, handle_public-Keeps,
}
use elastic_env_operator.Handler.Guards.Claims.{handle_claims-keeps}
use elastic_env_operator.Handler.Running.{running, facts, RunsAs}
use elastic_env_operator.Handler.Running.Deployments.{IsPlain}
use elastic_env_operator.Handler.Running.Operating.{DeploymentsLeft, operate_runs}
use elastic_env_operator.Handler.Deployment.Template.Laws.{HasCommand}
use elastic_env_operator.Handler
use elastic_env_operator.Handler.{deleted, is_deleted, succeeded}
use elastic_env_operator.Handler.Ingress
use elastic_env_operator.Handler.Istio
use elastic_env_operator.Handler.Pvc
use elastic_env_operator.Handler.Deployment
use elastic_env_operator.Handler.Deployment.Template.{init_of}
use elastic_env_operator.Handler.SqbDeployment
use elastic_env_operator.Handler.SqbDeployment.{with_error}
use elastic_env_operator.Handler.Writing.{Leaves-KeepsWrites, Leaves-KeepsDeletes}
use elastic_env_operator.Handler.Running.Claiming.{
  OnlyVolumes, handle_claims-OnlyVolumes, HasValue, handle_claims-value,
}
use elastic_env_operator.Handler.Running.Answering.{
  AnswersDeployment, ApplicationsLeft, HasApplication, HasApplication-IsOf, handle_public-EndsWell,
  handle_deployment-value, handle_special-value,
}

module _ (op : Operator) (answers : AnswersDeployment op) (left : ApplicationsLeft op) where
  finish-EndsWell : EndsWell (SqbDeployment.finish op false)
  unfolding SqbDeployment.finish Handler.update_status
  finish-EndsWell (d, w) =
      both_branches (λ (x : Result (Unit {0}) × (SqbDeployment × op.World)). HasValue x.0)
        (not (is_empty d.status.error_info)) _ _
        (
          tt,
          replaced_ok (with_error d "") _ _
              (answers.sqb_deployments.update_status (with_error d "") w),
        )
        (tt, refl)

  module _ (stores : Stores running op.deployments) (own : NoneOfKubevela op.deployments)
      (d : SqbDeployment) (plain : IsPlain op d)
      (unowned : has d.labels kubevela_app_name_label ≡ false)
      (command : HasCommand (init_of d.spec.lifecycle))
      (live : deleted op.sums d.metadata ≡ false) where
    -- Between the handlers: the application can be read still, by what the SQBDeployment says.
    abbrev IsReadable : SqbDeployment × op.World → Type 0
    IsReadable (d', w) = HasApplication op (core d) w × (core d' ≡ core d)

    claims_done :
        (w : op.World)
        → HasApplication op (core d) w
        → Attains (λ s. HasApplication op (core d) s.1 × OnlyVolumes d s.0) (Pvc.handle op) (d, w)
    claims_done w found =
        let (u, e) = handle_claims-value op answers.pvcs d w live in
        (
          u,
          e,
          (
            (handle_claims-keeps op (HasApplication op (core d))
                (Leaves-KeepsWrites op.sqb_applications op.pvcs _ left.pvcs
                  (HasApplication-IsOf op (core d)))
                (Leaves-KeepsDeletes op.sqb_applications op.pvcs _ left.pvcs
                  (HasApplication-IsOf op (core d)))
                d w live found).0,
            handle_claims-OnlyVolumes op d w,
          ),
        )

    deployment_done :
        (s : SqbDeployment × op.World)
        → HasApplication op (core d) s.1 × OnlyVolumes d s.0
        → Attains IsReadable (Deployment.handle op) s
    deployment_done (d', w) (found, (volumes, same)) =
        let d'' = Pvc.with_volumes d volumes in
        subst (λ x. Attains IsReadable (Deployment.handle op) (x, w)) (sym same)
          (let (u, e) =
              handle_deployment-value op answers left stores own d'' plain unowned command w live
                found in
            (
              u,
              e,
              handle_deployment-keeps op (HasApplication op (core d))
                  (Leaves-KeepsWrites op.sqb_applications op.deployments _ left.deployments
                    (HasApplication-IsOf op (core d)))
                  d'' w live found,
            ))

    public_done :
        (s : SqbDeployment × op.World)
        → IsReadable s
        → Attains IsReadable (on_rest (Ingress.handle_sqbdeployment op)) s
    public_done (d', w) (found, same) =
        let (u, e) = handle_public-EndsWell op answers.ingresses d' w in
        (
          u,
          e,
          (
            handle_public-Keeps op (HasApplication op (core d))
                (Leaves-KeepsWrites op.sqb_applications op.ingresses _ left.ingresses
                  (HasApplication-IsOf op (core d)))
                (Leaves-KeepsDeletes op.sqb_applications op.ingresses _ left.ingresses
                  (HasApplication-IsOf op (core d)))
                d' w found,
            same,
          ),
        )

    abbrev IsAny : SqbDeployment × op.World → Type 0
    IsAny s = Unit

    special_done :
        (s : SqbDeployment × op.World)
        → IsReadable s
        → Attains IsAny (on_rest (Istio.handle_special op)) s
    special_done (d', w) (found, same) =
        let (u, e) =
          handle_special-value op answers left d' w
            (subst (λ c. HasApplication op c w) (sym same) found) in
        (u, e, tt)

    handlers_done :
        (w : op.World)
        → HasApplication op (core d) w
        → Attains IsAny (SqbDeployment.handlers op) (d, w)
    unfolding SqbDeployment.handlers
    handlers_done w found =
        let special = on_rest (Istio.handle_special op) in
        let public = on_rest (Ingress.handle_sqbdeployment op) in
        Attains-bind (λ s. HasApplication op (core d) s.1 × OnlyVolumes d s.0) IsAny (Pvc.handle op)
          (λ _. Deployment.handle op >> (public >> special)) (d, w) (claims_done w found)
          (λ _ s h.
            Attains-bind IsReadable IsAny (Deployment.handle op) (λ _. public >> special) s
              (deployment_done s h)
              (λ _ s' h'.
                Attains-bind IsReadable IsAny public (λ _. special) s' (public_done s' h')
                  (λ _ s'' h''. special_done s'' h'')))

  -- Operate of an SQBDeployment that does not count as deleted ends well, and afterwards the
  -- cluster has its deployment, with the replicas of the SQBDeployment, one where it gives none,
  -- and one container, of its name and with its image, where its application can be read and an
  -- init handler has its command, the server answers the calls, stores the deployments that it
  -- accepts, leaves deployments and applications when objects of other kinds are written or
  -- deleted, and reads a virtual service under its namespace, no additional specification is
  -- merged, and KubeVela made neither the SQBDeployment nor the deployments.
  pub operate_brings_up :
      (stores : Stores running op.deployments)
      → NoneOfKubevela op.deployments
      → DeploymentsLeft op
      → (d : SqbDeployment) (w : op.World) → IsPlain op d
      → has d.labels kubevela_app_name_label ≡ false
      → HasCommand (init_of d.spec.lifecycle)
      → is_deleted op.sums d.metadata ≡ ok false
      → HasApplication op (core d) w
      → Attains (λ s. RunsAs op (facts d) s.1) (SqbDeployment.operate op) (d, w)
  unfolding SqbDeployment.operate deleted
  operate_brings_up stores own kept d w plain unowned command live found =
      let last : Bool → Exec (SqbDeployment × op.World) (Unit {0}) =
        λ deleted. SqbDeployment.handlers op >> SqbDeployment.finish op deleted in
      let IsAny : SqbDeployment × op.World → Type 0 = λ s. Unit {0} in
      let ended : Attains IsAny (SqbDeployment.operate op) (d, w) =
        subst (λ r. Attains IsAny (lift r >>= last) (d, w)) (sym live)
          (Attains-bind IsAny IsAny (SqbDeployment.handlers op) (λ _. SqbDeployment.finish op false)
            (d, w) (handlers_done stores own d plain unowned command (ap succeeded live) w found)
            (λ _ s _. let (u', e') = finish-EndsWell s in (u', e', tt))) in
      (ended.0, ended.1, operate_runs op stores own kept d plain unowned w live ended.0 ended.1)

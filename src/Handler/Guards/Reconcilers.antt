-- ===== src/Handler/Guards/Reconcilers.antt =====
-- What a whole operation deletes at most, for an object that does not count as deleted.
use elastic_env_operator.Base.{
  Keeps-bind, Keeps, ◌≡◌, ap, ◌∙◌, false, not, ok, Result, on_rest, ◌>>◌, is_empty, Keeps-on_object,
  Leads, Leads-bind, both_branches,
}
use elastic_env_operator.Api.Types.{
  SqbDeployment, sqb_deployment_obj, sqb_application_obj, sqb_plane_obj,
}
use elastic_env_operator.Operator.{Operator}
use elastic_env_operator.Handler
use elastic_env_operator.Handler.{is_deleted, deleted, succeeded}
use elastic_env_operator.Handler.Pvc
use elastic_env_operator.Handler.Deployment
use elastic_env_operator.Handler.Ingress
use elastic_env_operator.Handler.Istio
use elastic_env_operator.Handler.SqbDeployment
use elastic_env_operator.Handler.SqbDeployment.{with_error}
use elastic_env_operator.Handler.Guards.{update_status-Keeps, KeepsDeletes, KeepsAllWrites}
use elastic_env_operator.Handler.Guards.Claims.{handle_claims-keeps}
use elastic_env_operator.Handler.Guards.Handlers.{
  handle_deployment-keeps, handle_public-Keeps, handle_special-Keeps,
}

module _ (op : Operator) (P : op.World → Type 0) (writes : KeepsAllWrites op P) where
  -- The state between the handlers of an SQBDeployment: the cluster has the property, and the
  -- object does not count as deleted.
  abbrev Between : SqbDeployment × op.World → Type 0
  Between (d, w) = P w × (deleted op.sums d.metadata ≡ false)

  abbrev After : {O : Type 0} → O × op.World → Type 0
  After (o, w) = P w

  still-Between :
      (d : SqbDeployment) (s : SqbDeployment × op.World)
      → deleted op.sums d.metadata ≡ false
      → P s.1 × (s.0.metadata ≡ d.metadata)
      → Between s
  still-Between d s e (h, same) = (h, ap (deleted op.sums) same ∙ e)

  finish-Leads : Leads Between After (SqbDeployment.finish op false)
  unfolding SqbDeployment.finish
  finish-Leads s h =
      both_branches (λ (x : Result (Unit {0}) × (SqbDeployment × op.World)). P x.1.1)
        (not (is_empty s.0.status.error_info)) _ _
        (Keeps-on_object P (Handler.update_status op.sqb_deployments)
          (update_status-Keeps P op.sqb_deployments writes.sqb_deployments) (with_error s.0 "", s.1)
          h.0)
        h.0

  -- The four handlers, from the last to the first.
  special-Keeps :
      KeepsDeletes P op.virtual_services → Keeps Between (on_rest (Istio.handle_special op))
  special-Keeps specials s h =
      (handle_special-Keeps op P writes.virtual_services specials s.0 s.1 h.0, h.1)

  public-Keeps :
      KeepsDeletes P op.ingresses → Keeps Between (on_rest (Ingress.handle_sqbdeployment op))
  public-Keeps ingresses s h =
      (handle_public-Keeps op P writes.ingresses ingresses s.0 s.1 h.0, h.1)

  deployment-Keeps : Keeps Between (Deployment.handle op)
  deployment-Keeps s h =
      let kept = handle_deployment-keeps op P writes.deployments s.0 s.1 h.1 h.0 in
      still-Between s.0 (Deployment.handle op s).1 h.1 (kept.0, ap (λ x. x.0) kept.1)

  claims-Keeps : KeepsDeletes P op.pvcs → Keeps Between (Pvc.handle op)
  claims-Keeps claims s h =
      still-Between s.0 (Pvc.handle op s).1 h.1
        (handle_claims-keeps op P writes.pvcs claims s.0 s.1 h.1 h.0)

  handlers-Keeps :
      KeepsDeletes P op.ingresses
      → KeepsDeletes P op.pvcs
      → KeepsDeletes P op.virtual_services
      → Keeps Between (SqbDeployment.handlers op)
  unfolding SqbDeployment.handlers
  handlers-Keeps ingresses claims specials =
      let special = on_rest (Istio.handle_special op) in
      let public = on_rest (Ingress.handle_sqbdeployment op) in
      Keeps-bind Between (Pvc.handle op) (λ _. Deployment.handle op >> (public >> special))
        (claims-Keeps claims)
        (λ _.
          Keeps-bind Between (Deployment.handle op) (λ _. public >> special) deployment-Keeps
            (λ _.
              Keeps-bind Between public (λ _. special) (public-Keeps ingresses)
                (λ _. special-Keeps specials)))

  -- The operation on an SQBDeployment that does not count as deleted.
  pub operate_deletes_at_most :
      KeepsDeletes P op.ingresses
      → KeepsDeletes P op.pvcs
      → KeepsDeletes P op.virtual_services
      → (d : SqbDeployment) (w : op.World) → is_deleted op.sums d.metadata ≡ ok false
      → P w
      → P (SqbDeployment.operate op (d, w)).1.1
  unfolding SqbDeployment.operate deleted
  operate_deletes_at_most ingresses claims specials d w e h = rw e (
      Leads-bind Between After (SqbDeployment.handlers op) (λ _. SqbDeployment.finish op false)
        (λ t k. k.0) (handlers-Keeps ingresses claims specials) (λ _. finish-Leads) (d, w)
        (h, ap succeeded e))

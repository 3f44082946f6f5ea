-- ===== src/Handler/Guards/LastDeletion.antt =====
-- An SQBDeployment is deleted itself only after all that it owns.
use elastic_env_operator.Base.{
  ◌≡◌, refl, ◌⊎◌, inl, inr, List, [], ◌∷◌, Bool, true, false, not, ok, err, panic, Result, on_rest,
  ◌>>◌, is_empty, Keeps, Keeps-bind, Keeps-on_rest, Keeps-on_object, Result-cases, both_branches,
}
use elastic_env_operator.Api.Types.{SqbDeployment, sqb_deployment_obj}
use elastic_env_operator.Entity.ConfigMap.{is_pvc_enable}
use elastic_env_operator.Kinds.Core.{PersistentVolumeClaim, pvc_obj}
use elastic_env_operator.Kinds.Workload.{new_deployment, deployment_obj}
use elastic_env_operator.Operator.{Operator}
use elastic_env_operator.Handler
use elastic_env_operator.Handler.{is_deleted, deleted}
use elastic_env_operator.Handler.Pvc
use elastic_env_operator.Handler.Deployment
use elastic_env_operator.Handler.Ingress
use elastic_env_operator.Handler.Istio
use elastic_env_operator.Handler.SqbDeployment
use elastic_env_operator.Handler.Guards.{
  delete-Keeps, update_status-Keeps, KeepsDeletes, KeepsAllWrites,
}
use elastic_env_operator.Handler.Guards.Claims.{after_list-keeps}
use elastic_env_operator.Handler.Guards.Handlers.{
  from_objects-keeps, handle_public-Keeps, handle_special-Keeps,
}

-- The deletions of all that an SQBDeployment owns.
pub record KeepsOwnedDeletes (op : Operator) (P : op.World → Type 0) : Type 0 where
  pub deployments : KeepsDeletes P op.deployments
  pub ingresses : KeepsDeletes P op.ingresses
  pub pvcs : KeepsDeletes P op.pvcs
  pub virtual_services : KeepsDeletes P op.virtual_services

module _ (op : Operator) (P : op.World → Type 0) (writes : KeepsAllWrites op P)
    (deletes : KeepsOwnedDeletes op P) where
  abbrev Kept : Result (Unit {0}) × (SqbDeployment × op.World) → Type 0
  Kept x = P x.1.1

  -- The cluster after a call that may have failed, and the rest of the loop.
  rest_kept :
      (r : Result (Unit {0})) (rest : Result (Unit {0}) × op.World) (w : op.World)
      → P w
      → P rest.1
      → P
          (elim r as (λ _. Result (Unit {0}) × op.World) [
            | ok u ↦ rest
            | err e ↦ (ok tt, w)
            | panic ↦ (panic, w)
          ]).1
  rest_kept (ok u) rest w h k = k
  rest_kept (err e) rest w h k = h
  rest_kept panic rest w h k = h

  delete_all-Keeps : (pvcs : List PersistentVolumeClaim) → Keeps P (Pvc.delete_all op pvcs)
  unfolding Pvc.delete_all
  delete_all-Keeps [] = λ w h. h
  delete_all-Keeps (pvc ∷ pvcs) = λ w h.
      let h' = delete-Keeps P op.pvcs deletes.pvcs pvc w h in
      let (result, w') = Handler.delete op.pvcs pvc w in
      rest_kept result (Pvc.delete_all op pvcs w') w' h' (delete_all-Keeps pvcs w' h')

  claims-Keeps : (d : SqbDeployment) (w : op.World) → P w → Kept (Pvc.handle op (d, w))
  unfolding Pvc.handle Pvc.create_or_update Pvc.delete Pvc.get_pvc_list
  claims-Keeps d w h = both_branches Kept (not (is_pvc_enable op.config)) _ _ h (
      both_branches Kept (deleted op.sums d.metadata) _ _
        (Keeps-bind P (Pvc.get_pvc_list op d) (Pvc.delete_all op) (λ w h. h) delete_all-Keeps w h)
        (after_list-keeps op P writes.pvcs deletes.pvcs d (Pvc.get_pvc_list op d w) h).0)

  deployment-Keeps : (d : SqbDeployment) (w : op.World) → P w → Kept (Deployment.handle op (d, w))
  unfolding Deployment.handle Deployment.create_or_update Deployment.delete
  deployment-Keeps d w h =
      both_branches Kept (deleted op.sums d.metadata) _ _
        (delete-Keeps P op.deployments deletes.deployments (new_deployment d.namespace d.name) w h)
        (from_objects-keeps op P writes.deployments _ _ d w h).0

  abbrev Holds : SqbDeployment × op.World → Type 0
  Holds s = P s.1

  handlers-Keeps : Keeps Holds (SqbDeployment.handlers op)
  unfolding SqbDeployment.handlers
  handlers-Keeps =
      let special = on_rest (Istio.handle_special op) in
      let public = on_rest (Ingress.handle_sqbdeployment op) in
      Keeps-bind Holds (Pvc.handle op) (λ _. Deployment.handle op >> (public >> special))
        (λ s h. claims-Keeps s.0 s.1 h)
        (λ _.
          Keeps-bind Holds (Deployment.handle op) (λ _. public >> special)
            (λ s h. deployment-Keeps s.0 s.1 h)
            (λ _.
              Keeps-bind Holds public (λ _. special)
                (Keeps-on_rest P (Ingress.handle_sqbdeployment op)
                  (handle_public-Keeps op P writes.ingresses deletes.ingresses))
                (λ _.
                  Keeps-on_rest P (Istio.handle_special op)
                    (handle_special-Keeps op P writes.virtual_services deletes.virtual_services))))

  finish-Holds :
      (d : SqbDeployment) (w : op.World) → P w → Kept (SqbDeployment.finish op false (d, w))
  unfolding SqbDeployment.finish
  finish-Holds d w h =
      both_branches Kept (not (is_empty d.status.error_info)) _ _
        (Keeps-on_object P (Handler.update_status op.sqb_deployments)
          (update_status-Keeps P op.sqb_deployments writes.sqb_deployments)
          (SqbDeployment.with_error d "", w) h)
        h

  -- The handlers end well, and then the object is deleted.
  abbrev pub EndsByDeletion : SqbDeployment → op.World → Type 0
  EndsByDeletion d w =
      (s : SqbDeployment × op.World) × (SqbDeployment.handlers op (d, w) ≡ (ok tt, s))
      × P s.1
      × (is_deleted op.sums d.metadata ≡ ok true)
      × (SqbDeployment.operate op (d, w) ≡ on_rest (Handler.delete op.sqb_deployments) s)

  after_handlers :
      (d : SqbDeployment) (w : op.World) (mark : Bool) (r : Result (Unit {0}))
      (s : SqbDeployment × op.World)
      → is_deleted op.sums d.metadata ≡ ok mark
      → SqbDeployment.handlers op (d, w) ≡ (r, s)
      → P s.1
      → P (SqbDeployment.operate op (d, w)).1.1 ⊎ EndsByDeletion d w
  unfolding SqbDeployment.operate SqbDeployment.finish
  after_handlers d w true (ok u) s e f h = inr (s, f, h, e, rw e (rw f refl))
  after_handlers d w false (ok u) s e f h = inl (rw e (rw f (finish-Holds s.0 s.1 h)))
  after_handlers d w mark (err e') s e f h = inl (rw e (rw f h))
  after_handlers d w mark panic s e f h = inl (rw e (rw f h))

  -- Operate deletes an SQBDeployment itself only after its handlers: each property of the cluster
  -- that all writes and the deletions of deployments, ingresses, claims and virtual services keep
  -- survives, or the SQBDeployment counts as deleted, its handlers all succeeded, and what is left
  -- to do is its deletion, in a cluster that has the property.
  pub operate_deletes_last :
      (d : SqbDeployment) (w : op.World)
      → P w
      → P (SqbDeployment.operate op (d, w)).1.1 ⊎ EndsByDeletion d w
  unfolding SqbDeployment.operate
  operate_deletes_last d w h = elim (Result-cases (is_deleted op.sums d.metadata)) [
    | inl (mark, e) ↦
        after_handlers d w mark (SqbDeployment.handlers op (d, w)).0
          (SqbDeployment.handlers op (d, w)).1 e refl (handlers-Keeps (d, w) h)
    | inr (inl (e', e)) ↦ inl (rw e h)
    | inr (inr e) ↦ inl (rw e h)
  ]

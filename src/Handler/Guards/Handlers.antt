-- ===== src/Handler/Guards/Handlers.antt =====
-- What the handlers of the other kinds keep, for an object that does not count as deleted.
use elastic_env_operator.Base.{
  ◌≡◌, refl, ap, String, false, not, ◌&&◌, ◌==◌, Result, ok, err, panic, pure, Keeps, Keeps-bind,
  both_branches, index, ◌>>=◌, ◌>>◌,
}
use elastic_env_operator.Api.Types.{Selector, SqbApplication, SqbDeployment, sqb_deployment_obj}
use elastic_env_operator.Kinds.Core.{Ingress, ingress_obj, service_obj}
use elastic_env_operator.Kinds.Istio.{virtual_service_obj, new_virtual_service}
use elastic_env_operator.Kinds.Monitoring.{scrape_obj}
use elastic_env_operator.Kinds.Workload.{Deployment, deployment_obj}
use elastic_env_operator.Entity.ConfigMap.{istio_enable}
use elastic_env_operator.Entity.Keys.{public_entry_annotation_key}
use elastic_env_operator.Operator.{Operator}
use elastic_env_operator.Handler
use elastic_env_operator.Handler.{deleted}
use elastic_env_operator.Handler.Deployment
use elastic_env_operator.Handler.Deployment.Template.{desired}
use elastic_env_operator.Handler.Deployment.Scheduling.{delayed_health_check}
use elastic_env_operator.Handler.Ingress
use elastic_env_operator.Handler.Istio
use elastic_env_operator.Handler.Settings.{has_public_entry}
use elastic_env_operator.Cluster.{Resource, get_or_new, get}
use elastic_env_operator.Api.Meta.{RuntimeObj, ObjectMeta}
use elastic_env_operator.Handler.Guards.{
  KeepsWrites, KeepsDeletes, create_or_update-Keeps, delete-Keeps,
}

module _ {W : Type 0} (P : W → Type 0) where
  pub ensured_one-Keeps :
      {O : Type 0} ⦃obj : RuntimeObj O⦄ (r : Resource W O) (o : O)
      → KeepsWrites P r
      → Keeps P (Handler.create_or_update r o >> pure tt)
  ensured_one-Keeps r o k =
      Keeps-bind P (Handler.create_or_update r o) (λ _. pure tt) (create_or_update-Keeps P r k o)
        (λ _ w h. h)

  -- An object is read, or made anew, and written.
  pub ensured-Keeps :
      {O : Type 0} ⦃obj : RuntimeObj O⦄ (r : Resource W O) (namespace name : String) (blank : O)
      (f : O → O)
      → KeepsWrites P r
      → Keeps P
          (get_or_new r namespace name blank >>= λ o. Handler.create_or_update r (f o) >> pure tt)
  unfolding get_or_new
  ensured-Keeps r namespace name blank f k =
      Keeps-bind P (get_or_new r namespace name blank)
        (λ o. Handler.create_or_update r (f o) >> pure tt) (λ w h. h)
        (λ o. ensured_one-Keeps r (f o) k)

-- What the handler of deployments leaves of the SQBDeployment.
abbrev pub core : SqbDeployment → ObjectMeta × Selector
core d = (d.metadata, d.spec.selector)

module _ (op : Operator) (P : op.World → Type 0) (writes : KeepsWrites P op.deployments) where
  returned-keeps :
      (d : SqbDeployment) (x : Result Deployment × op.World)
      → P x.1
      → P (Deployment.returned op d x).1.1 × ((Deployment.returned op d x).1.0 ≡ d)
  unfolding Deployment.returned
  returned-keeps d (ok dep, w) h = (h, refl)
  returned-keeps d (err e, w) h = (h, refl)
  returned-keeps d (panic, w) h = (h, refl)

  written-keeps :
      (dep : Result Deployment) (d : SqbDeployment) (w : op.World)
      → P w
      → P (Deployment.written op dep d w).1.1 × ((Deployment.written op dep d w).1.0 ≡ d)
  unfolding Deployment.written
  written-keeps (ok dep) d w h =
      returned-keeps d (Handler.create_or_update op.deployments dep w)
        (create_or_update-Keeps P op.deployments writes dep w h)
  written-keeps (err e) d w h = (h, refl)
  written-keeps panic d w h = (h, refl)

  from_desired-keeps :
      (dep : Result Deployment) (d : SqbDeployment) (w : op.World)
      → P w
      → P (Deployment.from_desired op dep d w).1.1
        × (core (Deployment.from_desired op dep d w).1.0 ≡ core d)
  unfolding Deployment.from_desired
  from_desired-keeps (ok dep) d w h =
      let (kept, same) =
        written-keeps (Deployment.additional_spec op dep) (delayed_health_check d) w h in
      (kept, ap core same)
  from_desired-keeps (err e) d w h = (h, refl)
  from_desired-keeps panic d w h = (h, refl)

  pub from_objects-keeps :
      (found : Result Deployment) (app : Result SqbApplication) (d : SqbDeployment) (w : op.World)
      → P w
      → P (Deployment.from_objects op found app d w).1.1
        × (core (Deployment.from_objects op found app d w).1.0 ≡ core d)
  unfolding Deployment.from_objects
  from_objects-keeps (err e) app d w h = (h, refl)
  from_objects-keeps panic app d w h = (h, refl)
  from_objects-keeps (ok dep) (err e) d w h = (h, refl)
  from_objects-keeps (ok dep) panic d w h = (h, refl)
  from_objects-keeps (ok dep) (ok app) d w h = from_desired-keeps (desired op app d dep) d w h

  -- The handler of deployments deletes nothing.
  pub handle_deployment-keeps :
      (d : SqbDeployment) (w : op.World)
      → deleted op.sums d.metadata ≡ false
      → P w
      → P (Deployment.handle op (d, w)).1.1 × (core (Deployment.handle op (d, w)).1.0 ≡ core d)
  unfolding Deployment.handle Deployment.create_or_update delayed_health_check
  handle_deployment-keeps d w e h = rw e (from_objects-keeps _ _ d w h)

module _ (op : Operator) (P : op.World → Type 0) (writes : KeepsWrites P op.ingresses) where
  delete_found-Keeps :
      KeepsDeletes P op.ingresses
      → (found : Result Ingress) → Keeps P (Ingress.delete_found op found)
  unfolding Ingress.delete_found
  delete_found-Keeps k (ok ingress) w h = delete-Keeps P op.ingresses k ingress w h
  delete_found-Keeps k (err e) w h =
      both_branches (λ (x : Result (Unit {0}) × op.World). P x.1) e.is_not_found _ _ h h
  delete_found-Keeps k panic w h = h

  create_public-Keeps :
      (d : SqbDeployment) → Keeps P (Ingress.create_or_update_for_sqbdeployment op d)
  unfolding Ingress.create_or_update_for_sqbdeployment
  create_public-Keeps d =
      let blank = Ingress.blank_public op.config d in
      ensured-Keeps P op.ingresses blank.metadata.namespace blank.metadata.name blank
        (Ingress.desired_public op.config d) writes

  -- The handler of the public ingress deletes ingresses only.
  pub handle_public-Keeps :
      KeepsDeletes P op.ingresses
      → (d : SqbDeployment) → Keeps P (Ingress.handle_sqbdeployment op d)
  unfolding Ingress.handle_sqbdeployment Ingress.delete_for_sqbdeployment
  handle_public-Keeps k d =
      let gone : Keeps P (Ingress.delete_for_sqbdeployment op d) =
        λ w h. delete_found-Keeps k _ w h in
      both_branches (Keeps P) (deleted op.sums d.metadata) (Ingress.delete_for_sqbdeployment op d) _
        gone
        (both_branches (Keeps P) (not (index d.annotations public_entry_annotation_key == "true"))
          (Ingress.delete_for_sqbdeployment op d) (Ingress.create_or_update_for_sqbdeployment op d)
          gone (create_public-Keeps d))

module _ (op : Operator) (P : op.World → Type 0) (writes : KeepsWrites P op.virtual_services) where
  create_special-Keeps : (d : SqbDeployment) → Keeps P (Istio.create_or_update_special op d)
  unfolding Istio.create_or_update_special get_or_new get
  create_special-Keeps d =
      Keeps-bind P
        (get_or_new op.virtual_services d.namespace d.name (new_virtual_service d.namespace d.name))
        (λ v. get op.sqb_applications v.metadata.namespace d.spec.selector.app >>= λ app.
          Handler.create_or_update op.virtual_services (Istio.desired_special op.config d app v)
          >> pure tt)
        (λ w h. h)
        (λ v.
          Keeps-bind P (get op.sqb_applications v.metadata.namespace d.spec.selector.app)
            (λ app.
              Handler.create_or_update op.virtual_services (Istio.desired_special op.config d app v)
              >> pure tt)
            (λ w h. h)
            (λ app.
              ensured_one-Keeps P op.virtual_services (Istio.desired_special op.config d app v)
                writes))

  -- The handler of the special virtual service deletes virtual services only.
  pub handle_special-Keeps :
      KeepsDeletes P op.virtual_services → (d : SqbDeployment) → Keeps P (Istio.handle_special op d)
  unfolding Istio.handle_special Istio.delete_special
  handle_special-Keeps k d =
      both_branches (Keeps P) (not (istio_enable op.config)) (pure tt) _ (λ w h. h)
        (both_branches (Keeps P) (has_public_entry d && not (deleted op.sums d.metadata))
          (Istio.create_or_update_special op d) (Istio.delete_special op d) (create_special-Keeps d)
          (delete-Keeps P op.virtual_services k (new_virtual_service d.namespace d.name)))

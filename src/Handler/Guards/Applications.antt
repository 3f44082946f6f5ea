-- ===== src/Handler/Guards/Applications.antt =====
-- What the operation on an application that does not count as deleted deletes at most.
use elastic_env_operator.Base.{
  ◌≡◌, ap, false, not, Option, none, some, List, [], ◌∷◌, made, remove, ok, Result, Exec, lift,
  pure, ◌>>=◌, ◌>>◌, on_rest, is_empty, index, Keeps, Keeps-bind, Keeps-on_object, Leads,
  Leads-bind, both_branches,
}
use elastic_env_operator.Api.Types.{
  SqbApplication, SqbDeployment, sqb_application_obj, sqb_deployment_obj,
}
use elastic_env_operator.Entity.Keys.{service_monitor_annotation_key, app_key, plane_key}
use elastic_env_operator.Entity.ConfigMap.{is_victoria_metrics_enable}
use elastic_env_operator.Kinds.Core.{ingress_obj, service_obj, new_service}
use elastic_env_operator.Kinds.Monitoring.{VmServiceScrape, VmEndpoint, scrape_obj, new_scrape}
use elastic_env_operator.Cluster.{get_or_new, list_into}
use elastic_env_operator.Operator.{Operator}
use elastic_env_operator.Handler
use elastic_env_operator.Handler.{is_deleted, deleted, succeeded}
use elastic_env_operator.Handler.Service
use elastic_env_operator.Handler.Ingress
use elastic_env_operator.Handler.Ingress.{
  is_auto_ingress, domain_name, public_names, labelled, delete_others,
}
use elastic_env_operator.Handler.Monitoring
use elastic_env_operator.Handler.Monitoring.{aimed, completed, with_token, app_and_group}
use elastic_env_operator.Handler.SqbDeploymentList
use elastic_env_operator.Handler.SqbDeploymentList.{handle_istio}
use elastic_env_operator.Handler.SqbApplication
use elastic_env_operator.Handler.SqbApplication.{with_error, with_default_hosts}
use elastic_env_operator.Handler.Guards.{
  KeepsWrites, KeepsDeletes, KeepsAllWrites, update_status-Keeps, delete-Keeps,
}
use elastic_env_operator.Handler.Guards.Handlers.{ensured-Keeps, ensured_one-Keeps}
use elastic_env_operator.Handler.Guards.Ingresses.{ingress-Keeps}

module _ (op : Operator) (P : op.World → Type 0) (writes : KeepsWrites P op.sqb_deployments) where
  write_changed-Keeps : (d : Option SqbDeployment) → Keeps P (SqbDeploymentList.write_changed op d)
  unfolding SqbDeploymentList.write_changed
  write_changed-Keeps none = λ w h. h
  write_changed-Keeps (some d) = ensured_one-Keeps P op.sqb_deployments d writes

  update_istio-Keeps :
      (app : SqbApplication) (ds : List SqbDeployment)
      → Keeps P (SqbDeploymentList.update_istio op app ds)
  unfolding SqbDeploymentList.update_istio
  update_istio-Keeps app [] = λ w h. h
  update_istio-Keeps app (d ∷ ds) =
      let rest : Option SqbDeployment → Exec op.World (Unit {0}) =
        λ d'. SqbDeploymentList.write_changed op d' >> SqbDeploymentList.update_istio op app ds in
      Keeps-bind P (lift (handle_istio op.config app d)) rest (λ w h. h)
        (λ d'.
          Keeps-bind P (SqbDeploymentList.write_changed op d')
            (λ _. SqbDeploymentList.update_istio op app ds) (write_changed-Keeps d')
            (λ _. update_istio-Keeps app ds))

  pub deployments-Keeps :
      (app : SqbApplication)
      → deleted op.sums app.metadata ≡ false
      → Keeps P (SqbDeploymentList.handle_sqbapplication op app)
  unfolding SqbDeploymentList.handle_sqbapplication
      SqbDeploymentList.create_or_update_for_sqbapplication SqbDeploymentList.list_by_label
      list_into
  deployments-Keeps app e = rw e (
      Keeps-bind P
        (SqbDeploymentList.list_by_label op app.namespace (made ((app_key, app.name) ∷ [])))
        (SqbDeploymentList.update_istio op app) (λ w h. h) (update_istio-Keeps app))

module _ (op : Operator) (P : op.World → Type 0)
    (writes : KeepsWrites P op.vm_service_scrapes) where
  vm_creation-Keeps : (app : SqbApplication) → Keeps P (Monitoring.create_or_update_vm op app)
  unfolding Monitoring.create_or_update_vm get_or_new
  vm_creation-Keeps app =
      let found : VmServiceScrape → VmServiceScrape =
        aimed (remove (made (app_and_group app)) plane_key) app.namespace in
      let write : VmServiceScrape → List VmEndpoint → Exec op.World (Unit {0}) = λ vm endpoints.
        Handler.create_or_update op.vm_service_scrapes
          (completed app (with_token endpoints) (found vm))
        >> pure tt in
      let endpoints =
        op.unmarshal_vm_endpoints (index app.annotations service_monitor_annotation_key) in
      Keeps-bind P
        (get_or_new op.vm_service_scrapes app.namespace app.name
          (new_scrape app.namespace app.name))
        (λ vm. lift endpoints >>= write vm) (λ w h. h)
        (λ vm.
          Keeps-bind P (lift endpoints) (write vm) (λ w h. h)
            (λ es.
              ensured_one-Keeps P op.vm_service_scrapes (completed app (with_token es) (found vm))
                writes))

  pub vm-Keeps :
      KeepsDeletes P op.vm_service_scrapes
      → (app : SqbApplication) → Keeps P (Monitoring.handle_vm op app)
  unfolding Monitoring.handle_vm Monitoring.delete_vm
  vm-Keeps k app =
      let gone = delete-Keeps P op.vm_service_scrapes k (new_scrape app.namespace app.name) in
      both_branches (Keeps P) (not (is_victoria_metrics_enable op.config)) (pure tt) _ (λ w h. h)
        (both_branches (Keeps P) (deleted op.sums app.metadata) (Monitoring.delete_vm op app) _ gone
          (both_branches (Keeps P)
            (not (is_empty (index app.annotations service_monitor_annotation_key)))
            (Monitoring.create_or_update_vm op app) (Monitoring.delete_vm op app)
            (vm_creation-Keeps app) gone))

module _ (op : Operator) (P : op.World → Type 0) (writes : KeepsAllWrites op P) where
  service-Keeps :
      (app : SqbApplication)
      → deleted op.sums app.metadata ≡ false
      → Keeps P (Service.handle op app)
  unfolding Service.handle Service.create_or_update
  service-Keeps app e = rw e (
      ensured-Keeps P op.services app.namespace app.name (new_service app.namespace app.name)
        (Service.desired op.json app) writes.services)

  handlers-Keeps :
      KeepsDeletes P op.ingresses
      → KeepsDeletes P op.vm_service_scrapes
      → (app : SqbApplication) → deleted op.sums app.metadata ≡ false
      → Keeps P (SqbApplication.handlers op app)
  unfolding SqbApplication.handlers
  handlers-Keeps ingresses scrapes app e =
      let vm = Monitoring.handle_vm op app in
      let deployments = SqbDeploymentList.handle_sqbapplication op app in
      Keeps-bind P (Service.handle op app)
        (λ _. Ingress.handle_sqbapplication op app >> (deployments >> vm)) (service-Keeps app e)
        (λ _.
          Keeps-bind P (Ingress.handle_sqbapplication op app) (λ _. deployments >> vm)
            (ingress-Keeps op P writes.ingresses ingresses app)
            (λ _.
              Keeps-bind P deployments (λ _. vm)
                (deployments-Keeps op P writes.sqb_deployments app e)
                (λ _. vm-Keeps op P writes.vm_service_scrapes scrapes app)))

  abbrev LiveApplication : SqbApplication × op.World → Type 0
  LiveApplication (app, w) = P w × (deleted op.sums app.metadata ≡ false)

  finish_application : Leads LiveApplication (λ s. P s.1) (SqbApplication.finish op false)
  unfolding SqbApplication.finish
  finish_application s h =
      both_branches (λ (x : Result (Unit {0}) × (SqbApplication × op.World)). P x.1.1)
        (not (is_empty s.0.status.error_info)) _ _
        (Keeps-on_object P (Handler.update_status op.sqb_applications)
          (update_status-Keeps P op.sqb_applications writes.sqb_applications)
          (with_error s.0 "", s.1) h.0)
        h.0

  -- The operation on an application that does not count as deleted.
  pub application_deletes_at_most :
      KeepsDeletes P op.ingresses
      → KeepsDeletes P op.vm_service_scrapes
      → (app : SqbApplication) (w : op.World) → is_deleted op.sums app.metadata ≡ ok false
      → P w
      → P (SqbApplication.operate op (app, w)).1.1
  unfolding SqbApplication.operate SqbApplication.operate_unless_wrong deleted with_default_hosts
  application_deletes_at_most ingresses scrapes app w e h = rw e (
      Leads-bind LiveApplication (λ s. P s.1) (on_rest (SqbApplication.handlers op))
        (λ _. SqbApplication.finish op false) (λ t k. k.0)
        (λ s k. (handlers-Keeps ingresses scrapes s.0 k.1 s.1 k.0, k.1)) (λ _. finish_application)
        (with_default_hosts op.config app, w) (h, ap succeeded e))

-- ===== src/Handler/Serving/Success.antt =====
-- The operation on an application that does not count as deleted ends well where the server answers.
use elastic_env_operator.Base.{
  replaced_ok, eq_iff, ◌==◌, Result, continue-EndsWell, ◌≡◌, refl, ok, true, false, EndsWell,
  EndsWell-bind, List, [], ◌∷◌, Option, none, some, pure, lift, Exec, ◌>>◌, both_branches, ◌⊎◌, inl,
  inr, is_empty, index, Bool-cases, ap, not, made, remove,
}
use elastic_env_operator.Api.Types.{
  SqbApplication, SqbDeployment, sqb_application_obj, sqb_deployment_obj,
}
use elastic_env_operator.Entity.Keys.{
  initialize_annotation_key, service_monitor_annotation_key, plane_key,
}
use elastic_env_operator.Operator.{Operator}
use elastic_env_operator.Entity.ConfigMap.{is_victoria_metrics_enable}
use elastic_env_operator.Kinds.Core.{service_obj, ingress_obj}
use elastic_env_operator.Kinds.Monitoring.{VmServiceScrape, VmEndpoint, scrape_obj, new_scrape}
use elastic_env_operator.Handler.Monitoring.{aimed, completed, with_token, app_and_group}
use elastic_env_operator.Cluster.{get_or_new}
use elastic_env_operator.Cluster.Answers.{get_or_new-EndsWell}
use elastic_env_operator.Handler
use elastic_env_operator.Handler.{deleted, is_deleted, succeeded}
use elastic_env_operator.Handler.Service
use elastic_env_operator.Handler.Ingress
use elastic_env_operator.Handler.Ingress.{is_auto_ingress, domain_name, labelled, public_names}
use elastic_env_operator.Handler.SqbDeploymentList
use elastic_env_operator.Handler.SqbDeploymentList.{handle_istio}
use elastic_env_operator.Handler.SqbDeploymentList.Laws.{handle_istio_sets, handle_istio_waits}
use elastic_env_operator.Handler.Monitoring
use elastic_env_operator.Handler.SqbApplication
use elastic_env_operator.Handler.SqbApplication.{with_default_hosts, with_error}
use elastic_env_operator.Handler.Writing.{delete-EndsWell}
use elastic_env_operator.Handler.Serving.Answering.{
  AnswersAll, ensured_one-EndsWell, service-EndsWell, ingress-EndsWell, list-EndsWell,
}

-- The annotation for the monitoring is empty, or it is one that decodes.
abbrev pub HasEndpoints : Operator → SqbApplication → Type 0
HasEndpoints op app =
    let text = index app.annotations service_monitor_annotation_key in
    (is_empty text ≡ true) ⊎ ((endpoints : _) × (op.unmarshal_vm_endpoints text ≡ ok endpoints))

module _ (op : Operator) (answers : AnswersAll op) where
  handle_istio_returns :
      (app : SqbApplication) (d : SqbDeployment)
      → (o : Option SqbDeployment) × (handle_istio op.config app d ≡ ok o)
  handle_istio_returns app d =
      elim (Bool-cases (index d.annotations initialize_annotation_key == "true")) [
        | inl e ↦
            let found =
              handle_istio_sets op.config app d initialize_annotation_key ((eq_iff _ _).0 e)
                (λ h. cc h) in
            (found.0, found.1)
        | inr e ↦ (none, handle_istio_waits op.config app d (λ same. cc (e, (eq_iff _ _).1 same)))
      ]

  write_changed-EndsWell :
      (d : Option SqbDeployment) → EndsWell (SqbDeploymentList.write_changed op d)
  unfolding SqbDeploymentList.write_changed
  write_changed-EndsWell none = λ w. (tt, refl)
  write_changed-EndsWell (some d) =
      ensured_one-EndsWell op answers op.sqb_deployments answers.sqb_deployments d

  update_istio-EndsWell :
      (app : SqbApplication) (ds : List SqbDeployment)
      → EndsWell (SqbDeploymentList.update_istio op app ds)
  unfolding SqbDeploymentList.update_istio
  update_istio-EndsWell app [] = λ w. (tt, refl)
  update_istio-EndsWell app (d ∷ ds) =
      EndsWell-bind (lift (handle_istio op.config app d))
        (λ d'. SqbDeploymentList.write_changed op d' >> SqbDeploymentList.update_istio op app ds)
        (λ w. handle_istio_returns app d)
        (λ d'.
          EndsWell-bind (SqbDeploymentList.write_changed op d')
            (λ _. SqbDeploymentList.update_istio op app ds) (write_changed-EndsWell d')
            (λ _. update_istio-EndsWell app ds))

  deployments-EndsWell :
      (app : SqbApplication)
      → deleted op.sums app.metadata ≡ false
      → EndsWell (SqbDeploymentList.handle_sqbapplication op app)
  unfolding SqbDeploymentList.handle_sqbapplication
      SqbDeploymentList.create_or_update_for_sqbapplication SqbDeploymentList.list_by_label
  deployments-EndsWell app live = rw live (
      list-EndsWell op answers op.sqb_deployments answers.sqb_deployments app
        (SqbDeploymentList.update_istio op app) (update_istio-EndsWell app))

  vm_creation-EndsWell :
      (app : SqbApplication) (endpoints : List VmEndpoint)
      → op.unmarshal_vm_endpoints (index app.annotations service_monitor_annotation_key)
        ≡ ok endpoints
      → EndsWell (Monitoring.create_or_update_vm op app)
  unfolding Monitoring.create_or_update_vm
  vm_creation-EndsWell app endpoints e =
      let found : VmServiceScrape → VmServiceScrape =
        aimed (remove (made (app_and_group app)) plane_key) app.namespace in
      let write : VmServiceScrape → List VmEndpoint → Exec op.World (Unit {0}) = λ vm es.
        Handler.create_or_update op.vm_service_scrapes (completed app (with_token es) (found vm))
        >> pure tt in
      let blank = new_scrape app.namespace app.name in
      EndsWell-bind (get_or_new op.vm_service_scrapes app.namespace app.name blank) _
        (get_or_new-EndsWell op.vm_service_scrapes answers.scrapes app.namespace app.name blank)
        (λ vm.
          EndsWell-bind
            (lift
              (op.unmarshal_vm_endpoints (index app.annotations service_monitor_annotation_key)))
            (write vm) (λ w. (endpoints, e))
            (λ es. ensured_one-EndsWell op answers op.vm_service_scrapes answers.scrapes _))

  vm-EndsWell :
      (app : SqbApplication) → HasEndpoints op app → EndsWell (Monitoring.handle_vm op app)
  unfolding Monitoring.handle_vm Monitoring.delete_vm
  vm-EndsWell app has =
      let gone =
        delete-EndsWell op.vm_service_scrapes answers.scrapes (new_scrape app.namespace app.name) in
      both_branches EndsWell (not (is_victoria_metrics_enable op.config)) _ _ (λ w. (tt, refl))
        (both_branches EndsWell (deleted op.sums app.metadata) _ _ gone (elim has [
          | inl e ↦ rw e gone
          | inr (endpoints, e) ↦
              both_branches EndsWell
                (not (is_empty (index app.annotations service_monitor_annotation_key))) _ _
                (vm_creation-EndsWell app endpoints e) gone
        ]))

  handlers-EndsWell :
      (app : SqbApplication)
      → deleted op.sums app.metadata ≡ false
      → HasEndpoints op app
      → EndsWell (SqbApplication.handlers op app)
  unfolding SqbApplication.handlers
  handlers-EndsWell app live has =
      EndsWell-bind (Service.handle op app) _ (service-EndsWell op answers app live) (λ _.
        EndsWell-bind (Ingress.handle_sqbapplication op app) _ (ingress-EndsWell op answers app)
          (λ _.
            EndsWell-bind (SqbDeploymentList.handle_sqbapplication op app)
              (λ _. Monitoring.handle_vm op app) (deployments-EndsWell app live)
              (λ _. vm-EndsWell app has)))

  finish-EndsWell : EndsWell (SqbApplication.finish op false)
  unfolding SqbApplication.finish Handler.update_status
  finish-EndsWell (app, w) =
      both_branches
        (λ (x : Result (Unit {0}) × (SqbApplication × op.World)). (u : Unit {0}) × (x.0 ≡ ok u))
        (not (is_empty app.status.error_info)) _ _
        (
          tt,
          replaced_ok (with_error app "") _ _
              (answers.sqb_applications.update_status (with_error app "") w),
        )
        (tt, refl)

  -- Operate of an application that does not count as deleted ends well where the server answers
  -- each call, with the object or with the error that it is missing, and accepts each write, and
  -- the annotation for the monitoring is empty or decodes.
  pub operate_succeeds :
      (app : SqbApplication) (w : op.World)
      → is_deleted op.sums app.metadata ≡ ok false
      → HasEndpoints op app
      → (SqbApplication.operate op (app, w)).0 ≡ ok tt
  unfolding SqbApplication.operate SqbApplication.operate_unless_wrong SqbApplication.finish
      with_default_hosts deleted
  operate_succeeds app w live has =
      let app' = with_default_hosts op.config app in
      rw live
        (continue-EndsWell (SqbApplication.handlers op app' w).0
          (λ _. SqbApplication.finish op false) _ (handlers-EndsWell app' (ap succeeded live) has w)
          (λ _. finish-EndsWell)).1

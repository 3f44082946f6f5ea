-- ===== src/Handler/Running/Answering.antt =====
-- Where the server answers, the handlers behind that of the claims end well.
use mathlib.Core.Path.{subst}
use elastic_env_operator.Base.{
  continue, continue-EndsWell, ◌∙◌, ◌≡◌, refl, sym, false, not, ◌&&◌, ◌==◌, index, has, String,
  Result, ok, err, panic, Exec, pure, EndsWell, EndsWell-bind, ◌>>=◌, ◌>>◌, both_branches,
}
use elastic_env_operator.Api.Types.{
  SqbApplication, SqbDeployment, Selector, sqb_application_obj, sqb_deployment_obj,
}
use elastic_env_operator.Entity.Keys.{public_entry_annotation_key, kubevela_app_name_label}
use elastic_env_operator.Entity.ConfigMap.{istio_enable}
use elastic_env_operator.Kinds.Core.{Ingress, ingress_obj}
use elastic_env_operator.Kinds.Istio.{VirtualService, virtual_service_obj, new_virtual_service}
use elastic_env_operator.Kinds.Workload.{Deployment, deployment_obj, new_deployment}
use elastic_env_operator.Operator.{Operator}
use elastic_env_operator.Cluster.{get, get_or_new}
use elastic_env_operator.Api.Meta.{ObjectMeta}
use elastic_env_operator.Cluster.Stores.{Stores, NoneOfKubevela, Leaves, unless_missing_lem}
use elastic_env_operator.Handler.Guards.Handlers.{core}
use elastic_env_operator.Handler.Running.{running, meta-desired}
use elastic_env_operator.Handler.Running.Deployments.{
  IsPlain, IsOfIt, found-IsOfIt, additional_spec-plain,
}
use elastic_env_operator.Handler.Deployment.Template.Laws.{HasCommand, desired_returned}
use elastic_env_operator.Handler.Deployment.Scheduling.{delayed_health_check}
use elastic_env_operator.Cluster.Answers.{Answers, IsAnswer, get_or_new-EndsWell}
use elastic_env_operator.Handler
use elastic_env_operator.Handler.{deleted, is_deleted, succeeded}
use elastic_env_operator.Handler.Settings.{has_public_entry}
use elastic_env_operator.Handler.Ingress
use elastic_env_operator.Handler.Istio
use elastic_env_operator.Handler.Deployment
use elastic_env_operator.Handler.Deployment.Template.{init_of, desired}
use elastic_env_operator.Handler.Writing.{IsOf, create_or_update-EndsWell, delete-EndsWell}
use elastic_env_operator.Handler.Running.Claiming.{HasValue}

module _ (op : Operator) where
  -- The application of an SQBDeployment can be read.
  abbrev pub HasApplication : ObjectMeta × Selector → op.World → Type 0
  HasApplication (m, selector) w = HasValue (op.sqb_applications.get m.namespace selector.app w)

  pub HasApplication-IsOf :
      (c : ObjectMeta × Selector) → IsOf op.sqb_applications (HasApplication c)
  HasApplication-IsOf (m, selector) w w' same h = (h.0, same.0 m.namespace selector.app ∙ h.1)

  returned-value :
      (d : SqbDeployment) (x : Result Deployment × op.World)
      → HasValue x.0
      → HasValue (Deployment.returned op d x).0
  unfolding Deployment.returned
  returned-value d (ok dep, w) h = (tt, refl)
  returned-value d (err e, w) h = absurd (cc h.1)
  returned-value d (panic, w) h = absurd (cc h.1)

  -- The public ingress.
  module _ (answers : Answers op.ingresses) where
    delete_found-EndsWell :
        (found : Result Ingress) → IsAnswer found → EndsWell (Ingress.delete_found op found)
    unfolding Ingress.delete_found
    delete_found-EndsWell (ok i) h = delete-EndsWell op.ingresses answers i
    delete_found-EndsWell (err e) h = λ w. rw h (tt, refl)
    delete_found-EndsWell panic h = elim h [ ]

    pub handle_public-EndsWell : (d : SqbDeployment) → EndsWell (Ingress.handle_sqbdeployment op d)
    unfolding Ingress.handle_sqbdeployment Ingress.delete_for_sqbdeployment
        Ingress.create_or_update_for_sqbdeployment
    handle_public-EndsWell d =
        let gone : EndsWell (Ingress.delete_for_sqbdeployment op d) =
          λ w. delete_found-EndsWell _ (answers.get d.namespace _ w) w in
        let blank = Ingress.blank_public op.config d in
        both_branches EndsWell (deleted op.sums d.metadata) _ _ gone (
          both_branches EndsWell (not (index d.annotations public_entry_annotation_key == "true")) _
            _ gone
            (EndsWell-bind
              (get_or_new op.ingresses blank.metadata.namespace blank.metadata.name blank) _
              (get_or_new-EndsWell op.ingresses answers _ _ blank)
              (λ i.
                EndsWell-bind
                  (Handler.create_or_update op.ingresses (Ingress.desired_public op.config d i))
                  (λ _. pure tt) (create_or_update-EndsWell op.ingresses answers _)
                  (λ _ w. (tt, refl)))))

-- The server answers the calls for each kind of object that the operation writes.
pub record AnswersDeployment (op : Operator) : Type 0 where
  pub sqb_deployments : Answers op.sqb_deployments
  pub deployments : Answers op.deployments
  pub pvcs : Answers op.pvcs
  pub ingresses : Answers op.ingresses
  pub virtual_services : Answers op.virtual_services

-- What is done to the kinds that the operation writes leaves what is read of the applications, and a
-- virtual service is read under its namespace.
pub record ApplicationsLeft (op : Operator) : Type 0 where
  pub deployments : Leaves op.sqb_applications op.deployments
  pub pvcs : Leaves op.sqb_applications op.pvcs
  pub ingresses : Leaves op.sqb_applications op.ingresses
  pub namespaced :
      (namespace name : String) (v : VirtualService) (w : op.World)
      → op.virtual_services.get namespace name w ≡ ok v
      → v.metadata.namespace ≡ namespace

module _ (op : Operator) (answers : AnswersDeployment op) (left : ApplicationsLeft op) where
  -- The handler of deployments.
  module _ (stores : Stores running op.deployments) (own : NoneOfKubevela op.deployments)
      (d : SqbDeployment) (plain : IsPlain op d)
      (unowned : has d.labels kubevela_app_name_label ≡ false)
      (command : HasCommand (init_of d.spec.lifecycle)) where
    from_desired-value :
        (app : SqbApplication) (dep : Deployment) (made_dep : Result Deployment) (w : op.World)
        → IsOfIt op stores own d plain unowned dep
        → desired op app d dep ≡ made_dep
        → HasValue made_dep
        → HasValue (Deployment.from_desired op made_dep d w).0
    unfolding Deployment.from_desired Deployment.written
    from_desired-value app dep (ok made_dep) w is made_from h =
        rw
          (additional_spec-plain op stores own d plain unowned made_dep
            ((meta-desired op app d dep made_dep made_from).0 ∙ is.namespaced))
          (returned-value op (delayed_health_check d)
            (Handler.create_or_update op.deployments made_dep w)
            (create_or_update-EndsWell op.deployments answers.deployments made_dep w))
    from_desired-value app dep (err e) w is made_from h = absurd (cc h.1)
    from_desired-value app dep panic w is made_from h = absurd (cc h.1)

    from_objects-value :
        (found : Result Deployment) (app : Result SqbApplication) (w : op.World)
        → ((dep : Deployment) → found ≡ ok dep → IsOfIt op stores own d plain unowned dep)
        → HasValue found
        → HasValue app
        → HasValue (Deployment.from_objects op found app d w).0
    unfolding Deployment.from_objects
    from_objects-value (ok dep) (ok app) w is h k =
        from_desired-value app dep (desired op app d dep) w (is dep refl) refl
          (desired_returned op app d dep command)
    from_objects-value (err e) app w is h k = absurd (cc h.1)
    from_objects-value panic app w is h k = absurd (cc h.1)
    from_objects-value (ok dep) (err e) w is h k = absurd (cc k.1)
    from_objects-value (ok dep) panic w is h k = absurd (cc k.1)

    pub handle_deployment-value :
        (w : op.World)
        → deleted op.sums d.metadata ≡ false
        → HasApplication op (core d) w
        → HasValue (Deployment.handle op (d, w)).0
    unfolding Deployment.handle Deployment.create_or_update get_or_new
    handle_deployment-value w live found = rw live (
        from_objects-value _ (op.sqb_applications.get d.namespace d.spec.selector.app w) w
          (found-IsOfIt op stores own d plain unowned w)
          (get_or_new-EndsWell op.deployments answers.deployments d.namespace d.name
            (new_deployment d.namespace d.name) w)
          found)

  -- The special virtual service, from what was read of it.
  module _ (d : SqbDeployment) (w : op.World) (found : HasApplication op (core d) w) where
    write_special : VirtualService → Exec op.World (Unit {0})
    write_special v = get op.sqb_applications v.metadata.namespace d.spec.selector.app >>= (λ app.
        Handler.create_or_update op.virtual_services (Istio.desired_special op.config d app v)
        >> pure tt)

    write_special-value :
        (read : Result VirtualService)
        → ((v : VirtualService) → read ≡ ok v → v.metadata.namespace ≡ d.namespace)
        → HasValue read
        → HasValue (continue read write_special w).0
    unfolding write_special get
    write_special-value (ok v) is h =
        continue-EndsWell (op.sqb_applications.get v.metadata.namespace d.spec.selector.app w)
          (λ app.
            Handler.create_or_update op.virtual_services (Istio.desired_special op.config d app v)
            >> pure tt)
          w
          (subst (λ namespace. HasValue (op.sqb_applications.get namespace d.spec.selector.app w))
            (sym (is v refl)) found)
          (λ app.
            EndsWell-bind
              (Handler.create_or_update op.virtual_services
                (Istio.desired_special op.config d app v))
              (λ _. pure tt)
              (create_or_update-EndsWell op.virtual_services answers.virtual_services _)
              (λ _ w'. (tt, refl)))
    write_special-value (err e) is h = absurd (cc h.1)
    write_special-value panic is h = absurd (cc h.1)

    pub handle_special-value : HasValue (Istio.handle_special op d w).0
    unfolding Istio.handle_special Istio.delete_special Istio.create_or_update_special get_or_new
        write_special
    handle_special-value =
        let blank = new_virtual_service d.namespace d.name in
        let Good : Exec op.World (Unit {0}) → Type 0 = λ act. HasValue (act w).0 in
        both_branches Good (not (istio_enable op.config)) _ _ (tt, refl)
          (both_branches Good (has_public_entry d && not (deleted op.sums d.metadata)) _ _
            (write_special-value _
              (unless_missing_lem (λ v. v.metadata.namespace ≡ d.namespace)
                (op.virtual_services.get d.namespace d.name w) blank
                (λ v e. left.namespaced d.namespace d.name v w e) refl)
              (get_or_new-EndsWell op.virtual_services answers.virtual_services d.namespace d.name
                blank w))
            (delete-EndsWell op.virtual_services answers.virtual_services blank w))

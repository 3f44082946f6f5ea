-- ===== src/Handler/Serving/Services.antt =====
-- The handler of the service leaves the service of the application.
use elastic_env_operator.Handler.{
  deleted, kubevela_app_name_label, String, Resource, RuntimeObj, is_deleted, succeeded,
}
use elastic_env_operator.Base.{
  ℤ, false, lookup, EndsIn, EndsIn-bind, ◌≡◌, refl, ok, List, none, has, Option, String, ◌>>◌, pure,
}
use mathlib.Core.Path.{subst}
use elastic_env_operator.Api.Types.{sqb_application_obj, SqbApplication}
use elastic_env_operator.Handler.Writing.{create_or_update-Holds}
use elastic_env_operator.Kinds.Core.{service_obj, ingress_obj, Service, new_service}
use elastic_env_operator.Cluster.{unless_missing, get_or_new}
use elastic_env_operator.Handler.Service.Laws.{selector-desired}
use elastic_env_operator.Util.Laws.{has-merge_string_map}
use elastic_env_operator.Operator.{Operator}
use elastic_env_operator.Cluster.Stores.{Holds, Stores, NoneOfKubevela, Leaves, unless_missing_lem}
use elastic_env_operator.Handler.Serving.{
  plane_key, Service, SqbApplication, rules_of, ports_and_plane, named_numbers,
}
use elastic_env_operator.Handler
use elastic_env_operator.Handler.Service

-- What the server promises of the kinds of objects that the operation writes.
pub record Server (op : Operator) : Type 0 where
  pub services : Stores ports_and_plane op.services
  pub ingresses : Stores rules_of op.ingresses
  pub own_services : NoneOfKubevela op.services
  pub own_ingresses : NoneOfKubevela op.ingresses
  pub services_ingresses : Leaves op.services op.ingresses
  pub services_sqb_deployments : Leaves op.services op.sqb_deployments
  pub services_scrapes : Leaves op.services op.vm_service_scrapes
  pub services_sqb_applications : Leaves op.services op.sqb_applications
  pub ingresses_sqb_deployments : Leaves op.ingresses op.sqb_deployments
  pub ingresses_scrapes : Leaves op.ingresses op.vm_service_scrapes
  pub ingresses_sqb_applications : Leaves op.ingresses op.sqb_applications

-- The service as it is after a handler that ends well.
abbrev pub HasService : (op : Operator) → SqbApplication → op.World → Type 0
HasService op app =
    Holds ports_and_plane op.services app.namespace app.name (named_numbers app.spec.ports, none)

module _ (op : Operator) (server : Server op) where
  found_named :
      (app : SqbApplication) (w : op.World) (service : Service)
      → unless_missing
          (op.services.get app.namespace app.name w)
          (new_service app.namespace app.name)
        ≡ ok service
      → (service.metadata.namespace ≡ app.namespace)
        × (service.metadata.name ≡ app.name)
        × (has service.metadata.labels kubevela_app_name_label ≡ false)
  unfolding lookup
  found_named app w =
      unless_missing_lem _ (op.services.get app.namespace app.name w)
        (new_service app.namespace app.name)
        (λ service e. (
          (server.services.named app.namespace app.name service w e).0,
          (server.services.named app.namespace app.name service w e).1,
          server.own_services app.namespace app.name service w e,
        ))
        (refl, refl, refl)

  service_written :
      (app : SqbApplication) (service : Service) (w : op.World)
      → has app.labels kubevela_app_name_label ≡ false
      → (service.metadata.namespace ≡ app.namespace)
        × (service.metadata.name ≡ app.name)
        × (has service.metadata.labels kubevela_app_name_label ≡ false)
      → EndsIn
          (HasService op app)
          (Handler.create_or_update op.services (Service.desired op.json app service))
          w
  unfolding Service.desired
  service_written app service w own is =
      let next = Service.desired op.json app service in
      let act = Handler.create_or_update op.services next in
      let Ends : String → String → List (String × ℤ) × Option String → Type 0 =
        λ namespace name v. EndsIn (Holds ports_and_plane op.services namespace name v) act w in
      subst (λ name. Ends app.namespace name (named_numbers app.spec.ports, none)) is.1
        (subst
          (λ namespace. Ends namespace service.metadata.name (named_numbers app.spec.ports, none))
          is.0
          (subst
            (λ plane.
              Ends service.metadata.namespace service.metadata.name
                (named_numbers app.spec.ports, plane))
            (selector-desired op.json app service plane_key)
            (create_or_update-Holds ports_and_plane op.services server.services next w (
              has-merge_string_map service.metadata.labels app.labels kubevela_app_name_label is.2
                own))))

  pub service_stored :
      (app : SqbApplication) (w : op.World)
      → deleted op.sums app.metadata ≡ false
      → has app.labels kubevela_app_name_label ≡ false
      → EndsIn (HasService op app) (Service.handle op app) w
  unfolding Service.handle Service.create_or_update get_or_new
  service_stored app w live own = rw live (
      EndsIn-bind (HasService op app)
        (get_or_new op.services app.namespace app.name (new_service app.namespace app.name))
        (λ service.
          Handler.create_or_update op.services (Service.desired op.json app service) >> pure tt)
        w
        (λ service e.
          EndsIn-bind (HasService op app)
            (Handler.create_or_update op.services (Service.desired op.json app service))
            (λ _. pure tt) w
            (λ answer e' u _.
              service_written app service w own (found_named app w service e) answer e')))

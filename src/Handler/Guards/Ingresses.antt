-- ===== src/Handler/Guards/Ingresses.antt =====
-- The handler of the ingresses of an application deletes ingresses only.
use elastic_env_operator.Base.{
  String, not, ◌&&◌, ◌||◌, List, [], ◌∷◌, ◌++◌, map, Exec, ◌>>=◌, ◌>>◌, no_items, Keeps, Keeps-bind,
  both_branches,
}
use elastic_env_operator.Api.Types.{
  Domain, SqbApplication, SqbDeployment, sqb_application_obj, sqb_deployment_obj,
}
use elastic_env_operator.Util.{contain_string}
use elastic_env_operator.Kinds.Core.{Ingress, ingress_obj, service_obj, new_ingress}
use elastic_env_operator.Kinds.Monitoring.{scrape_obj}
use elastic_env_operator.Cluster.{get_or_new, list_into}
use elastic_env_operator.Operator.{Operator}
use elastic_env_operator.Handler
use elastic_env_operator.Handler.{is_deleted, deleted, succeeded}
use elastic_env_operator.Handler.Ingress
use elastic_env_operator.Handler.Ingress.{
  is_auto_ingress, domain_name, public_names, labelled, delete_others,
}
use elastic_env_operator.Handler.Settings.{is_ingress_open}
use elastic_env_operator.Handler.Guards.{
  KeepsDeletes, KeepsWrites, create_or_update-Keeps, delete-Keeps,
}

module _ (op : Operator) (P : op.World → Type 0) (writes : KeepsWrites P op.ingresses) where
  write_domains-Keeps :
      (app : SqbApplication) (domains : List Domain)
      → Keeps P (Ingress.write_domains op app domains)
  unfolding Ingress.write_domains get_or_new
  write_domains-Keeps app [] = λ w h. h
  write_domains-Keeps app (domain ∷ domains) =
      let name = domain_name app domain in
      Keeps-bind P (get_or_new op.ingresses app.namespace name (new_ingress app.namespace name))
        (λ ingress.
          Handler.create_or_update op.ingresses (Ingress.desired op.config app domain ingress)
          >> Ingress.write_domains op app domains)
        (λ w h. h)
        (λ ingress.
          Keeps-bind P
            (Handler.create_or_update op.ingresses (Ingress.desired op.config app domain ingress))
            (λ _. Ingress.write_domains op app domains)
            (create_or_update-Keeps P op.ingresses writes _) (λ _. write_domains-Keeps app domains))

  delete_others-Keeps :
      KeepsDeletes P op.ingresses
      → (name : String) (kept : List String) (ingresses : List Ingress)
      → Keeps P (Ingress.delete_others op name kept ingresses)
  unfolding Ingress.delete_others
  delete_others-Keeps k name kept [] = λ w h. h
  delete_others-Keeps k name kept (i ∷ is) =
      let rest = delete_others-Keeps k name kept is in
      both_branches (Keeps P) (is_auto_ingress name i && not (contain_string kept i.metadata.name))
        (Handler.delete op.ingresses i >> Ingress.delete_others op name kept is)
        (Ingress.delete_others op name kept is)
        (Keeps-bind P (Handler.delete op.ingresses i) (λ _. Ingress.delete_others op name kept is)
          (delete-Keeps P op.ingresses k i) (λ _. rest))
        rest

  delete_generated-Keeps :
      KeepsDeletes P op.ingresses
      → (name : String) (ingresses : List Ingress)
      → Keeps P (Ingress.delete_generated op name ingresses)
  unfolding Ingress.delete_generated
  delete_generated-Keeps k name [] = λ w h. h
  delete_generated-Keeps k name (i ∷ is) =
      let rest = delete_generated-Keeps k name is in
      both_branches (Keeps P) (not (is_auto_ingress name i)) (Ingress.delete_generated op name is)
        (Handler.delete op.ingresses i >> Ingress.delete_generated op name is) rest
        (Keeps-bind P (Handler.delete op.ingresses i) (λ _. Ingress.delete_generated op name is)
          (delete-Keeps P op.ingresses k i) (λ _. rest))

  ingress_deletion-Keeps :
      KeepsDeletes P op.ingresses
      → (app : SqbApplication) → Keeps P (Ingress.delete_for_sqbapplication op app)
  unfolding Ingress.delete_for_sqbapplication list_into
  ingress_deletion-Keeps k app =
      Keeps-bind P (list_into op.ingresses app.namespace (labelled op app) [])
        (Ingress.delete_generated op app.name) (λ w h. h) (delete_generated-Keeps k app.name)

  -- The update, whose last loop deletes.
  pub update-Keeps :
      (app : SqbApplication)
      → ((ingresses : List Ingress) (deployments : List SqbDeployment)
          → Keeps P (
              delete_others op app.name
                (map (domain_name app) app.spec.domains
                  ++ public_names op.config app.name deployments)
                ingresses))
      → Keeps P (Ingress.create_or_update_for_sqbapplication op app)
  unfolding Ingress.create_or_update_for_sqbapplication list_into
  update-Keeps app k =
      let clean : List Ingress → List SqbDeployment → Exec op.World (Unit {0}) =
        λ ingresses deployments.
          delete_others op app.name
            (map (domain_name app) app.spec.domains ++ public_names op.config app.name deployments)
            ingresses in
      let list : List Ingress → Exec op.World (Unit {0}) = λ ingresses.
        list_into op.sqb_deployments app.namespace (labelled op app) [] >>= clean ingresses in
      Keeps-bind P (Ingress.write_domains op app app.spec.domains)
        (λ _. list_into op.ingresses app.namespace (labelled op app) [] >>= list)
        (write_domains-Keeps app app.spec.domains)
        (λ _.
          Keeps-bind P (list_into op.ingresses app.namespace (labelled op app) []) list (λ w h. h)
            (λ ingresses.
              Keeps-bind P (list_into op.sqb_deployments app.namespace (labelled op app) [])
                (clean ingresses) (λ w h. h) (k ingresses)))

  ingress_creation-Keeps :
      KeepsDeletes P op.ingresses
      → (app : SqbApplication) → Keeps P (Ingress.create_or_update_for_sqbapplication op app)
  ingress_creation-Keeps k app = update-Keeps app (λ ingresses deployments.
      delete_others-Keeps k app.name
        (map (domain_name app) app.spec.domains ++ public_names op.config app.name deployments)
        ingresses)

  pub ingress-Keeps :
      KeepsDeletes P op.ingresses
      → (app : SqbApplication) → Keeps P (Ingress.handle_sqbapplication op app)
  unfolding Ingress.handle_sqbapplication
  ingress-Keeps k app =
      let gone = ingress_deletion-Keeps k app in
      both_branches (Keeps P) (deleted op.sums app.metadata || no_items app.spec.domains)
        (Ingress.delete_for_sqbapplication op app) _ gone
        (both_branches (Keeps P) (not (is_ingress_open op.config app))
          (Ingress.delete_for_sqbapplication op app)
          (Ingress.create_or_update_for_sqbapplication op app) gone (ingress_creation-Keeps k app))

-- ===== src/Handler/Serving/Answering.antt =====
-- Where the server answers, the handlers of the service and of the ingresses end well.
use elastic_env_operator.Base.{
  ◌≡◌, refl, false, EndsWell, EndsWell-bind, List, [], ◌∷◌, String, pure, Exec, ◌>>◌, ◌>>=◌,
  both_branches, not, no_items, ◌||◌, ◌&&◌,
}
use elastic_env_operator.Api.Types.{SqbApplication, Domain, sqb_application_obj, sqb_deployment_obj}
use elastic_env_operator.Operator.{Operator}
use elastic_env_operator.Util.{contain_string}
use elastic_env_operator.Kinds.Core.{Ingress, new_ingress, new_service, service_obj, ingress_obj}
use elastic_env_operator.Kinds.Monitoring.{scrape_obj}
use elastic_env_operator.Handler.Settings.{is_ingress_open}
use elastic_env_operator.Api.Meta.{RuntimeObj}
use elastic_env_operator.Cluster.{Resource, get_or_new, list_into}
use elastic_env_operator.Cluster.Answers.{Answers, get_or_new-EndsWell, list_into-EndsWell}
use elastic_env_operator.Handler
use elastic_env_operator.Handler.{deleted, is_deleted, succeeded}
use elastic_env_operator.Handler.Service
use elastic_env_operator.Handler.Ingress
use elastic_env_operator.Handler.Ingress.{is_auto_ingress, domain_name, labelled, public_names}
use elastic_env_operator.Handler.Writing.{create_or_update-EndsWell, delete-EndsWell}

-- The server answers the calls for each kind of object that the operation reads or writes.
pub record AnswersAll (op : Operator) : Type 0 where
  pub sqb_applications : Answers op.sqb_applications
  pub sqb_deployments : Answers op.sqb_deployments
  pub services : Answers op.services
  pub ingresses : Answers op.ingresses
  pub scrapes : Answers op.vm_service_scrapes

module _ (op : Operator) (answers : AnswersAll op) where
  -- A write whose answer is not looked at.
  pub ensured_one-EndsWell :
      {O : Type 0} ⦃obj : RuntimeObj O⦄ (r : Resource op.World O)
      → Answers r
      → (o : O) → EndsWell (Handler.create_or_update r o >> pure tt)
  ensured_one-EndsWell r ok_r o =
      EndsWell-bind (Handler.create_or_update r o) (λ _. pure tt)
        (create_or_update-EndsWell r ok_r o) (λ _ w. (tt, refl))

  pub service-EndsWell :
      (app : SqbApplication)
      → deleted op.sums app.metadata ≡ false
      → EndsWell (Service.handle op app)
  unfolding Service.handle Service.create_or_update
  service-EndsWell app live = rw live (
      EndsWell-bind
        (get_or_new op.services app.namespace app.name (new_service app.namespace app.name))
        (λ s. Handler.create_or_update op.services (Service.desired op.json app s) >> pure tt)
        (get_or_new-EndsWell op.services answers.services app.namespace app.name
          (new_service app.namespace app.name))
        (λ s. ensured_one-EndsWell op.services answers.services _))

  write_domains-EndsWell :
      (app : SqbApplication) (domains : List Domain)
      → EndsWell (Ingress.write_domains op app domains)
  unfolding Ingress.write_domains
  write_domains-EndsWell app [] = λ w. (tt, refl)
  write_domains-EndsWell app (domain ∷ domains) =
      let name = domain_name app domain in
      let blank = new_ingress app.namespace name in
      let written : Ingress → Ingress = Ingress.desired op.config app domain in
      EndsWell-bind (get_or_new op.ingresses app.namespace name blank)
        (λ i.
          Handler.create_or_update op.ingresses (written i) >> Ingress.write_domains op app domains)
        (get_or_new-EndsWell op.ingresses answers.ingresses app.namespace name blank)
        (λ i.
          EndsWell-bind (Handler.create_or_update op.ingresses (written i))
            (λ _. Ingress.write_domains op app domains)
            (create_or_update-EndsWell op.ingresses answers.ingresses (written i))
            (λ _. write_domains-EndsWell app domains))

  delete_others-EndsWell :
      (name : String) (kept : List String) (ingresses : List Ingress)
      → EndsWell (Ingress.delete_others op name kept ingresses)
  unfolding Ingress.delete_others
  delete_others-EndsWell name kept [] = λ w. (tt, refl)
  delete_others-EndsWell name kept (i ∷ is) =
      let rest = delete_others-EndsWell name kept is in
      both_branches EndsWell (is_auto_ingress name i && not (contain_string kept i.metadata.name)) _
        _
        (EndsWell-bind (Handler.delete op.ingresses i) (λ _. Ingress.delete_others op name kept is)
          (delete-EndsWell op.ingresses answers.ingresses i) (λ _. rest))
        rest

  delete_generated-EndsWell :
      (name : String) (ingresses : List Ingress)
      → EndsWell (Ingress.delete_generated op name ingresses)
  unfolding Ingress.delete_generated
  delete_generated-EndsWell name [] = λ w. (tt, refl)
  delete_generated-EndsWell name (i ∷ is) =
      let rest = delete_generated-EndsWell name is in
      both_branches EndsWell (not (is_auto_ingress name i)) _ _ rest (
        EndsWell-bind (Handler.delete op.ingresses i) (λ _. Ingress.delete_generated op name is)
          (delete-EndsWell op.ingresses answers.ingresses i) (λ _. rest))

  pub list-EndsWell :
      {A O : Type 0} (r : Resource op.World O)
      → Answers r
      → (app : SqbApplication) (next : List O → Exec op.World A)
      → ((os : List O) → EndsWell (next os))
      → EndsWell (list_into r app.namespace (labelled op app) [] >>= next)
  list-EndsWell r ok_r app next =
      EndsWell-bind (list_into r app.namespace (labelled op app) []) next
        (list_into-EndsWell r ok_r app.namespace (labelled op app) [])

  pub ingress-EndsWell : (app : SqbApplication) → EndsWell (Ingress.handle_sqbapplication op app)
  unfolding Ingress.handle_sqbapplication Ingress.delete_for_sqbapplication
      Ingress.create_or_update_for_sqbapplication
  ingress-EndsWell app =
      let gone =
        list-EndsWell op.ingresses answers.ingresses app _ (delete_generated-EndsWell app.name) in
      both_branches EndsWell (deleted op.sums app.metadata || no_items app.spec.domains) _ _ gone (
        both_branches EndsWell (not (is_ingress_open op.config app)) _ _ gone (
          EndsWell-bind (Ingress.write_domains op app app.spec.domains) _
            (write_domains-EndsWell app app.spec.domains)
            (λ _. list-EndsWell op.ingresses answers.ingresses app _ (λ ingresses.
              list-EndsWell op.sqb_deployments answers.sqb_deployments app _
                (λ deployments. delete_others-EndsWell app.name _ ingresses)))))

-- ===== src/Handler/Marking/Applications.antt =====
-- The operation on an application that counts as deleted.
use mathlib.Core.Path.{subst}
use elastic_env_operator.Base.{
  ◌∙◌, sym, ◌≡◌, refl, ap, true, List, [], ◌∷◌, made, All, String, Map, ok, ◌>>=◌, on_rest, Attains,
  Attains-bind, Attains-kept, both_branches, not, pure, lift,
}
use elastic_env_operator.Api.Types.{
  SqbApplication, SqbDeployment, sqb_deployment_obj, sqb_plane_obj, sqb_application_obj,
}
use elastic_env_operator.Entity.Keys.{app_key}
use elastic_env_operator.Entity.ConfigMap.{is_victoria_metrics_enable}
use elastic_env_operator.Operator.{Operator}
use elastic_env_operator.Cluster.Stores.{Stores, Leaves}
use elastic_env_operator.Kinds.Core.{service_obj, new_service}
use elastic_env_operator.Kinds.Monitoring.{scrape_obj, new_scrape}
use elastic_env_operator.Handler
use elastic_env_operator.Handler.{is_deleted, deleted, succeeded}
use elastic_env_operator.Handler.Service
use elastic_env_operator.Handler.Ingress
use elastic_env_operator.Handler.Monitoring
use elastic_env_operator.Handler.SqbDeploymentList
use elastic_env_operator.Handler.SqbApplication
use elastic_env_operator.Handler.SqbApplication.{with_default_hosts}
use elastic_env_operator.Handler.Guards.{delete-Keeps}
use elastic_env_operator.Handler.Guards.Ingresses.{ingress-Keeps}
use elastic_env_operator.Handler.Writing.{
  IsOf, Leaves-KeepsWrites, Leaves-KeepsDeletes, delete-EndsWell,
}
use elastic_env_operator.Handler.Serving.Answering.{AnswersAll, ingress-EndsWell}
use elastic_env_operator.Handler.Marking.{mark_of, IsMarked, IsMarkable}
use elastic_env_operator.Handler.Marking.Deletions.{label_deletion, marks-IsOf, deletion_at_last}

-- What is done to the other kinds that the operation on an application writes leaves what is read of
-- the SQBDeployments.
pub record AreLeft (op : Operator) : Type 0 where
  pub services : Leaves op.sqb_deployments op.services
  pub ingresses : Leaves op.sqb_deployments op.ingresses
  pub scrapes : Leaves op.sqb_deployments op.vm_service_scrapes
  pub sqb_applications : Leaves op.sqb_deployments op.sqb_applications

module _ (op : Operator) (stores : Stores (mark_of op) op.sqb_deployments) (answers : AnswersAll op)
    (left : AreLeft op) where
  abbrev pub labelled : SqbApplication → Map String
  labelled app = made ((app_key, app.name) ∷ [])

  module _ (app : SqbApplication) (ds : List SqbDeployment)
      (markable : All (IsMarkable op app.namespace) ds)
      (gone : deleted op.sums app.metadata ≡ true) where
    abbrev IsListed : op.World → Type 0
    IsListed w = op.sqb_deployments.list app.namespace (labelled app) w ≡ ok ds

    abbrev AreMarked : op.World → Type 0
    AreMarked w = All (IsMarked op app.namespace w) ds

    IsListed-IsOf : IsOf op.sqb_deployments IsListed
    IsListed-IsOf w w' same h = same.1 app.namespace (labelled app) ∙ h

    AreMarked-IsOf : IsOf op.sqb_deployments AreMarked
    AreMarked-IsOf = marks-IsOf op stores answers.sqb_deployments app.namespace ds markable ds

    service_gone : (w : op.World) → IsListed w → Attains IsListed (Service.handle op app) w
    unfolding Service.handle Service.delete
    service_gone w found = rw gone (
        let blank = new_service app.namespace app.name in
        Attains-kept IsListed (Handler.delete op.services blank) w
          (delete-EndsWell op.services answers.services blank)
          (delete-Keeps IsListed op.services
            (Leaves-KeepsDeletes op.sqb_deployments op.services IsListed left.services
              IsListed-IsOf)
            blank)
          found)

    ingresses_gone :
        (w : op.World) → IsListed w → Attains IsListed (Ingress.handle_sqbapplication op app) w
    ingresses_gone w found =
        Attains-kept IsListed (Ingress.handle_sqbapplication op app) w
          (ingress-EndsWell op answers app)
          (ingress-Keeps op IsListed
            (Leaves-KeepsWrites op.sqb_deployments op.ingresses IsListed left.ingresses
              IsListed-IsOf)
            (Leaves-KeepsDeletes op.sqb_deployments op.ingresses IsListed left.ingresses
              IsListed-IsOf)
            app)
          found

    deployments_gone :
        (w : op.World)
        → IsListed w
        → Attains AreMarked (SqbDeploymentList.handle_sqbapplication op app) w
    unfolding SqbDeploymentList.handle_sqbapplication
    deployments_gone w found = rw gone (
        label_deletion op stores answers.sqb_deployments app.namespace ds markable (labelled app) w
          found)

    vm_gone : (w : op.World) → AreMarked w → Attains AreMarked (Monitoring.handle_vm op app) w
    unfolding Monitoring.handle_vm Monitoring.delete_vm
    vm_gone w marked =
        let blank = new_scrape app.namespace app.name in
        both_branches (λ act. Attains AreMarked act w) (not (is_victoria_metrics_enable op.config))
          (pure tt) _ (tt, refl, marked)
          (rw gone (
            Attains-kept AreMarked (Handler.delete op.vm_service_scrapes blank) w
              (delete-EndsWell op.vm_service_scrapes answers.scrapes blank)
              (delete-Keeps AreMarked op.vm_service_scrapes
                (Leaves-KeepsDeletes op.sqb_deployments op.vm_service_scrapes AreMarked left.scrapes
                  AreMarked-IsOf)
                blank)
              marked))

    handlers_gone :
        (w : op.World) → IsListed w → Attains AreMarked (SqbApplication.handlers op app) w
    unfolding SqbApplication.handlers
    handlers_gone w found =
        Attains-bind IsListed AreMarked (Service.handle op app) _ w (service_gone w found)
          (λ _ w' found'.
            Attains-bind IsListed AreMarked (Ingress.handle_sqbapplication op app) _ w'
              (ingresses_gone w' found')
              (λ _ w'' found''.
                Attains-bind AreMarked AreMarked (SqbDeploymentList.handle_sqbapplication op app)
                  (λ _. Monitoring.handle_vm op app) w'' (deployments_gone w'' found'')
                  (λ _. vm_gone)))

  -- Operate of an application that counts as deleted ends well, and afterwards the cluster has each
  -- SQBDeployment that a search by the label of the application found before as one that counts as
  -- deleted, where these are in the namespace of the application, have annotations and are not made
  -- by KubeVela, and the server answers the calls, stores the annotations that it accepts, and
  -- leaves the SQBDeployments when objects of the other kinds are written or deleted.
  pub application_deletion_marks :
      (app : SqbApplication) (w : op.World) (ds : List SqbDeployment)
      → is_deleted op.sums app.metadata ≡ ok true
      → op.sqb_deployments.list app.namespace (labelled app) w ≡ ok ds
      → All (IsMarkable op app.namespace) ds
      → Attains (λ s. All (IsMarked op app.namespace s.1) ds) (SqbApplication.operate op) (app, w)
  unfolding SqbApplication.operate SqbApplication.operate_unless_wrong SqbApplication.finish
      with_default_hosts deleted
  application_deletion_marks app w ds gone found markable =
      let app' = with_default_hosts op.config app in
      let P : SqbApplication × op.World → Type 0 = λ s. All (IsMarked op app.namespace s.1) ds in
      subst (λ r. Attains P (lift r >>= SqbApplication.operate_unless_wrong op) (app, w)) (sym gone)
        (Attains-bind P P (on_rest (SqbApplication.handlers op))
          (λ _. SqbApplication.finish op true) (app', w)
          (handlers_gone app' ds markable (ap succeeded gone) w found)
          (λ _ s h.
            deletion_at_last op stores answers.sqb_deployments app.namespace ds markable
              op.sqb_applications s.0 s.1 answers.sqb_applications left.sqb_applications h))

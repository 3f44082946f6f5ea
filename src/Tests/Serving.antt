-- ===== src/Tests/Serving.antt =====
-- Reconciliations in a cluster that stores what is written.
use elastic_env_operator.Handler.Marking.Blocked.{plane_deletion_blocked, has_bare}
use elastic_env_operator.Handler.SqbDeployment.{new_sqb_deployment}
use elastic_env_operator.Operator.{Operator}
use elastic_env_operator.Base.{ok, ◌≢◌}
use elastic_env_operator.Base.{pos, some, ◌≡◌, refl, [], ◌∷◌, made, lookup, Attains, All}
use elastic_env_operator.Api.Types.{
  SqbApplication, SqbPlane, sqb_deployment_obj, sqb_application_obj, sqb_plane_obj,
}
use elastic_env_operator.Kinds.Core.{service_obj, ingress_obj}
use elastic_env_operator.Kinds.Workload.{deployment_obj}
use elastic_env_operator.Handler.SqbApplication
use elastic_env_operator.Handler.SqbPlane
use elastic_env_operator.Tests.Fixtures.{shop_base, meta_with}
use elastic_env_operator.Handler.{is_deleted}
use elastic_env_operator.Handler.SqbPlane.{new_plane}
use elastic_env_operator.Handler.Marking.{IsMarked, IsMarkable}
use elastic_env_operator.Handler.Marking.Deletions.{plane_deletion_marks}
use elastic_env_operator.Handler.Marking.Applications.{application_deletion_marks}
use elastic_env_operator.Handler.Running.{RunsAs}
use elastic_env_operator.Handler.Reconcile.{done}
use elastic_env_operator.Controllers.Requests.{reconcile, for_sqb_deployment}
use elastic_env_operator.Controllers.Outcomes.{sqb_deployment_request_runs}
use elastic_env_operator.Handler.Deployment.Template.{init_of}
use elastic_env_operator.Tests.Shelves.{
  shelved, shelved-Answers, shelved-Leaves, fixed-Answers, fixed-Leaves,
}
use elastic_env_operator.Tests.Stock.{
  services, ingresses, deployments, sqb_deployments, hosted, stocked, empty, Stock,
  deployments-Stores, deployments-NoneOfKubevela, sqb_deployments-Stores, stocked-AnswersAll,
}

shop_base-IsMarkable : IsMarkable stocked "sqb" shop_base
unfolding lookup
shop_base-IsMarkable = record {
  namespaced = refl;
  own = refl;
  written = ("qa.shouqianba.com/initialized", "true") ∷ [];
  annotated = refl;
}

-- A plane with the mark of its deletion, and an application.
abbrev plane_gone : SqbPlane
plane_gone = record new_plane {
  metadata = meta_with "dev" (made (("qa.shouqianba.com/delete", "devsalt") ∷ []));
}

abbrev shop_gone : SqbApplication
shop_gone = record hosted {
  metadata = meta_with "shop" (made (("qa.shouqianba.com/delete", "shopsalt") ∷ []));
}

plane_deletion_marks_example :
    Attains
      (λ s. All (IsMarked stocked "sqb" s.1) (shop_base ∷ []))
      (SqbPlane.operate stocked)
      (plane_gone, empty)
unfolding is_deleted lookup
plane_deletion_marks_example =
    plane_deletion_marks stocked sqb_deployments-Stores stocked-AnswersAll (fixed-Answers _ refl)
      (fixed-Leaves _ (shelved sqb_deployments)) plane_gone empty (shop_base ∷ []) refl refl
      (shop_base-IsMarkable, tt)

application_deletion_marks_example :
    Attains
      (λ s. All (IsMarked stocked "sqb" s.1) (shop_base ∷ []))
      (SqbApplication.operate stocked)
      (shop_gone, empty)
unfolding is_deleted lookup
application_deletion_marks_example =
    application_deletion_marks stocked sqb_deployments-Stores stocked-AnswersAll
      (record {
        services =
            shelved-Leaves services (shelved sqb_deployments) (λ s w. (λ n m. refl, λ n m. refl));
        ingresses =
            shelved-Leaves ingresses (shelved sqb_deployments) (λ s w. (λ n m. refl, λ n m. refl));
        scrapes = fixed-Leaves _ (shelved sqb_deployments);
        sqb_applications = fixed-Leaves _ (shelved sqb_deployments);
      })
      shop_gone empty (shop_base ∷ []) refl refl (shop_base-IsMarkable, tt)

-- The stock with an SQBDeployment.
abbrev started : Stock
started = record empty {
  marks = λ namespace name. some (made (("qa.shouqianba.com/initialized", "true") ∷ []));
}

sqb_deployment_request_runs_example :
    ((reconcile stocked (for_sqb_deployment "sqb" "shop-base") started).0 ≡ done)
    × RunsAs stocked
        (shop_base.metadata, (pos 2, "shop:1"))
        (reconcile stocked (for_sqb_deployment "sqb" "shop-base") started).1
unfolding lookup is_deleted init_of
sqb_deployment_request_runs_example =
    sqb_deployment_request_runs stocked refl refl deployments-Stores deployments-NoneOfKubevela
      (record {
        ingresses =
            shelved-Leaves ingresses (shelved deployments) (λ s w. (λ n m. refl, λ n m. refl));
        virtual_services = fixed-Leaves _ (shelved deployments);
        sqb_deployments =
            shelved-Leaves sqb_deployments (shelved deployments)
              (λ s w. (λ n m. refl, λ n m. refl));
      })
      (record {
        sqb_deployments = shelved-Answers sqb_deployments;
        deployments = shelved-Answers deployments;
        pvcs = fixed-Answers _ refl;
        ingresses = shelved-Answers ingresses;
        virtual_services = fixed-Answers _ refl;
      })
      (record {
        deployments = shelved-Leaves deployments _ (λ s w. (λ n m. refl, λ n m. refl));
        pvcs = fixed-Leaves _ _;
        ingresses = shelved-Leaves ingresses _ (λ s w. (λ n m. refl, λ n m. refl));
        namespaced = λ namespace name v w e. absurd (cc e);
      })
      "sqb" "shop-base" shop_base (pos 2) started refl refl refl refl refl refl tt refl
      (hosted, refl)

-- A cluster whose search finds an SQBDeployment without annotations behind one that has some.
abbrev blocked : Operator
blocked = record stocked {
  cluster = record stocked.cluster {
    sqb_deployments =
        shelved (record sqb_deployments { listed = shop_base ∷ new_sqb_deployment ∷ [] });
  };
}

plane_deletion_blocked_example : (SqbPlane.operate blocked (plane_gone, empty)).0 ≢ ok tt
unfolding is_deleted lookup has_bare
plane_deletion_blocked_example =
    plane_deletion_blocked blocked plane_gone empty (shop_base ∷ new_sqb_deployment ∷ []) refl refl
      refl

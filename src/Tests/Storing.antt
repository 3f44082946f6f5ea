-- ===== src/Tests/Storing.antt =====
-- A cluster that stores one application.
use elastic_env_operator.Base.{
  ◌≡◌, refl, sym, ap, String, none, some, List, [], ◌∷◌, made, get?, ok, err, if◌then◌else◌, lookup,
}
use elastic_env_operator.Api.Types.{SqbApplication, sqb_application_obj, sqb_plane_obj}
use elastic_env_operator.Kinds.Workload.{Deployment, deployment_obj}
use elastic_env_operator.Cluster.{Resource}
use elastic_env_operator.Operator.{Operator}
use elastic_env_operator.Handler.Guards.{KeepsWrites}
use elastic_env_operator.Handler.Deployment.Status.{operate}
use elastic_env_operator.Handler.Deployment.Status.Laws.{live_named, live_in_plane}
use elastic_env_operator.Handler.Deployment.Status.Storing.{StoresStatus, operate-StoresStatus}
use elastic_env_operator.Tests.Fixtures.{
  missing, packages, sums, config, shop, shop_pods, plain_pods,
}

-- Reads find what is given, and writes change nothing.
abbrev still : {O : Type 0} → List O → Resource SqbApplication O
still there = record {
  get = λ namespace name app. err missing;
  list = λ namespace labels app. ok there;
  create = λ o app. (ok o, app);
  update = λ o app. (ok o, app);
  update_status = λ o app. (ok o, app);
  delete = λ o app. (ok tt, app);
}

abbrev storing : Operator
storing = record {
  cluster = record {
    World = SqbApplication;
    sqb_applications = record {
      get = λ namespace name app. ok app;
      list = λ namespace labels app. ok (app ∷ []);
      create = λ o app. (ok o, o);
      update = λ o app. (ok o, o);
      update_status = λ o app. (ok o, o);
      delete = λ o app. (ok tt, app);
    };
    sqb_deployments = still [];
    sqb_planes = still [];
    deployments = still (shop_pods ∷ plain_pods ∷ []);
    services = still [];
    ingresses = still [];
    pvcs = still [];
    virtual_services = still [];
    destination_rules = still [];
    service_monitors = still [];
    vm_service_scrapes = still [];
  };
  packages = packages;
  sums = sums;
  config = config;
}

stores : StoresStatus storing
stores app answer w w' e = (w', refl, ap (λ x. x.1.status) (sym e))

still-KeepsWrites :
    {O : Type 0} (P : SqbApplication → Type 0) (there : List O) → KeepsWrites P (still there)
still-KeepsWrites P there = record {
  create = λ o app h. h;
  update = λ o app h. h;
  update_status = λ o app h. h;
}

-- A deployment of the shop.
abbrev labelled_pods : Deployment
labelled_pods = record shop_pods {
  metadata = record shop_pods.metadata {
    labels = made (("app", "shop") ∷ ("version", "dev") ∷ []);
  };
}

operate-StoresStatus_example :
    (stored : SqbApplication) × (storing.sqb_applications.get shop.namespace shop.name
        (operate storing (labelled_pods, shop)).1.1
      ≡ ok stored)
    × ((k : String)
        → (get? stored.status.mirrors k
            ≡ (if live_named k (shop_pods ∷ plain_pods ∷ []) then some 1 else none))
          × (get? stored.status.planes k
              ≡ (if live_in_plane k (shop_pods ∷ plain_pods ∷ []) then some 1 else none)))
unfolding lookup operate
operate-StoresStatus_example =
    operate-StoresStatus storing labelled_pods shop (shop_pods ∷ plain_pods ∷ []) shop stores
      (still-KeepsWrites _ []) (still-KeepsWrites _ (shop_pods ∷ plain_pods ∷ [])) refl refl refl
      refl refl

-- ===== src/Tests/Stock.antt =====
-- A cluster with a stock of services, ingresses, deployments and SQBDeployments.
use elastic_env_operator.Base.{
  refl, String, ℤ, true, none, Option, List, [], ◌∷◌, Map, made, ok, err, lookup,
}
use elastic_env_operator.Api.Core.{ServicePort}
use elastic_env_operator.Api.Meta.{named}
use elastic_env_operator.Api.Types.{
  SqbApplication, SqbDeployment, sqb_deployment_obj, sqb_application_obj, sqb_plane_obj,
}
use elastic_env_operator.Kinds.Core.{
  Service, Ingress, IngressRule, service_obj, ingress_obj, new_service, new_ingress,
}
use elastic_env_operator.Kinds.Workload.{Container, Deployment, deployment_obj, new_deployment}
use elastic_env_operator.Cluster.Stores.{Stores, NoneOfKubevela}
use elastic_env_operator.Operator.{Operator}
use elastic_env_operator.Handler.Serving.{rules_of, ports_and_plane}
use elastic_env_operator.Handler.Serving.Answering.{AnswersAll}
use elastic_env_operator.Tests.Fixtures.{missing, packages, sums, config, shop, shop_base}
use elastic_env_operator.Handler.{is_deleted}
use elastic_env_operator.Handler.Marking.{mark_of}
use elastic_env_operator.Handler.Running.{running}
use elastic_env_operator.Handler.Serving.Services.{Server}
use elastic_env_operator.Tests.Shelves.{
  Storage, Shelf, shelved, shelved-Stores, shelved-NoneOfKubevela, shelved-Answers, shelved-Leaves,
  fixed, fixed-Answers, fixed-Leaves,
}

pub record Stock : Type 0 where
  pub services : Shelf (List ServicePort × Map String)
  pub ingresses : Shelf (List IngressRule)
  pub deployments : Shelf (Option ℤ × List Container)
  pub marks : Shelf (Map String)

abbrev pub build_service : String → String → List ServicePort × Map String → Service
build_service namespace name s = record (new_service namespace name) { ports = s.0; selector = s.1 }

abbrev pub build_ingress : String → String → List IngressRule → Ingress
build_ingress namespace name rules = record (new_ingress namespace name) { rules = rules }

abbrev pub build_deployment : String → String → Option ℤ × List Container → Deployment
build_deployment namespace name s =
    let blank = new_deployment namespace name in
    record blank {
      spec = record blank.spec {
        replicas = s.0;
        template = record blank.spec.template {
          spec = record blank.spec.template.spec { containers = s.1 };
        };
      };
    }

abbrev pub build_marked : String → String → Map String → SqbDeployment
build_marked namespace name annotations = record shop_base {
  metadata = record (named namespace name) { annotations = annotations };
}

abbrev pub services : Storage Stock Service (List ServicePort × Map String)
services = record {
  keep = λ o. (o.ports, o.selector);
  build = build_service;
  shelf = λ w. w.services;
  store = λ s w. record w { services = s };
  listed = [];
}

abbrev pub ingresses : Storage Stock Ingress (List IngressRule)
ingresses = record {
  keep = λ o. o.rules;
  build = build_ingress;
  shelf = λ w. w.ingresses;
  store = λ s w. record w { ingresses = s };
  listed = [];
}

abbrev pub deployments : Storage Stock Deployment (Option ℤ × List Container)
deployments = record {
  keep = λ o. (o.spec.replicas, o.spec.template.spec.containers);
  build = build_deployment;
  shelf = λ w. w.deployments;
  store = λ s w. record w { deployments = s };
  listed = [];
}

abbrev pub sqb_deployments : Storage Stock SqbDeployment (Map String)
sqb_deployments = record {
  keep = λ o. o.annotations;
  build = build_marked;
  shelf = λ w. w.marks;
  store = λ s w. record w { marks = s };
  listed = shop_base ∷ [];
}

-- The shop with two domains, one of which has no host of its own.
abbrev pub hosted : SqbApplication
hosted = record shop {
  spec = record shop.spec {
    ingress_spec = record shop.spec.ingress_spec {
      domains =
          record { class = "nginx"; annotation = made []; host = "" }
          ∷ record { class = "nginx-vpc"; annotation = made []; host = "shop.vpc" }
          ∷ [];
    };
  };
}

abbrev pub stocked : Operator
stocked = record {
  cluster = record {
    World = Stock;
    sqb_applications = fixed (ok hosted);
    sqb_deployments = shelved sqb_deployments;
    sqb_planes = fixed (err missing);
    deployments = shelved deployments;
    services = shelved services;
    ingresses = shelved ingresses;
    pvcs = fixed (err missing);
    virtual_services = fixed (err missing);
    destination_rules = fixed (err missing);
    service_monitors = fixed (err missing);
    vm_service_scrapes = fixed (err missing);
  };
  packages = packages;
  sums = sums;
  config = record config { config = record config.config { ingress_open = true } };
}

abbrev pub empty : Stock
empty = record {
  services = λ namespace name. none;
  ingresses = λ namespace name. none;
  deployments = λ namespace name. none;
  marks = λ namespace name. none;
}

pub services-Stores : Stores ports_and_plane stocked.services
unfolding lookup
services-Stores =
    shelved-Stores services ports_and_plane (λ s w. refl) (λ o. refl)
      (λ namespace name s. (refl, refl, refl))

pub services-NoneOfKubevela : NoneOfKubevela stocked.services
unfolding lookup
services-NoneOfKubevela =
    shelved-NoneOfKubevela services ports_and_plane (λ s w. refl) (λ o. refl)
      (λ namespace name s. (refl, refl, refl))

pub ingresses-Stores : Stores rules_of stocked.ingresses
unfolding lookup
ingresses-Stores =
    shelved-Stores ingresses rules_of (λ s w. refl) (λ o. refl)
      (λ namespace name s. (refl, refl, refl))

pub ingresses-NoneOfKubevela : NoneOfKubevela stocked.ingresses
unfolding lookup
ingresses-NoneOfKubevela =
    shelved-NoneOfKubevela ingresses rules_of (λ s w. refl) (λ o. refl)
      (λ namespace name s. (refl, refl, refl))

pub deployments-Stores : Stores running stocked.deployments
unfolding lookup
deployments-Stores =
    shelved-Stores deployments running (λ s w. refl) (λ o. refl)
      (λ namespace name s. (refl, refl, refl))

pub deployments-NoneOfKubevela : NoneOfKubevela stocked.deployments
unfolding lookup
deployments-NoneOfKubevela =
    shelved-NoneOfKubevela deployments running (λ s w. refl) (λ o. refl)
      (λ namespace name s. (refl, refl, refl))

pub sqb_deployments-Stores : Stores (mark_of stocked) stocked.sqb_deployments
unfolding lookup is_deleted
sqb_deployments-Stores =
    shelved-Stores sqb_deployments (mark_of stocked) (λ s w. refl) (λ o. refl)
      (λ namespace name s. (refl, refl, refl))

pub stocked-Server : Server stocked
stocked-Server = record {
  services = services-Stores;
  ingresses = ingresses-Stores;
  own_services = services-NoneOfKubevela;
  own_ingresses = ingresses-NoneOfKubevela;
  services_ingresses =
      shelved-Leaves ingresses (shelved services) (λ s w. (λ n m. refl, λ n m. refl));
  services_sqb_deployments =
      shelved-Leaves sqb_deployments (shelved services) (λ s w. (λ n m. refl, λ n m. refl));
  services_scrapes = fixed-Leaves _ (shelved services);
  services_sqb_applications = fixed-Leaves _ (shelved services);
  ingresses_sqb_deployments =
      shelved-Leaves sqb_deployments (shelved ingresses) (λ s w. (λ n m. refl, λ n m. refl));
  ingresses_scrapes = fixed-Leaves _ (shelved ingresses);
  ingresses_sqb_applications = fixed-Leaves _ (shelved ingresses);
}

pub stocked-AnswersAll : AnswersAll stocked
stocked-AnswersAll = record {
  sqb_applications = fixed-Answers _ tt;
  sqb_deployments = shelved-Answers sqb_deployments;
  services = shelved-Answers services;
  ingresses = shelved-Answers ingresses;
  scrapes = fixed-Answers _ refl;
}

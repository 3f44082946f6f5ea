-- ===== src/Tests/Running.antt =====
-- Runs of the whole operator.
use elastic_env_operator.Base.{
  ℕ, ◌≡◌, refl, ok, ◌∙◌, [], nil, String, suc, ◌==◌, false, ◌∷◌, err, if◌then◌else◌, arith,
  both_branches, Result, has,
}
use elastic_env_operator.Api.Types.{
  SqbDeployment, sqb_application_obj, sqb_deployment_obj, sqb_plane_obj, SqbApplication, Domain,
}
use elastic_env_operator.Kinds.Workload.{deployment_obj}
use elastic_env_operator.Handler.{is_deleted}
use elastic_env_operator.Entity.ConfigMap.{SqbConfigMapEntity, new_entity, from_map, fire}
use elastic_env_operator.Controllers.{reconcile_config_map}
use elastic_env_operator.Controllers.Requests.{
  Request, for_plane, for_sqb_deployment, reconcile, IsLive,
}
use elastic_env_operator.System.{with_config, Run, request, load, ring, start, next}
use elastic_env_operator.System.Laws.{OthersKeep, run_unready, run_deletes_at_most}
use elastic_env_operator.Util.{contain_string}
use elastic_env_operator.Cluster.{Resource}
use elastic_env_operator.Operator.{Operator}
use elastic_env_operator.Kinds.Core.{Ingress, new_ingress, ingress_obj}
use elastic_env_operator.Entity.Keys.{kubevela_app_name_label}
use elastic_env_operator.Handler
use elastic_env_operator.Handler.Ingress
use elastic_env_operator.Handler.Ingress.{domain_name}
use elastic_env_operator.Handler.Guards.{KeepsAllWrites}
use elastic_env_operator.Handler.Guards.Domains.{update_spares_domains}
use elastic_env_operator.Tests.Fixtures.{sums, shop, missing}
use elastic_env_operator.Tests.Guarding.{
  guarded, IsIntact, guarded_writes, answers, reading, base_is_live,
}

abbrev loaded : SqbConfigMapEntity
loaded = (reconcile_config_map guarded.json (ok nil) new_entity).1

-- Nobody else writes.
abbrev Nobody : ℕ → ℕ → Type 0
Nobody count count' = count' ≡ count

Nobody-keeps : OthersKeep Nobody IsIntact
Nobody-keeps count count' same h = same ∙ h

abbrev AnyRequest : SqbConfigMapEntity → Request → ℕ → Type 0
AnyRequest sc r count = Unit {0}

-- A request comes before the load.
run_unready_example :
    IsIntact (reconcile (with_config guarded new_entity) (for_plane "sqb" "dev") 0).1
unfolding reconcile_config_map from_map
run_unready_example =
    run_unready guarded IsIntact AnyRequest Nobody Nobody-keeps 0
      ((reconcile (with_config guarded new_entity) (for_plane "sqb" "dev") 0).1, loaded) refl
      (next (next start (request (for_plane "sqb" "dev") 0 new_entity tt))
        (load (ok nil) _ new_entity))
      refl

abbrev ready : SqbConfigMapEntity
ready = fire loaded []

until_ready : Run guarded (λ sc. IsLive (with_config guarded sc)) Nobody 0 (0, ready)
unfolding reconcile_config_map from_map
until_ready =
    next (next start (load (ok nil) 0 new_entity))
      (ring 0 loaded loaded.config.operator_delay [] refl)

-- A load, the end of its timer, and a request.
run_deletes_at_most_example :
    IsIntact (reconcile (with_config guarded ready) (for_sqb_deployment "sqb" "shop-base") 0).1
run_deletes_at_most_example =
    run_deletes_at_most guarded IsIntact guarded_writes
      (record {
        ingresses = λ o count h. h;
        pvcs = λ o count h. h;
        virtual_services = λ o count h. h;
        vm_service_scrapes = λ o count h. h;
      })
      answers Nobody Nobody-keeps 0
      ((reconcile (with_config guarded ready) (for_sqb_deployment "sqb" "shop-base") 0).1, ready)
      refl
      (next until_ready (
        request (for_sqb_deployment "sqb" "shop-base") 0 ready
          (λ d e. reading (λ (o : SqbDeployment). is_deleted sums o.metadata) base_is_live e)))

-- An application with one domain.
abbrev hosted_domain : Domain
hosted_domain = record { class = "nginx"; annotation = nil; host = "new" }

abbrev hosted : SqbApplication
hosted = record shop {
  spec = record shop.spec {
    ingress_spec = record shop.spec.ingress_spec { domains = hosted_domain ∷ [] };
  };
}

-- Only the deletion of the ingress of that name counts; the ingress of an old host is there.
abbrev watched : String → Resource ℕ Ingress
watched name = record {
  get = λ namespace name' count. err missing;
  list = λ namespace labels count. ok (new_ingress "sqb" "shop.nginx.old" ∷ []);
  create = λ o count. (ok o, count);
  update = λ o count. (ok o, count);
  update_status = λ o count. (ok o, count);
  delete = λ o count. (ok tt, if name == o.metadata.name then suc count else count);
}

abbrev watching : String → Operator
watching name = record guarded { cluster = record guarded.cluster { ingresses = watched name } }

watching-writes : (name : String) → KeepsAllWrites (watching name) IsIntact
watching-writes name = record {
  sqb_applications = guarded_writes.sqb_applications;
  sqb_deployments = guarded_writes.sqb_deployments;
  sqb_planes = guarded_writes.sqb_planes;
  deployments = guarded_writes.deployments;
  services = guarded_writes.services;
  ingresses = record {
    create = λ o count h. h;
    update = λ o count h. h;
    update_status = λ o count h. h;
  };
  pvcs = guarded_writes.pvcs;
  virtual_services = guarded_writes.virtual_services;
  vm_service_scrapes = guarded_writes.vm_service_scrapes;
}

spares :
    (name : String) (i : Ingress) (count : ℕ)
    → contain_string (name ∷ []) i.metadata.name ≡ false
    → IsIntact count
    → IsIntact (Handler.delete (watched name) i count).1
unfolding Handler.delete contain_string
spares name i count apart h =
    both_branches (λ (x : Result (Unit {0}) × ℕ). IsIntact x.1)
      (has i.metadata.labels kubevela_app_name_label) _ _ h (ground (arith, apart, h))

update_spares_domains_example :
    IsIntact
      (Ingress.create_or_update_for_sqbapplication
        (watching (domain_name hosted hosted_domain))
        hosted
        0).1
update_spares_domains_example =
    update_spares_domains (watching (domain_name hosted hosted_domain)) IsIntact
      (watching-writes (domain_name hosted hosted_domain)) hosted
      (λ i count auto apart h. spares (domain_name hosted hosted_domain) i count apart h) 0 refl

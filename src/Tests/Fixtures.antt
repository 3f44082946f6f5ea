-- ===== src/Tests/Fixtures.antt =====
-- A cluster that logs the names of what is written to it, and objects for it.
use elastic_env_operator.Base.{
  ℕ, String, ◌<>◌, true, false, none, some, List, [], ◌∷◌, pos, Map, made, Error, errorf, ok, err,
}
use elastic_env_operator.Api.Meta.{ObjectMeta, RuntimeObj, meta, named}
use elastic_env_operator.Api.Types.{
  SqbApplication, SqbDeployment, SqbPlane, Subpath, VolumeSpec, sqb_application_obj,
  sqb_deployment_obj, sqb_plane_obj,
}
use elastic_env_operator.Entity.ConfigMap.{Json, SqbConfigMapEntity, new_entity}
use elastic_env_operator.Kinds.Core.{service_obj, ingress_obj, pvc_obj}
use elastic_env_operator.Kinds.Istio.{virtual_service_obj, destination_rule_obj}
use elastic_env_operator.Kinds.Monitoring.{scrape_obj}
use elastic_env_operator.Kinds.Workload.{
  Deployment, new_deployment, new_deployment_spec, deployment_obj,
}
use elastic_env_operator.Cluster.{Resource, Cluster}
use elastic_env_operator.Operator.{Checksum, Packages, Operator}
use elastic_env_operator.Handler.SqbApplication.{new_deploy_spec, new_application}
use elastic_env_operator.Handler.SqbDeployment.{new_sqb_deployment}
use elastic_env_operator.Handler.SqbPlane.{new_plane}

abbrev pub Log : Type 0
Log = List String

abbrev pub missing : Error
missing = record { is_not_found = true; message = "not found" }

abbrev pub refused : Error
refused = errorf "refused"

-- Nothing is there, and every write succeeds.
abbrev pub logged : {O : Type 0} ⦃r : RuntimeObj O⦄ → Resource Log O
logged = record {
  get = λ namespace name log. err missing;
  list = λ namespace labels log. ok [];
  create = λ o log. (ok o, ("+" <> (meta o).name) ∷ log);
  update = λ o log. (ok o, ("+" <> (meta o).name) ∷ log);
  update_status = λ o log. (ok o, ("+" <> (meta o).name) ∷ log);
  delete = λ o log. (ok tt, (meta o).name ∷ log);
}

-- Every deletion fails.
abbrev pub refusing : {O : Type 0} ⦃r : RuntimeObj O⦄ → Resource Log O
refusing = record {
  get = λ namespace name log. err missing;
  list = λ namespace labels log. ok [];
  create = λ o log. (ok o, log);
  update = λ o log. (ok o, log);
  update_status = λ o log. (ok o, log);
  delete = λ o log. (err refused, log);
}

-- The object that is asked for is always there.
abbrev pub holding : {O : Type 0} ⦃r : RuntimeObj O⦄ → O → Resource Log O
holding o = record {
  get = λ namespace name log. ok o;
  list = λ namespace labels log. ok (o ∷ []);
  create = λ o log. (ok o, ("+" <> (meta o).name) ∷ log);
  update = λ o log. (ok o, ("+" <> (meta o).name) ∷ log);
  update_status = λ o log. (ok o, ("+" <> (meta o).name) ∷ log);
  delete = λ o log. (ok tt, (meta o).name ∷ log);
}

abbrev pub meta_with : String → Map String → ObjectMeta
meta_with name annotations = record (named "sqb" name) { annotations = annotations }

-- The annotation is no checksum.
abbrev pub wrong_sum : Map String
wrong_sum = made (("qa.shouqianba.com/delete", "wrong") ∷ [])

abbrev pub wrong_plane : SqbPlane
wrong_plane = record new_plane { metadata = meta_with "dev" wrong_sum }

abbrev pub plain_pods : Deployment
plain_pods = new_deployment "sqb" "plain"

abbrev pub cluster : Cluster
cluster = record {
  World = Log;
  sqb_applications = logged;
  sqb_deployments = logged;
  sqb_planes = holding wrong_plane;
  deployments = holding plain_pods;
  services = logged;
  ingresses = logged;
  pvcs = refusing;
  virtual_services = logged;
  destination_rules = logged;
  service_monitors = logged;
  vm_service_scrapes = logged;
}

-- A text reads as the map that was there, and as the list of one text.
abbrev pub json : Json
json = record { unmarshal_map = λ text m. m; unmarshal_list = λ text l. text ∷ [] }

abbrev pub packages : Packages
packages = record {
  json = json;
  unmarshal_vm_endpoints = λ text. ok [];
  unmarshal_endpoints = λ text. ok [];
  unmarshal_deployment_spec = λ text. ok new_deployment_spec;
  merge_deployment_spec = λ old new. ok old;
  time_string = λ t. "0";
  int_or_string_text = λ i. "25%";
  add_finalizer = λ l f. f ∷ l;
  remove_finalizer = λ l f. [];
}

-- The sum of a text is the text.
abbrev pub sums : Checksum
sums = record { md5_hex = λ s. s; salt = "salt" }

abbrev pub config : SqbConfigMapEntity
config = record {
  config = record new_entity.config {
    istio_enable = true;
    istio_inject = true;
    base_flag = "base";
    domain_postfix = made (("nginx", "*.qa.example.com") ∷ []);
  };
  initialized = true;
  ready = true;
  timers = [];
}

abbrev pub operator : Operator
operator = record { cluster = cluster; packages = packages; sums = sums; config = config }

abbrev pub shop : SqbApplication
shop = record new_application {
  metadata = meta_with "shop" (made (("qa.shouqianba.com/istio-inject", "true") ∷ []));
}

abbrev pub wrong_error : Error
wrong_error = errorf "delete annotation wrong is wrong"

abbrev pub shop_base : SqbDeployment
shop_base = record new_sqb_deployment {
  metadata = meta_with "shop-base" (made (("qa.shouqianba.com/initialized", "true") ∷ []));
  spec = record new_sqb_deployment.spec {
    deploy_spec = record new_deploy_spec { replicas = some (pos 2); image = "shop:1" };
  };
}

abbrev pub cart : Subpath
cart = record { path = "/cart"; service_name = "cart"; service_port = pos 80 }

abbrev pub two_planes : Map ℕ
two_planes = made (("base", 1) ∷ ("dev", 1) ∷ [])

abbrev pub shop_pods : Deployment
shop_pods = record (new_deployment "sqb" "shop-dev") {
  metadata = record (named "sqb" "shop-dev") { labels = made (("version", "dev") ∷ []) };
  spec = record new_deployment_spec { selector = some (made (("app", "shop") ∷ [])) };
}

abbrev pub claimed : VolumeSpec
claimed = record {
  mount_path = "/data";
  host_path = "";
  config_map = "";
  secret = "";
  empty_dir = false;
  persistent_volume_claim = true;
  persistent_volume_claim_name = "shop-data";
  downward_api = none;
}

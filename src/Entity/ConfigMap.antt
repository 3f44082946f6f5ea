-- ===== src/Entity/ConfigMap.antt =====
-- sqbconfigmap_entity.go: the configuration that all handlers share. The mutex makes each method
-- one step; what a method reads or writes under it is a function here. A timer goroutine that
-- `FromMap` starts is an entry of `timers`, until `fire` runs its last line.
pub mod Laws
pub mod Lifecycle
pub mod Locks
use elastic_env_operator.Base.{
  ℕ, ◌≡◌, String, Bool, true, false, not, ◌&&◌, Option, none, some, List, [], ◌∷◌, map, ℤ, pos, Map,
  nil, made, entries, get?, has, index, Entries, no_items, is_empty, ◌==◌, split, pieces,
  replace_all, atoi, if◌then◌else◌,
}

-- encoding/json into a map of strings and into a list of strings: the value that the call leaves
-- in the target, whose error the source ignores.
pub record Json : Type 0 where
  pub unmarshal_map : String → Map String → Map String
  pub unmarshal_list : String → List String → List String

pub record ConfigMapData : Type 0 where
  pub ingress_open : Bool
  pub istio_inject : Bool
  pub istio_enable : Bool
  pub istio_ingress_gateway : Bool
  pub istio_timeout : ℤ
  pub istio_gateways : List String
  pub service_monitor_enable : Bool
  pub victoria_metrics_enable : Bool
  pub pvc_enable : Bool
  pub domain_postfix : Map String
  pub image_pull_secrets : String
  pub special_virtual_service_ingress : String
  pub deployment_spec : String
  pub operator_delay : ℤ
  pub init_container_image : String
  pub base_flag : String
  pub env : String

pub record SqbConfigMapEntity : Type 0 where
  pub config : ConfigMapData
  pub initialized : Bool
  pub ready : Bool
  pub timers : List ℤ

-- ConfigMapData = &SQBConfigMapEntity{}
abbrev pub new_entity : SqbConfigMapEntity
new_entity = record {
  config = record {
    ingress_open = false;
    istio_inject = false;
    istio_enable = false;
    istio_ingress_gateway = false;
    istio_timeout = pos 0;
    istio_gateways = [];
    service_monitor_enable = false;
    victoria_metrics_enable = false;
    pvc_enable = false;
    domain_postfix = nil;
    image_pull_secrets = "";
    special_virtual_service_ingress = "";
    deployment_spec = "";
    operator_delay = pos 0;
    init_container_image = "";
    base_flag = "";
    env = "";
  };
  initialized = false;
  ready = false;
  timers = [];
}

abbrev or_else {ℓ} : {A : Type ℓ} → Option A → A → A
or_else none d = d
or_else (some a) d = a

-- The timeout of a missing key, and of a text that is no number, is 30.
istio_timeout_of : Option String → ℤ
istio_timeout_of none = pos 30
istio_timeout_of (some text) = or_else (atoi text) (pos 30)

domain_postfix_of : Json → Option String → Map String → Map String
domain_postfix_of json none old = old
domain_postfix_of json (some text) old = json.unmarshal_map text (made [])

gateways_of : Json → Option String → List String → List String
gateways_of json none old = old
gateways_of json (some text) old = json.unmarshal_list text []

or_mesh : List String → List String
or_mesh gateways = if no_items gateways then "mesh" ∷ [] else gateways

or_base : String → String
or_base flag = if is_empty flag then "base" else flag

-- The assignments of `FromMap` to `sc.data`.
unfoldable pub load_data : Json → Map String → ConfigMapData → ConfigMapData
unfolding istio_timeout_of domain_postfix_of gateways_of or_mesh or_base
load_data json m old =
    let service_monitor : Bool = index m "serviceMonitorEnable" == "true" in
    let victoria_metrics : Bool = index m "victoriaMetricsEnable" == "true" in
    record {
      ingress_open = index m "ingressOpen" == "true";
      istio_inject = index m "istioInject" == "true";
      istio_enable = index m "istioEnable" == "true";
      istio_ingress_gateway = not (index m "istioIngressGateway" == "false");
      istio_timeout = istio_timeout_of (get? m "istioTimeout");
      istio_gateways = or_mesh (gateways_of json (get? m "istioGateways") old.istio_gateways);
      service_monitor_enable = service_monitor;
      victoria_metrics_enable =
          if service_monitor && victoria_metrics then false else victoria_metrics;
      pvc_enable = index m "pvcEnable" == "true";
      domain_postfix = domain_postfix_of json (get? m "domainPostfix") old.domain_postfix;
      image_pull_secrets = index m "imagePullSecrets";
      special_virtual_service_ingress = or_else (get? m "specialVirtualServiceIngress") "nginx";
      deployment_spec = index m "deploymentSpec";
      operator_delay = or_else (atoi (index m "operatorDelay")) (pos 30);
      init_container_image = index m "initContainerImage";
      base_flag = or_base (index m "baseFlag");
      env = index m "env";
    }

-- func (sc *SQBConfigMapEntity) FromMap
unfoldable pub from_map : Json → Map String → SqbConfigMapEntity → SqbConfigMapEntity
unfolding load_data
from_map json m sc =
    let loaded = load_data json m sc.config in
    record {
      config = loaded;
      initialized = true;
      ready = sc.ready;
      timers = if sc.ready then sc.timers else loaded.operator_delay ∷ sc.timers;
    }

-- The end of the goroutine that waits for the first of the timers.
unfoldable pub fire : SqbConfigMapEntity → List ℤ → SqbConfigMapEntity
fire sc rest = record sc { ready = true; timers = rest }

replace_values : String → Entries String → Entries String
replace_values prefix [] = []
replace_values prefix ((k, v) ∷ m) = (k, replace_all v b'*' prefix) ∷ replace_values prefix m

-- func (sc *SQBConfigMapEntity) GetDomainNames
unfoldable pub get_domain_names : SqbConfigMapEntity → String → Map String
unfolding replace_values
get_domain_names sc prefix = made (replace_values prefix (entries sc.config.domain_postfix))

-- func (sc *SQBConfigMapEntity) GetDomainNameByClass
unfoldable pub get_domain_name_by_class : SqbConfigMapEntity → String → String → String
unfolding get_domain_names
get_domain_name_by_class sc prefix class = index (get_domain_names sc prefix) class

-- func (sc *SQBConfigMapEntity) GetImagePullSecrets: the names of the references.
unfoldable pub get_image_pull_secrets : SqbConfigMapEntity → List String
get_image_pull_secrets sc =
    let secrets = sc.config.image_pull_secrets in
    if is_empty secrets then [] else pieces (split b',' secrets)

abbrev pub istio_timeout : SqbConfigMapEntity → ℤ
istio_timeout sc = sc.config.istio_timeout

abbrev pub istio_gateways : SqbConfigMapEntity → List String
istio_gateways sc = sc.config.istio_gateways

abbrev pub ingress_open : SqbConfigMapEntity → Bool
ingress_open sc = sc.config.ingress_open

abbrev pub istio_enable : SqbConfigMapEntity → Bool
istio_enable sc = sc.config.istio_enable

unfoldable pub istio_inject : SqbConfigMapEntity → Bool
istio_inject sc = if sc.config.istio_enable then sc.config.istio_inject else false

unfoldable pub has_istio_ingress_gateway : SqbConfigMapEntity → Bool
has_istio_ingress_gateway sc =
    if sc.config.istio_enable then sc.config.istio_ingress_gateway else false

abbrev pub is_service_monitor_enable : SqbConfigMapEntity → Bool
is_service_monitor_enable sc = sc.config.service_monitor_enable

abbrev pub is_victoria_metrics_enable : SqbConfigMapEntity → Bool
is_victoria_metrics_enable sc = sc.config.victoria_metrics_enable

abbrev pub is_pvc_enable : SqbConfigMapEntity → Bool
is_pvc_enable sc = sc.config.pvc_enable

abbrev pub special_virtual_service_ingress : SqbConfigMapEntity → String
special_virtual_service_ingress sc = sc.config.special_virtual_service_ingress

abbrev pub deployment_spec : SqbConfigMapEntity → String
deployment_spec sc = sc.config.deployment_spec

abbrev pub is_initialized : SqbConfigMapEntity → Bool
is_initialized sc = sc.initialized

abbrev pub is_ready : SqbConfigMapEntity → Bool
is_ready sc = sc.ready

abbrev pub operator_delay : SqbConfigMapEntity → ℤ
operator_delay sc = sc.config.operator_delay

abbrev pub init_container_image : SqbConfigMapEntity → String
init_container_image sc = sc.config.init_container_image

abbrev pub base_flag : SqbConfigMapEntity → String
base_flag sc = sc.config.base_flag

-- func (sc *SQBConfigMapEntity) Env
unfoldable pub env : SqbConfigMapEntity → String
env sc = if sc.config.env == "prod" then "prod" else "test"

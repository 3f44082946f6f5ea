-- ===== src/Kinds/Core.antt =====
-- Services, ingresses and persistent volume claims.
use elastic_env_operator.Base.{String, List, [], ℤ, Option, none, Map, nil}
use elastic_env_operator.Api.Meta.{ObjectMeta, RuntimeObj, named}
use elastic_env_operator.Api.Core.{ServicePort}

pub record Service : Type 0 where
  pub metadata : ObjectMeta
  pub ports : List ServicePort
  pub selector : Map String

instance abbrev pub service_obj : RuntimeObj Service
service_obj = record { meta = λ s. s.metadata }

abbrev pub new_service : String → String → Service
new_service namespace name = record { metadata = named namespace name; ports = []; selector = nil }

-- The backend is a service and the number of its port.
pub record HttpIngressPath : Type 0 where
  pub path : String
  pub service_name : String
  pub port_number : ℤ
  pub path_type : String

pub record IngressRule : Type 0 where
  pub host : String
  pub paths : List HttpIngressPath

pub record Ingress : Type 0 where
  pub metadata : ObjectMeta
  pub rules : List IngressRule

instance abbrev pub ingress_obj : RuntimeObj Ingress
ingress_obj = record { meta = λ i. i.metadata }

abbrev pub new_ingress : String → String → Ingress
new_ingress namespace name = record { metadata = named namespace name; rules = [] }

pub record PersistentVolumeClaim : Type 0 where
  pub metadata : ObjectMeta
  pub access_modes : List String
  pub storage_request : String
  pub storage_class_name : Option String

instance abbrev pub pvc_obj : RuntimeObj PersistentVolumeClaim
pvc_obj = record { meta = λ p. p.metadata }

abbrev pub new_pvc : String → String → PersistentVolumeClaim
new_pvc namespace name = record {
  metadata = named namespace name;
  access_modes = [];
  storage_request = "";
  storage_class_name = none;
}

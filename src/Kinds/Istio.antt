-- ===== src/Kinds/Istio.antt =====
-- Virtual services and destination rules of Istio.
use elastic_env_operator.Base.{String, List, [], ℤ, Option, Map}
use elastic_env_operator.Api.Meta.{ObjectMeta, RuntimeObj, named}

pub data StringMatch : Type 0 where
  prefix : String → StringMatch
  exact : String → StringMatch

pub record HttpMatchRequest : Type 0 where
  pub uri : Option StringMatch
  pub headers : Map StringMatch
  pub query_params : Map StringMatch
  pub source_labels : Map String

pub record Destination : Type 0 where
  pub host : String
  pub subset : String

-- `set_headers` is what Headers.Request.Set holds, if the route has headers.
pub record HttpRoute : Type 0 where
  pub matches : List HttpMatchRequest
  pub route : List Destination
  pub timeout : Option ℤ
  pub set_headers : Option (Map String)

-- A match is by the source labels alone.
pub record TcpRoute : Type 0 where
  pub matches : List (Map String)
  pub route : List Destination

pub record VirtualService : Type 0 where
  pub metadata : ObjectMeta
  pub hosts : List String
  pub gateways : List String
  pub http : List HttpRoute
  pub tcp : List TcpRoute

instance abbrev pub virtual_service_obj : RuntimeObj VirtualService
virtual_service_obj = record { meta = λ v. v.metadata }

abbrev pub new_virtual_service : String → String → VirtualService
new_virtual_service namespace name = record {
  metadata = named namespace name;
  hosts = [];
  gateways = [];
  http = [];
  tcp = [];
}

pub record Subset : Type 0 where
  pub name : String
  pub labels : Map String

pub record DestinationRule : Type 0 where
  pub metadata : ObjectMeta
  pub host : String
  pub subsets : List Subset

instance abbrev pub destination_rule_obj : RuntimeObj DestinationRule
destination_rule_obj = record { meta = λ d. d.metadata }

abbrev pub new_destination_rule : String → String → DestinationRule
new_destination_rule namespace name = record {
  metadata = named namespace name;
  host = "";
  subsets = [];
}

-- ===== src/Kinds/Monitoring.antt =====
-- The scrape objects of the Prometheus and the VictoriaMetrics operator, which differ in their
-- endpoints.
use elastic_env_operator.Base.{String, List, [], Map, nil}
use elastic_env_operator.Api.Meta.{ObjectMeta, RuntimeObj, named}
use elastic_env_operator.Api.Core.{Raw}

-- The token file, and the other fields by their text.
pub record VmEndpoint : Type 0 where
  pub settings : Raw
  pub bearer_token_file : String

pub record Scrape (E : Type 0) : Type 0 where
  pub metadata : ObjectMeta
  pub target_labels : List String
  pub match_labels : Map String
  pub match_names : List String
  pub endpoints : List E

abbrev pub ServiceMonitor : Type 0
ServiceMonitor = Scrape Raw

abbrev pub VmServiceScrape : Type 0
VmServiceScrape = Scrape VmEndpoint

instance abbrev pub scrape_obj : {E : Type 0} → RuntimeObj (Scrape E)
scrape_obj = record { meta = λ s. s.metadata }

abbrev pub new_scrape : {E : Type 0} → String → String → Scrape E
new_scrape namespace name = record {
  metadata = named namespace name;
  target_labels = [];
  match_labels = nil;
  match_names = [];
  endpoints = [];
}

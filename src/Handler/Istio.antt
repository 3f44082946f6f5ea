-- ===== src/Handler/Istio.antt =====
-- destinationrule_handler.go, special_virtualservice_handler.go: the subsets of an application, and
-- the public entry of a deployment.
pub mod Laws
use elastic_env_operator.Base.{
  String, not, ◌&&◌, none, some, List, [], ◌∷◌, map, Map, nil, made, get?, index, entries, Exec,
  pure, ◌>>=◌, ◌>>◌, if◌then◌else◌,
}
use elastic_env_operator.Api.Types.{Subpath, SqbApplication, SqbDeployment}
use elastic_env_operator.Entity.Keys.{x_env_flag, plane_key, destination_rule_annotation_key}
use elastic_env_operator.Entity.ConfigMap.{
  Json, SqbConfigMapEntity, istio_enable, istio_gateways, istio_timeout, get_domain_name_by_class,
}
use elastic_env_operator.Util.{merge_string_map, get_subset_name}
use elastic_env_operator.Kinds.Istio.{
  prefix, HttpRoute, Subset, DestinationRule, VirtualService, new_destination_rule,
  new_virtual_service, destination_rule_obj, virtual_service_obj,
}
use elastic_env_operator.Cluster.{get, get_or_new}
use elastic_env_operator.Operator.{Operator}
use elastic_env_operator.Handler
use elastic_env_operator.Handler.Settings.{
  is_istio_inject, has_public_entry, special_virtual_service_ingress,
}
use elastic_env_operator.Handler.VirtualService.Routes.{keys}

-- The subset of one plane.
unfoldable pub subset_of : String → String → Subset
unfolding get_subset_name
subset_of name plane = record {
  name = get_subset_name name plane;
  labels = made ((plane_key, plane) ∷ []);
}

-- The destination rule that `CreateOrUpdate` writes, from the one that it found.
unfoldable pub desired_rule : Json → SqbApplication → DestinationRule → DestinationRule
unfolding subset_of
desired_rule json app rule =
    let annotations : Map String = elim (get? app.annotations destination_rule_annotation_key) [
      | some text ↦ json.unmarshal_map text rule.metadata.annotations
      | none ↦ nil
    ] in
    record {
      metadata = record rule.metadata { annotations = annotations; labels = app.labels };
      host = app.name;
      subsets = map (subset_of app.name) (keys (entries app.status.planes));
    }

-- A route of the special virtual service: no flag is asked for, and the plane's flag is set.
special_route : SqbConfigMapEntity → SqbDeployment → String → HttpRoute
special_route sc d host = record {
  matches = [];
  route = record { host = host; subset = index d.labels plane_key } ∷ [];
  timeout = some (istio_timeout sc);
  set_headers = some (made ((x_env_flag, index d.labels plane_key) ∷ []));
}

unfoldable pub special_routes : SqbConfigMapEntity → SqbDeployment → List Subpath → List HttpRoute
unfolding special_route
special_routes sc d [] = special_route sc d d.spec.selector.app ∷ []
special_routes sc d (s ∷ subpaths) =
    record (special_route sc d s.service_name) {
      matches =
          record {
            uri = some (prefix s.path);
            headers = nil;
            query_params = nil;
            source_labels = nil;
          }
          ∷ [];
    }
    ∷ special_routes sc d subpaths

unfoldable pub desired_special :
    SqbConfigMapEntity → SqbDeployment → SqbApplication → VirtualService → VirtualService
unfolding special_routes merge_string_map special_virtual_service_ingress get_domain_name_by_class
desired_special sc d app v = record v {
  metadata = record v.metadata { labels = merge_string_map v.metadata.labels d.labels };
  hosts = get_domain_name_by_class sc d.name (special_virtual_service_ingress sc d) ∷ [];
  gateways = istio_gateways sc;
  http = special_routes sc d app.spec.subpaths;
}

module _ (op : Operator) where
  -- func (h *destinationRuleHandler) CreateOrUpdate
  unfoldable pub create_or_update_rule : SqbApplication → Exec op.World (Unit {0})
  unfolding desired_rule get_or_new Handler.create_or_update
  create_or_update_rule app = do
    rule ←
        get_or_new op.destination_rules app.namespace app.name
          (new_destination_rule app.namespace app.name)
    Handler.create_or_update op.destination_rules (desired_rule op.json app rule)
    pure tt

  unfoldable pub delete_rule : SqbApplication → Exec op.World (Unit {0})
  unfolding Handler.delete
  delete_rule app =
      Handler.delete op.destination_rules (new_destination_rule app.namespace app.name)

  -- func (h *destinationRuleHandler) Handle
  unfoldable pub handle_rule : SqbApplication → Exec op.World (Unit {0})
  unfolding create_or_update_rule delete_rule Handler.deleted is_istio_inject
  handle_rule app =
      if not (istio_enable op.config)
      then pure tt
      else if Handler.deleted op.sums app.metadata
      then delete_rule app
      else if is_istio_inject op.config app
      then create_or_update_rule app
      else delete_rule app

  -- func (h *specialVirtualServiceHandler) CreateOrUpdate
  unfoldable pub create_or_update_special : SqbDeployment → Exec op.World (Unit {0})
  unfolding desired_special get get_or_new Handler.create_or_update
  create_or_update_special d = do
    v ← get_or_new op.virtual_services d.namespace d.name (new_virtual_service d.namespace d.name)
    app ← get op.sqb_applications v.metadata.namespace d.spec.selector.app
    Handler.create_or_update op.virtual_services (desired_special op.config d app v)
    pure tt

  unfoldable pub delete_special : SqbDeployment → Exec op.World (Unit {0})
  unfolding Handler.delete
  delete_special d = Handler.delete op.virtual_services (new_virtual_service d.namespace d.name)

  -- func (h *specialVirtualServiceHandler) Handle
  unfoldable pub handle_special : SqbDeployment → Exec op.World (Unit {0})
  unfolding create_or_update_special delete_special Handler.deleted has_public_entry
  handle_special d =
      if not (istio_enable op.config)
      then pure tt
      else if has_public_entry d && not (Handler.deleted op.sums d.metadata)
      then create_or_update_special d
      else delete_special d

-- ===== src/Handler/Ingress/Objects.antt =====
-- ingress_handler.go: what the ingresses of an application and of a public entry hold, and which are
-- taken for generated ones.
use elastic_env_operator.Base.{
  String, ◌<>◌, Bool, true, false, ◌&&◌, ◌||◌, ◌==◌, List, [], ◌∷◌, ◌++◌, map, no_items, ℤ, pos,
  to_int32, Map, made, is_nil, is_void, index, is_empty, if◌then◌else◌,
}
use elastic_env_operator.Api.Core.{ServicePort}
use elastic_env_operator.Api.Types.{Domain, Subpath, SqbApplication, SqbDeployment}
use elastic_env_operator.Entity.Keys.{
  app_key, group_key, ingress_class_annotation_key, public_entry_annotation_key,
}
use elastic_env_operator.Entity.ConfigMap.{SqbConfigMapEntity, get_domain_name_by_class}
use elastic_env_operator.Util.{merge_string_map}
use elastic_env_operator.Kinds.Core.{
  HttpIngressPath, IngressRule, Ingress, new_ingress, ingress_obj,
}
use elastic_env_operator.Handler.Settings.{
  is_istio_inject, has_istio_ingress_gateway, special_virtual_service_ingress,
}

-- getIngressName
unfoldable pub get_ingress_name : String → String → String → String
get_ingress_name app_name nginx_class host = app_name <> ("." <> (nginx_class <> ("." <> host)))

abbrev implementation_specific : String
implementation_specific = "ImplementationSpecific"

abbrev snippet_key : String
snippet_key = "nginx.ingress.kubernetes.io/server-snippet"

abbrev deny_metrics : String
deny_metrics = "location ~ ^/metrics {deny all;return 404;}"

-- The path to the Istio ingress gateway of a namespace.
abbrev gateway_path : String → HttpIngressPath
gateway_path namespace = record {
  path = "";
  service_name = "istio-ingressgateway" <> ("-" <> namespace);
  port_number = pos 80;
  path_type = implementation_specific;
}

unfoldable pub default_port : List ServicePort → ℤ
default_port [] = pos 80
default_port (port ∷ ports) = port.target_port.int_val

unfoldable pub subpath_path : Subpath → HttpIngressPath
subpath_path s = record {
  path = s.path;
  service_name = s.service_name;
  port_number = to_int32 s.service_port;
  path_type = implementation_specific;
}

-- The paths of an ingress of the application: the gateway, or the subpaths and the default.
unfoldable pub paths_of : SqbConfigMapEntity → SqbApplication → List HttpIngressPath
unfolding default_port subpath_path is_istio_inject
paths_of sc app =
    if is_istio_inject sc app && has_istio_ingress_gateway sc
    then gateway_path app.namespace ∷ []
    else map subpath_path app.spec.subpaths
      ++ record {
        path = "";
        service_name = app.name;
        port_number = default_port app.spec.ports;
        path_type = implementation_specific;
      }
        ∷ []

abbrev pub merged_annotations : String → Map String
merged_annotations class =
    if class == "nginx"
    then made ((ingress_class_annotation_key, class) ∷ (snippet_key, deny_metrics) ∷ [])
    else made ((ingress_class_annotation_key, class) ∷ [])

unfoldable pub domain_annotations : Domain → Map String → Map String
unfolding merge_string_map
domain_annotations domain old =
    if is_void domain.annotation then old else merge_string_map old domain.annotation

-- The ingress of a domain that is written, from the one that was found.
unfoldable pub desired : SqbConfigMapEntity → SqbApplication → Domain → Ingress → Ingress
unfolding paths_of merge_string_map domain_annotations
desired sc app domain ingress = record {
  metadata = record ingress.metadata {
    labels =
        merge_string_map ingress.metadata.labels
          (made ((app_key, app.name) ∷ (group_key, index app.labels group_key) ∷ []));
    annotations =
        merge_string_map (domain_annotations domain ingress.metadata.annotations)
          (merged_annotations domain.class);
  };
  rules = record { host = domain.host; paths = paths_of sc app } ∷ [];
}

-- The ingress of a public entry before it is looked up, and the one that is written.
public_host : SqbConfigMapEntity → SqbDeployment → String
unfolding get_domain_name_by_class special_virtual_service_ingress
public_host sc d = get_domain_name_by_class sc d.name (special_virtual_service_ingress sc d)

unfoldable pub public_name : SqbConfigMapEntity → SqbDeployment → String → String
unfolding get_ingress_name public_host special_virtual_service_ingress
public_name sc d app_name =
    get_ingress_name app_name (special_virtual_service_ingress sc d) (public_host sc d)

unfoldable pub blank_public : SqbConfigMapEntity → SqbDeployment → Ingress
unfolding public_name
blank_public sc d =
    let blank = new_ingress d.namespace (public_name sc d (index d.labels app_key)) in
    record blank {
      metadata = record blank.metadata {
        annotations = made (
            (ingress_class_annotation_key, special_virtual_service_ingress sc d)
            ∷ (snippet_key, deny_metrics)
            ∷ []);
      };
    }

unfoldable pub desired_public : SqbConfigMapEntity → SqbDeployment → Ingress → Ingress
unfolding merge_string_map public_host
desired_public sc d ingress = record {
  metadata = record ingress.metadata { labels = merge_string_map ingress.metadata.labels d.labels };
  rules = record { host = public_host sc d; paths = gateway_path d.namespace ∷ [] } ∷ [];
}

unfoldable pub first_host : List IngressRule → String
first_host [] = ""
first_host (rule ∷ rules) = rule.host

-- isAutoIngress, for the name of an application
unfoldable pub is_auto_ingress : String → Ingress → Bool
unfolding get_ingress_name first_host
is_auto_ingress app_name ingress =
    let class = index ingress.metadata.annotations ingress_class_annotation_key in
    if is_nil ingress.metadata.annotations || is_empty class || no_items ingress.rules
    then false
    else if get_ingress_name app_name class (first_host ingress.rules) == ingress.metadata.name
    then true
    else if (app_name <> ("-" <> class)) == ingress.metadata.name
    then true
    else false

-- The names of the ingresses of the application's deployments that have a public entry.
unfoldable pub public_names : SqbConfigMapEntity → String → List SqbDeployment → List String
unfolding public_name
public_names sc app_name [] = []
public_names sc app_name (d ∷ ds) =
    let rest = public_names sc app_name ds in
    if index d.annotations public_entry_annotation_key == "true"
    then public_name sc d app_name ∷ rest
    else rest

unfoldable pub domain_name : SqbApplication → Domain → String
unfolding get_ingress_name
domain_name app domain = get_ingress_name app.name domain.class domain.host

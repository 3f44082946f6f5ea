-- ===== src/Handler/Serving.antt =====
-- What a reconciliation of an application that ends well leaves in the cluster: its service, and an
-- ingress for each of its domains.
pub mod Domains
pub mod Sparing
pub mod Services
pub mod Applications
pub mod Answering
pub mod Success
use elastic_env_operator.Base.{
  List, [], ◌∷◌, ◌++◌, Option, get?, String, ◌≡◌, All, map, ℤ, pos, to_int32, Bool, false, ◌&&◌,
  refl, ap,
}
use elastic_env_operator.Entity.Keys.{plane_key}
use elastic_env_operator.Api.Core.{ServicePort}
use elastic_env_operator.Api.Types.{Domain, Subpath, SqbApplication}
use elastic_env_operator.Kinds.Core.{
  HttpIngressPath, Ingress, IngressRule, Service, ingress_obj, service_obj,
}
use elastic_env_operator.Cluster.Stores.{Holds}
use elastic_env_operator.Operator.{Operator}
use elastic_env_operator.Handler.Ingress.{domain_name, paths_of, subpath_path, default_port}
use elastic_env_operator.Handler.Settings.{is_istio_inject, has_istio_ingress_gateway}

-- What of an ingress and of a service the statements are about.
abbrev pub rules_of : Ingress → List IngressRule
rules_of ingress = ingress.rules

abbrev pub named_numbers : List ServicePort → List (String × ℤ)
named_numbers = map (λ (p : ServicePort). (p.name, p.port))

-- The names and the numbers of its ports, and the plane in its selector. The server sets the protocol
-- and the target of a port that has none.
abbrev pub ports_and_plane : Service → List (String × ℤ) × Option String
ports_and_plane service = (named_numbers service.ports, get? service.selector plane_key)

-- Domains of one name have one host. The names are texts joined by dots, so a class with a dot may
-- make two domains share a name.
abbrev pub Agree : SqbApplication → Domain → Domain → Type 0
Agree app domain other = domain_name app other ≡ domain_name app domain → other.host ≡ domain.host

abbrev pub IsUnambiguous : SqbApplication → List Domain → Type 0
IsUnambiguous app [] = Unit
IsUnambiguous app (domain ∷ domains) = All (Agree app domain) domains × IsUnambiguous app domains

-- A path that leads to a port of a service.
abbrev pub path_to : String → String → ℤ → HttpIngressPath
path_to path service port = record {
  path = path;
  service_name = service;
  port_number = port;
  path_type = "ImplementationSpecific";
}

-- The number behind the service of an application: the target of its first port, or 80.
pub first_target : List ServicePort → ℤ
first_target [] = pos 80
first_target (port ∷ ports) = port.target_port.int_val

-- The requests under a subpath go to the service of the subpath, all others to that of the
-- application.
pub paths_to : String → List ServicePort → List Subpath → List HttpIngressPath
unfolding first_target
paths_to name ports [] = path_to "" name (first_target ports) ∷ []
paths_to name ports (s ∷ subpaths) =
    path_to s.path s.service_name (to_int32 s.service_port) ∷ paths_to name ports subpaths

-- The requests for the application do not go by the ingress gateway of Istio.
abbrev pub IsDirect : Operator → SqbApplication → Type 0
IsDirect op app = (is_istio_inject op.config app && has_istio_ingress_gateway op.config) ≡ false

paths_to-map :
    (name : String) (ports : List ServicePort) (subpaths : List Subpath)
    → map subpath_path subpaths ++ path_to "" name (default_port ports) ∷ []
      ≡ paths_to name ports subpaths
unfolding paths_to default_port first_target subpath_path
paths_to-map name [] [] = refl
paths_to-map name (p ∷ ports) [] = refl
paths_to-map name ports (s ∷ subpaths) =
    ap (λ paths. path_to s.path s.service_name (to_int32 s.service_port) ∷ paths)
      (paths_to-map name ports subpaths)

-- The paths that the handler writes are these.
pub paths_of-direct :
    (op : Operator) (app : SqbApplication)
    → IsDirect op app
    → paths_of op.config app ≡ paths_to app.name app.spec.ports app.spec.subpaths
unfolding paths_of
paths_of-direct op app direct = rw direct (paths_to-map app.name app.spec.ports app.spec.subpaths)

module _ (op : Operator) (app : SqbApplication) where
  -- The rules that lead the requests for a domain to the application.
  abbrev pub rules_for : Domain → List IngressRule
  rules_for domain =
      record { host = domain.host; paths = paths_to app.name app.spec.ports app.spec.subpaths } ∷ []

  abbrev pub IsServed : op.World → Domain → Type 0
  IsServed w domain =
      Holds rules_of op.ingresses app.namespace (domain_name app domain) (rules_for domain) w

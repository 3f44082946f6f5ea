-- ===== src/Handler/VirtualService.antt =====
-- virtualservice_handler.go: the virtual service of an application. The order in which each `range`
-- visits the planes is an argument.
pub mod Ranges
pub mod Routes
pub mod Routing
pub mod Rebuild
use elastic_env_operator.Base.{
  ℕ, String, Bool, true, false, not, ◌||◌, none, some, List, [], ◌∷◌, ◌++◌, map, Map, nil, get?,
  Exec, pure, split, lower_is, ◌>>=◌, ◌>>◌, if◌then◌else◌,
}
use elastic_env_operator.Api.Core.{ServicePort}
use elastic_env_operator.Api.Types.{Domain, SqbApplication}
use elastic_env_operator.Entity.Keys.{virtual_service_annotation_key}
use elastic_env_operator.Entity.ConfigMap.{SqbConfigMapEntity, Json, istio_enable, istio_gateways}
use elastic_env_operator.Kinds.Istio.{
  VirtualService, TcpRoute, new_virtual_service, virtual_service_obj,
}
use elastic_env_operator.Cluster.{get_or_new}
use elastic_env_operator.Operator.{Operator}
use elastic_env_operator.Handler
use elastic_env_operator.Handler.VirtualService.Ranges.{Range}
use elastic_env_operator.Handler.Settings.{is_istio_inject}
use elastic_env_operator.Handler.VirtualService.Routes.{
  get_or_generate_http_routes, get_or_generate_tcp_routes, restored_planes,
}

-- getIngressHosts
unfoldable pub get_ingress_hosts : SqbApplication → List String
get_ingress_hosts app = map (λ (d : Domain). d.host) app.spec.domains

-- The test of a port's name: the protocol before the first dash.
is_tcp : ServicePort → Bool
is_tcp port =
    let protocol = (split b'-' port.name).0 in
    lower_is protocol "tcp"
    || lower_is protocol "mongo"
    || lower_is protocol "mysql"
    || lower_is protocol "redis"

-- The loop over the ports, with the TCP routes that stand in the object: the first TCP port has
-- them generated from these, and ends the loop; a port before it clears them.
tcp_of : (List TcpRoute → List TcpRoute) → List ServicePort → List TcpRoute → List TcpRoute
tcp_of generate [] now = now
tcp_of generate (port ∷ ports) now =
    let rest = tcp_of generate ports [] in if is_tcp port then generate now else rest

annotations_of : Json → SqbApplication → VirtualService → Map String
annotations_of json app v = elim (get? app.annotations virtual_service_annotation_key) [
  | some text ↦ json.unmarshal_map text v.metadata.annotations
  | none ↦ nil
]

-- The virtual service that `CreateOrUpdate` writes, from the one that it found.
unfoldable pub desired :
    SqbConfigMapEntity → Json → Range → Range → SqbApplication → VirtualService → VirtualService
unfolding get_ingress_hosts get_or_generate_http_routes get_or_generate_tcp_routes is_tcp tcp_of
    annotations_of restored_planes
desired sc json http_range tcp_range app v =
    let planes = restored_planes sc app.status.planes in
    record {
      metadata = record v.metadata { annotations = annotations_of json app v; labels = app.labels };
      hosts = get_ingress_hosts app ++ app.name ∷ [];
      gateways = istio_gateways sc;
      http =
          get_or_generate_http_routes sc http_range app.name app.spec.subpaths app.status.planes
            v.http;
      tcp = tcp_of (get_or_generate_tcp_routes sc tcp_range app.name planes) app.spec.ports v.tcp;
    }

module _ (op : Operator) where
  unfoldable pub create_or_update : Range → Range → SqbApplication → Exec op.World (Unit {0})
  unfolding desired get_or_new Handler.create_or_update
  create_or_update http_range tcp_range app = do
    v ←
        get_or_new op.virtual_services app.namespace app.name
          (new_virtual_service app.namespace app.name)
    Handler.create_or_update op.virtual_services
        (desired op.config op.json http_range tcp_range app v)
    pure tt

  unfoldable pub delete : SqbApplication → Exec op.World (Unit {0})
  unfolding Handler.delete
  delete app = Handler.delete op.virtual_services (new_virtual_service app.namespace app.name)

  -- func (h *virtualServiceHandler) Handle
  unfoldable pub handle : Range → Range → SqbApplication → Exec op.World (Unit {0})
  unfolding create_or_update delete Handler.deleted is_istio_inject
  handle http_range tcp_range app =
      if not (istio_enable op.config)
      then pure tt
      else if Handler.deleted op.sums app.metadata
      then delete app
      else if is_istio_inject op.config app
      then create_or_update http_range tcp_range app
      else delete app

-- ===== src/Tests/Routing.antt =====
-- The routes of an application with a subpath and two planes.
use elastic_env_operator.Api.Types.{SqbApplication}
use elastic_env_operator.Base.{◌≡◌, refl, none, some, [], ◌∷◌, has}
use elastic_env_operator.Entity.ConfigMap.{base_flag}
use elastic_env_operator.Handler.VirtualService.Routes.{
  get_or_generate_http_routes, feature_planes, base_default, find_http_route, base_or,
  generate_base_http_route,
}
use elastic_env_operator.Handler.VirtualService.Routing.{Request, dispatch, first_plane, target}
use elastic_env_operator.Handler.VirtualService.Rebuild.{get_or_generate_http_routes_again}
use elastic_env_operator.Handler.VirtualService.Routing.Sending.{
  sent_to, subset_for, plane_or_base, dispatch-sends,
}
use elastic_env_operator.Handler.VirtualService.Ranges.{as_is}
use elastic_env_operator.Tests.Fixtures.{config, shop, cart, two_planes}

abbrev to_cart : Request
to_cart = record {
  path = "/cart/1";
  header = λ k. some "dev";
  query_param = λ k. none;
  source_label = λ k. none;
}

dispatch-sends_example :
    sent_to
      (dispatch (get_or_generate_http_routes config as_is "shop" (cart ∷ []) two_planes []) to_cart)
    ≡ subset_for
        (plane_or_base
          (first_plane (feature_planes config two_planes) to_cart)
          (has two_planes (base_flag config))
          (base_flag config))
        (target "shop" (cart ∷ []) to_cart).0
unfolding base_default find_http_route base_or generate_base_http_route
dispatch-sends_example = dispatch-sends config to_cart as_is "shop" (cart ∷ []) two_planes [] refl

get_or_generate_http_routes_again_example :
    get_or_generate_http_routes config as_is "shop"
      (cart ∷ [])
      two_planes
      (get_or_generate_http_routes config as_is "shop" (cart ∷ []) two_planes [])
    ≡ get_or_generate_http_routes config as_is "shop" (cart ∷ []) two_planes []
get_or_generate_http_routes_again_example =
    get_or_generate_http_routes_again config as_is as_is "shop" (cart ∷ []) two_planes [] refl

abbrev routed : SqbApplication
routed = record shop {
  spec = record shop.spec { ingress_spec = record { domains = []; subpaths = cart ∷ [] } };
  status = record shop.status { planes = two_planes };
}

-- ===== src/Handler/Service.antt =====
-- service_handler.go: the service of an application, and that of a gray deployment.
pub mod Laws
use elastic_env_operator.Base.{
  String, Bool, true, false, not, ◌||◌, ◌==◌, Option, none, some, [], ◌∷◌, Map, nil, made, get?,
  remove, insert, entries, Exec, pure, ◌>>=◌, ◌>>◌, if◌then◌else◌,
}
use elastic_env_operator.Api.Meta.{ObjectMeta}
use elastic_env_operator.Api.Types.{SqbApplication, SqbDeployment}
use elastic_env_operator.Entity.Keys.{app_key, plane_key, service_annotation_key}
use elastic_env_operator.Entity.ConfigMap.{Json, env}
use elastic_env_operator.Util.{merge_string_map}
use elastic_env_operator.Kinds.Core.{Service, new_service, service_obj}
use elastic_env_operator.Cluster.{get, get_or_new}
use elastic_env_operator.Operator.{Operator}
use elastic_env_operator.Handler

-- A map of annotations that is passed through as a text: the object's annotations become what the
-- text says, or none.
abbrev pub passed_through : Json → Option String → Map String
passed_through json none = nil
passed_through json (some text) = json.unmarshal_map text (made [])

-- The service that `CreateOrUpdate` writes, from the one that it found.
unfoldable pub desired : Json → SqbApplication → Service → Service
unfolding merge_string_map
desired json app service = record {
  metadata = record service.metadata {
    annotations = passed_through json (get? app.annotations service_annotation_key);
    labels = merge_string_map service.metadata.labels app.labels;
  };
  ports = app.spec.ports;
  selector = remove (merge_string_map (made ((app_key, app.name) ∷ [])) service.selector) plane_key;
}

-- `gray`, the plane that has a service of its own
abbrev gray : String
gray = "gray"

abbrev set_label : Map String → String → String → Map String
set_label m k v = made (insert k v (entries m))

unfoldable pub desired_gray : SqbApplication → Service → Service
unfolding merge_string_map
desired_gray app service = record {
  metadata = record service.metadata {
    labels = set_label (merge_string_map service.metadata.labels app.labels) plane_key gray;
  };
  ports = app.spec.ports;
  selector = made ((app_key, app.name) ∷ (plane_key, gray) ∷ []);
}

module _ (op : Operator) where
  unfoldable pub create_or_update : SqbApplication → Exec op.World (Unit {0})
  unfolding desired get_or_new Handler.create_or_update
  create_or_update app = do
    service ← get_or_new op.services app.namespace app.name (new_service app.namespace app.name)
    Handler.create_or_update op.services (desired op.json app service)
    pure tt

  unfoldable pub delete : SqbApplication → Exec op.World (Unit {0})
  unfolding Handler.delete
  delete app = Handler.delete op.services (new_service app.namespace app.name)

  -- func (h *serviceHandler) Handle
  unfoldable pub handle : SqbApplication → Exec op.World (Unit {0})
  unfolding create_or_update delete Handler.deleted
  handle app = if Handler.deleted op.sums app.metadata then delete app else create_or_update app

  no_gray_service : SqbDeployment → Bool
  unfolding env
  no_gray_service d = not (env op.config == "prod") || not (d.spec.selector.plane == gray)

  unfoldable pub create_or_update_gray : SqbDeployment → Exec op.World (Unit {0})
  unfolding desired_gray get get_or_new Handler.create_or_update no_gray_service
  create_or_update_gray d = if no_gray_service d then pure tt else do
    app ← get op.sqb_applications d.namespace d.spec.selector.app
    service ← get_or_new op.services d.namespace d.name (new_service d.namespace d.name)
    Handler.create_or_update op.services (desired_gray app service)
    pure tt

  unfoldable pub delete_gray : SqbDeployment → Exec op.World (Unit {0})
  unfolding Handler.delete
  delete_gray d = Handler.delete op.services (new_service d.namespace d.name)

  -- func (h *grayServiceHandler) Handle
  unfoldable pub handle_gray : SqbDeployment → Exec op.World (Unit {0})
  unfolding create_or_update_gray delete_gray Handler.deleted
  handle_gray d =
      if Handler.deleted op.sums d.metadata then delete_gray d else create_or_update_gray d

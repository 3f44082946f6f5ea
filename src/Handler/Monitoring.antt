-- ===== src/Handler/Monitoring.antt =====
-- vmservice_scrape_handler.go, service_monitor_handler.go: the scrape objects of an application,
-- and that of a gray deployment.
use elastic_env_operator.Base.{
  String, Bool, not, ◌||◌, ◌==◌, List, [], ◌∷◌, map, Map, made, remove, index, is_empty, Exec, pure,
  lift, ◌>>=◌, ◌>>◌, if◌then◌else◌,
}
use elastic_env_operator.Api.Types.{SqbApplication, SqbDeployment}
use elastic_env_operator.Entity.Keys.{app_key, plane_key, group_key, service_monitor_annotation_key}
use elastic_env_operator.Entity.ConfigMap.{
  env, is_victoria_metrics_enable, is_service_monitor_enable,
}
use elastic_env_operator.Util.{merge_string_map}
use elastic_env_operator.Kinds.Monitoring.{VmEndpoint, Scrape, new_scrape, scrape_obj}
use elastic_env_operator.Cluster.{get, get_or_new}
use elastic_env_operator.Operator.{Operator}
use elastic_env_operator.Handler

abbrev token_file : String
token_file = "/var/run/secrets/kubernetes.io/serviceaccount/token"

-- The loop that sets the token file of each endpoint.
unfoldable pub with_token : List VmEndpoint → List VmEndpoint
with_token = map (λ (e : VmEndpoint). record e { bearer_token_file = token_file })

abbrev pub app_and_group : SqbApplication → List (String × String)
app_and_group app = (app_key, app.name) ∷ (group_key, index app.labels group_key) ∷ []

-- The scrape object before its endpoints are read, and then with them.
unfoldable pub aimed : {E : Type 0} → Map String → String → Scrape E → Scrape E
aimed match_labels namespace s = record s {
  target_labels = group_key ∷ [];
  match_labels = match_labels;
  match_names = namespace ∷ [];
}

unfoldable pub completed : {E : Type 0} → SqbApplication → List E → Scrape E → Scrape E
unfolding merge_string_map
completed app endpoints s = record s {
  metadata = record s.metadata { labels = merge_string_map s.metadata.labels app.labels };
  endpoints = endpoints;
}

module _ (op : Operator) where
  -- func (h *vmserviceScrapeHandler) CreateOrUpdate
  unfoldable pub create_or_update_vm : SqbApplication → Exec op.World (Unit {0})
  unfolding aimed completed with_token get_or_new Handler.create_or_update
  create_or_update_vm app = do
    vmservice ←
        get_or_new op.vm_service_scrapes app.namespace app.name (new_scrape app.namespace app.name)
    let found = aimed (remove (made (app_and_group app)) plane_key) app.namespace vmservice
    endpoints ←
        lift (op.unmarshal_vm_endpoints (index app.annotations service_monitor_annotation_key))
    Handler.create_or_update op.vm_service_scrapes (completed app (with_token endpoints) found)
    pure tt

  unfoldable pub delete_vm : SqbApplication → Exec op.World (Unit {0})
  unfolding Handler.delete
  delete_vm app = Handler.delete op.vm_service_scrapes (new_scrape app.namespace app.name)

  -- func (h *vmserviceScrapeHandler) Handle
  unfoldable pub handle_vm : SqbApplication → Exec op.World (Unit {0})
  unfolding create_or_update_vm delete_vm Handler.deleted
  handle_vm app =
      if not (is_victoria_metrics_enable op.config)
      then pure tt
      else if Handler.deleted op.sums app.metadata
      then delete_vm app
      else if not (is_empty (index app.annotations service_monitor_annotation_key))
      then create_or_update_vm app
      else delete_vm app

  skips_gray : SqbDeployment → Bool
  unfolding env
  skips_gray d = not (env op.config == "prod") || not (d.spec.selector.plane == "gray")

  -- func (h *grayVmServiceScrapeHandler) CreateOrUpdate
  unfoldable pub create_or_update_gray_vm : SqbDeployment → Exec op.World (Unit {0})
  unfolding aimed completed with_token get get_or_new Handler.create_or_update skips_gray
  create_or_update_gray_vm d = if skips_gray d then pure tt else do
    app ← get op.sqb_applications d.namespace d.spec.selector.app
    vmservice ← get_or_new op.vm_service_scrapes d.namespace d.name (new_scrape d.namespace d.name)
    let found =
        aimed
          (made (
            (app_key, app.name)
            ∷ (group_key, index app.labels group_key)
            ∷ (plane_key, "gray")
            ∷ []))
          d.namespace vmservice
    endpoints ←
        lift (op.unmarshal_vm_endpoints (index app.annotations service_monitor_annotation_key))
    Handler.create_or_update op.vm_service_scrapes (completed app (with_token endpoints) found)
    pure tt

  unfoldable pub delete_gray_vm : SqbDeployment → Exec op.World (Unit {0})
  unfolding Handler.delete
  delete_gray_vm d = Handler.delete op.vm_service_scrapes (new_scrape d.namespace d.name)

  -- func (h *grayVmServiceScrapeHandler) Handle
  unfoldable pub handle_gray_vm : SqbDeployment → Exec op.World (Unit {0})
  unfolding create_or_update_gray_vm delete_gray_vm Handler.deleted
  handle_gray_vm d =
      if not (is_victoria_metrics_enable op.config)
      then pure tt
      else if Handler.deleted op.sums d.metadata
      then delete_gray_vm d
      else create_or_update_gray_vm d

  -- func (h *serviceMonitorHandler) CreateOrUpdate
  unfoldable pub create_or_update_monitor : SqbApplication → Exec op.World (Unit {0})
  unfolding aimed completed get_or_new Handler.create_or_update
  create_or_update_monitor app = do
    monitor ←
        get_or_new op.service_monitors app.namespace app.name (new_scrape app.namespace app.name)
    let found = aimed (made (app_and_group app)) app.namespace monitor
    endpoints ← lift (op.unmarshal_endpoints (index app.annotations service_monitor_annotation_key))
    Handler.create_or_update op.service_monitors (completed app endpoints found)
    pure tt

  unfoldable pub delete_monitor : SqbApplication → Exec op.World (Unit {0})
  unfolding Handler.delete
  delete_monitor app = Handler.delete op.service_monitors (new_scrape app.namespace app.name)

  -- func (h *serviceMonitorHandler) Handle
  unfoldable pub handle_monitor : SqbApplication → Exec op.World (Unit {0})
  unfolding create_or_update_monitor delete_monitor Handler.deleted
  handle_monitor app =
      if not (is_service_monitor_enable op.config)
      then pure tt
      else if Handler.deleted op.sums app.metadata
      then delete_monitor app
      else if not (is_empty (index app.annotations service_monitor_annotation_key))
      then create_or_update_monitor app
      else delete_monitor app

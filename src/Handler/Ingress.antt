-- ===== src/Handler/Ingress.antt =====
-- ingress_handler.go: the ingresses of an application, one for each of its domains, and that of a
-- deployment with a public entry.
mod Objects
pub mod Laws
unfoldable pub use Objects.*
use elastic_env_operator.Base.{
  String, ◌<>◌, Bool, true, false, not, ◌&&◌, ◌||◌, ◌==◌, List, [], ◌∷◌, ◌++◌, map, no_items, ℤ,
  pos, to_int32, Map, made, insert, is_nil, is_void, index, is_empty, entries, Result, ok, err,
  panic, Exec, pure, ◌>>=◌, ◌>>◌, if◌then◌else◌,
}
use elastic_env_operator.Api.Core.{ServicePort}
use elastic_env_operator.Api.Types.{Domain, Subpath, SqbApplication, SqbDeployment}
use elastic_env_operator.Entity.Keys.{
  app_key, group_key, ingress_class_annotation_key, public_entry_annotation_key,
}
use elastic_env_operator.Entity.ConfigMap.{SqbConfigMapEntity, get_domain_name_by_class}
use elastic_env_operator.Util.{merge_string_map, contain_string}
use elastic_env_operator.Kinds.Core.{
  HttpIngressPath, IngressRule, Ingress, new_ingress, ingress_obj,
}
use elastic_env_operator.Cluster.{get, get_or_new, list_into}
use elastic_env_operator.Operator.{Operator}
use elastic_env_operator.Handler
use elastic_env_operator.Handler.Settings.{
  is_istio_inject, has_istio_ingress_gateway, is_ingress_open, special_virtual_service_ingress,
}

module _ (op : Operator) where
  -- The loop over the domains.
  unfoldable pub write_domains : SqbApplication → List Domain → Exec op.World (Unit {0})
  unfolding desired get_or_new Handler.create_or_update
  write_domains app [] = pure tt
  write_domains app (domain ∷ domains) = do
    ingress ←
        get_or_new op.ingresses app.namespace (domain_name app domain)
          (new_ingress app.namespace (domain_name app domain))
    Handler.create_or_update op.ingresses (desired op.config app domain ingress)
    write_domains app domains

  -- The loop over the listed ingresses: those that were generated and are not among the names.
  unfoldable pub delete_others : String → List String → List Ingress → Exec op.World (Unit {0})
  unfolding is_auto_ingress contain_string Handler.delete
  delete_others app_name kept [] = pure tt
  delete_others app_name kept (ingress ∷ ingresses) =
      let rest = delete_others app_name kept ingresses in
      if is_auto_ingress app_name ingress && not (contain_string kept ingress.metadata.name)
      then Handler.delete op.ingresses ingress >> rest
      else rest

  abbrev pub labelled : SqbApplication → Map String
  labelled app = made ((app_key, app.name) ∷ [])

  -- CreateOrUpdateForSqbapplication
  unfoldable pub create_or_update_for_sqbapplication : SqbApplication → Exec op.World (Unit {0})
  unfolding write_domains delete_others list_into public_names
  create_or_update_for_sqbapplication app = do
    write_domains app app.spec.domains
    ingresses ← list_into op.ingresses app.namespace (labelled app) []
    deployments ← list_into op.sqb_deployments app.namespace (labelled app) []
    delete_others app.name
        (map (domain_name app) app.spec.domains ++ public_names op.config app.name deployments)
        ingresses

  -- CreateOrUpdateForSqbdeployment
  unfoldable pub create_or_update_for_sqbdeployment : SqbDeployment → Exec op.World (Unit {0})
  unfolding desired_public blank_public get_or_new Handler.create_or_update
  create_or_update_for_sqbdeployment d = do
    let blank = blank_public op.config d
    ingress ← get_or_new op.ingresses blank.metadata.namespace blank.metadata.name blank
    Handler.create_or_update op.ingresses (desired_public op.config d ingress)
    pure tt

  -- The loop of `DeleteForSqbapplication`: those that were generated.
  unfoldable pub delete_generated : String → List Ingress → Exec op.World (Unit {0})
  unfolding is_auto_ingress Handler.delete
  delete_generated app_name [] = pure tt
  delete_generated app_name (ingress ∷ ingresses) =
      let rest = delete_generated app_name ingresses in
      if not (is_auto_ingress app_name ingress)
      then rest
      else Handler.delete op.ingresses ingress >> rest

  -- DeleteForSqbapplication
  unfoldable pub delete_for_sqbapplication : SqbApplication → Exec op.World (Unit {0})
  unfolding delete_generated list_into
  delete_for_sqbapplication app = do
    ingresses ← list_into op.ingresses app.namespace (labelled app) []
    delete_generated app.name ingresses

  unfoldable pub delete_found : Result Ingress → Exec op.World (Unit {0})
  unfolding Handler.delete
  delete_found (ok ingress) w = Handler.delete op.ingresses ingress w
  delete_found (err e) w = if e.is_not_found then (ok tt, w) else (err e, w)
  delete_found panic w = (panic, w)

  -- DeleteForSqbdeployment
  unfoldable pub delete_for_sqbdeployment : SqbDeployment → Exec op.World (Unit {0})
  unfolding public_name delete_found
  delete_for_sqbdeployment d w =
      delete_found
        (op.ingresses.get d.namespace (public_name op.config d (index d.labels app_key)) w) w

  -- func (h *ingressHandler) Handle, for an application and for a deployment
  unfoldable pub handle_sqbapplication : SqbApplication → Exec op.World (Unit {0})
  unfolding create_or_update_for_sqbapplication delete_for_sqbapplication Handler.deleted
      is_ingress_open
  handle_sqbapplication app =
      if Handler.deleted op.sums app.metadata || no_items app.spec.domains
      then delete_for_sqbapplication app
      else if not (is_ingress_open op.config app)
      then delete_for_sqbapplication app
      else create_or_update_for_sqbapplication app

  unfoldable pub handle_sqbdeployment : SqbDeployment → Exec op.World (Unit {0})
  unfolding create_or_update_for_sqbdeployment delete_for_sqbdeployment Handler.deleted
  handle_sqbdeployment d =
      if Handler.deleted op.sums d.metadata
      then delete_for_sqbdeployment d
      else if not (index d.annotations public_entry_annotation_key == "true")
      then delete_for_sqbdeployment d
      else create_or_update_for_sqbdeployment d

-- ===== src/Controllers.antt =====
-- controllers: which events reach the reconcilers, and the reconciler of the config map. The other
-- reconcilers hand their requests to `handle_reconcile`.
pub mod Laws
pub mod Requests
pub mod Outcomes
use elastic_env_operator.Base.{
  String, Bool, true, false, not, ◌&&◌, ◌==◌, nat_eq, Option, none, some, List, [], ◌∷◌, Map, nil,
  made, Entries, lookup, is_empty, Result, ok, err, panic, if◌then◌else◌,
}
use elastic_env_operator.Api.Meta.{ObjectMeta, is_zero}
use elastic_env_operator.Entity.ConfigMap.{Json, SqbConfigMapEntity, from_map}
use elastic_env_operator.Handler.Reconcile.{Outcome, done, failed, panicked}

same_value : Option String → Option String → Bool
same_value none none = true
same_value (some a) (some b) = a == b
same_value _ _ = false

-- The keys of the first entries have one value in both maps.
agree_at : Entries String → Entries String → Entries String → Bool
unfolding same_value
agree_at [] a b = true
agree_at ((k, v) ∷ keys) a b = same_value (lookup k a) (lookup k b) && agree_at keys a b

-- reflect.DeepEqual of maps of strings: nil is equal to nil alone
unfoldable pub deep_equal : Map String → Map String → Bool
unfolding agree_at
deep_equal nil nil = true
deep_equal (made a) (made b) = agree_at a a b && agree_at b a b
deep_equal _ _ = false

-- GenerationAnnotationPredicate.UpdateFunc: the old and the new object of the event
unfoldable pub generation_annotation_update : Option ObjectMeta → Option ObjectMeta → Bool
unfolding deep_equal
generation_annotation_update (some old) (some new) =
    if nat_eq new.generation old.generation && deep_equal old.annotations new.annotations
    then false
    else true
generation_annotation_update _ _ = false

-- The predicates of the deployment reconciler: of an update the new object, of a generic event the
-- object; a deletion is never passed on.
unfoldable pub deployment_update : ObjectMeta → Bool
deployment_update new = if not (is_zero new.deletion_timestamp) then true else false

unfoldable pub deployment_generic : ObjectMeta → Bool
deployment_generic object = if not (is_zero object.deletion_timestamp) then true else false

abbrev pub deployment_delete : ObjectMeta → Bool
deployment_delete object = false

-- The predicate of the config map's reconciler, where CONFIGMAP_NAMESPACE holds `variable`
unfoldable pub config_map_event : String → ObjectMeta → Bool
config_map_event variable object =
    let namespace = if is_empty variable then "elastic-env-operator-system" else variable in
    object.namespace == namespace && object.name == "operator-configmap"

-- func (r *ConfigMapReconciler) Reconcile: what the read gave is the data of the config map
unfoldable pub reconcile_config_map :
    Json → Result (Map String) → SqbConfigMapEntity → Outcome × SqbConfigMapEntity
unfolding from_map
reconcile_config_map json (ok m) sc = (done, from_map json m sc)
reconcile_config_map json (err e) sc = (if e.is_not_found then done else failed e, sc)
reconcile_config_map json panic sc = (panicked, sc)

-- ===== src/Entity/ConfigMap/Laws.antt =====
-- What holds of the configuration after every load, and how loads depend on one another.
use mathlib.Core.Option
use elastic_env_operator.Base.{
  ap, text_or_empty, ◌≡◌, refl, String, Bool-cases, inl, inr, false, ◌&&◌, [], ◌∷◌, Map, get?,
  arith, no_items, is_empty, index, lookup, entries, Entries, replace_all,
}
use elastic_env_operator.Entity.ConfigMap.{
  Json, ConfigMapData, SqbConfigMapEntity, load_data, or_base, get_domain_name_by_class,
  replace_values,
}

pub record IsWellFormed (d : ConfigMapData) : Type 0 where
  pub one_monitor : (d.service_monitor_enable && d.victoria_metrics_enable) ≡ false
  pub some_gateway : no_items d.istio_gateways ≡ false
  pub named_base : is_empty d.base_flag ≡ false

is_empty-or_base : (flag : String) → is_empty (or_base flag) ≡ false
unfolding or_base
is_empty-or_base flag = elim (Bool-cases (is_empty flag)) [ inl e ↦ rw e | inr e ↦ rw e e ]

-- Whatever the config map holds, a load leaves at most one of the two monitoring systems on, at
-- least one gateway and a base flag that is not empty.
pub load_data-IsWellFormed :
    (json : Json) (m : Map String) (old : ConfigMapData) → IsWellFormed (load_data json m old)
unfolding load_data
load_data-IsWellFormed json m old = record {
  one_monitor = ground arith;
  some_gateway = ground arith;
  named_base = is_empty-or_base (index m "baseFlag");
}

-- A load of the same texts again changes nothing of the configuration.
pub load_data_idem :
    (json : Json) (m : Map String) (old : ConfigMapData)
    → load_data json m (load_data json m old) ≡ load_data json m old
unfolding load_data
load_data_idem json m old = ground arith

-- A load depends on the loads before it at most by the domain postfixes and the gateways.
pub load_data_history :
    (json : Json) (m : Map String) (old old' : ConfigMapData)
    → old.domain_postfix ≡ old'.domain_postfix
    → old.istio_gateways ≡ old'.istio_gateways
    → load_data json m old ≡ load_data json m old'
unfolding load_data
load_data_history json m old old' p q = ground arith

lookup-replace_values :
    (prefix class : String) (m : Entries String)
    → lookup class (replace_values prefix m)
      ≡ Option.map (λ v. replace_all v b'*' prefix) (lookup class m)
unfolding lookup replace_values
lookup-replace_values prefix class [] = refl
lookup-replace_values prefix class ((k, v) ∷ m) =
    ground (arith, lookup-replace_values prefix class m)

-- The default host of a class is its postfix with every `*` replaced by the prefix, and the empty
-- text for a class that has no postfix.
pub get_domain_name_by_class_lem :
    (sc : SqbConfigMapEntity) (prefix class : String)
    → get_domain_name_by_class sc prefix class
      ≡ text_or_empty
          (Option.map (λ v. replace_all v b'*' prefix) (get? sc.config.domain_postfix class))
unfolding get_domain_name_by_class
get_domain_name_by_class_lem sc prefix class =
    ap text_or_empty (lookup-replace_values prefix class (entries sc.config.domain_postfix))

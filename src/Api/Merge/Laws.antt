-- ===== src/Api/Merge/Laws.antt =====
-- What merging a newer resource into an older one keeps and replaces.
use elastic_env_operator.Base.{
  Option, List, ◌∷◌, no_items, is_empty, if◌then◌else◌, Bool-cases, inl, inr, String, ◌≡◌, refl,
  Map, get?, lookup, first_of_two, lookup-set_all, [], none, some, entries, arith, set_all,
}
use elastic_env_operator.Api.Types.{DeploySpec}
use elastic_env_operator.Api.Merge.{if_set, merge_string_map, merge_deploy_spec}

-- A label or an annotation of the merged resource is the newer resource's if that has it, and the
-- older one's otherwise.
pub get-merge_string_map :
    (base to_merge : Map String) (k : String)
    → get? (merge_string_map base to_merge) k ≡ first_of_two (get? to_merge k) (get? base k)
unfolding merge_string_map lookup
get-merge_string_map base to_merge k = ground (
  arith,
  lookup-set_all k (set_all [] (entries base)) (entries to_merge),
  lookup-set_all k [] (entries base),
)

module _ {ℓ} {A : Type ℓ} where
  if_set_assoc : (a b c : Option A) → if_set c (if_set b a) ≡ if_set (if_set c b) a
  if_set_assoc a b none = refl
  if_set_assoc a b (some c) = refl

  unless_no_items_assoc :
      (a b c : List A)
      → (if no_items c then if no_items b then a else b else c)
        ≡ (if no_items (if no_items c then b else c) then a else if no_items c then b else c)
  unless_no_items_assoc a b [] = refl
  unless_no_items_assoc a b (x ∷ c) = refl

unless_empty_assoc :
    (a b c : String)
    → (if is_empty c then if is_empty b then a else b else c)
      ≡ (if is_empty (if is_empty c then b else c) then a else if is_empty c then b else c)
unless_empty_assoc a b c = elim (Bool-cases (is_empty c)) [ inl e ↦ rw e | inr e ↦ rw (e, e) ]

-- Merging deploy specifications is associative: several may be merged in any grouping.
pub merge_deploy_spec_assoc :
    (a b c : DeploySpec)
    → merge_deploy_spec (merge_deploy_spec a b) c ≡ merge_deploy_spec a (merge_deploy_spec b c)
unfolding merge_deploy_spec
merge_deploy_spec_assoc a b c = λ i. record {
  replicas = if_set_assoc a.replicas b.replicas c.replicas i;
  image = unless_empty_assoc a.image b.image c.image i;
  command = unless_no_items_assoc a.command b.command c.command i;
  args = unless_no_items_assoc a.args b.args c.args i;
  host_alias = unless_no_items_assoc a.host_alias b.host_alias c.host_alias i;
  resources = if_set_assoc a.resources b.resources c.resources i;
  env = unless_no_items_assoc a.env b.env c.env i;
  health_check = c.health_check;
  volumes = unless_no_items_assoc a.volumes b.volumes c.volumes i;
  node_affinity = if_set_assoc a.node_affinity b.node_affinity c.node_affinity i;
  lifecycle = c.lifecycle;
}

-- Merging the same specification again changes nothing.
pub merge_deploy_spec_idem :
    (a b : DeploySpec) → merge_deploy_spec (merge_deploy_spec a b) b ≡ merge_deploy_spec a b
unfolding merge_deploy_spec
merge_deploy_spec_idem a b = ground arith

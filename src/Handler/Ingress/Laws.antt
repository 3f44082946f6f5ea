-- ===== src/Handler/Ingress/Laws.antt =====
-- Which ingresses are taken for generated ones, and which are deleted.
use elastic_env_operator.Base.{
  sym, continue_keeps, String, ◌≡◌, ◌∙◌, ap, Bool-cases, inl, inr, true, false, not, ◌&&◌, eq_iff,
  some, List, [], ◌∷◌, get?, index, text_or_empty, lookup, first_of_two, is_empty, arith,
}
use elastic_env_operator.Api.Types.{Domain, SqbApplication}
use elastic_env_operator.Entity.Keys.{ingress_class_annotation_key}
use elastic_env_operator.Entity.ConfigMap.{SqbConfigMapEntity}
use elastic_env_operator.Util.{contain_string}
use elastic_env_operator.Util.Laws.{get-merge_string_map}
use elastic_env_operator.Kinds.Core.{Ingress, ingress_obj}
use elastic_env_operator.Operator.{Operator}
use elastic_env_operator.Handler
use elastic_env_operator.Handler.Ingress.{
  desired, domain_name, domain_annotations, merged_annotations, is_auto_ingress, delete_others,
}

lookup-merged_annotations :
    (class : String) → get? (merged_annotations class) ingress_class_annotation_key ≡ some class
unfolding lookup
lookup-merged_annotations class = ground arith

class-desired :
    (sc : SqbConfigMapEntity) (app : SqbApplication) (domain : Domain) (i : Ingress)
    → index (desired sc app domain i).metadata.annotations ingress_class_annotation_key
      ≡ domain.class
unfolding desired
class-desired sc app domain i = ap text_or_empty (
    get-merge_string_map (domain_annotations domain i.metadata.annotations)
      (merged_annotations domain.class) ingress_class_annotation_key
    ∙ ap
        (λ o.
          first_of_two o
            (get? (domain_annotations domain i.metadata.annotations) ingress_class_annotation_key))
        (lookup-merged_annotations domain.class))

-- What is written for a domain with a class, in the ingress of the name for that domain, is taken
-- for a generated ingress later.
pub is_auto_ingress-desired :
    (sc : SqbConfigMapEntity) (app : SqbApplication) (domain : Domain) (i : Ingress)
    → is_empty domain.class ≡ false
    → i.metadata.name ≡ domain_name app domain
    → is_auto_ingress app.name (desired sc app domain i) ≡ true
unfolding is_auto_ingress domain_name
is_auto_ingress-desired sc app domain i h n = rw (class-desired sc app domain i) (
    rw h (
      unfold desired in
      ground (arith, (eq_iff (domain_name app domain) i.metadata.name).1 (sym n))))

module _ (op : Operator) (app_name : String) where
  -- A property of the cluster survives the deletion of the ingresses of an application if it
  -- survives the deletion of each generated ingress that is not kept: no other ingress is deleted.
  pub delete_others_spares :
      (P : op.World → Type 0) (kept : List String)
      → ((i : Ingress) (w : op.World)
          → is_auto_ingress app_name i ≡ true
          → contain_string kept i.metadata.name ≡ false
          → P w
          → P (Handler.delete op.ingresses i w).1)
      → (ingresses : List Ingress) (w : op.World) → P w
      → P (delete_others op app_name kept ingresses w).1
  unfolding delete_others
  delete_others_spares P kept step [] w h = h
  delete_others_spares P kept step (i ∷ is) w h =
      elim (Bool-cases (is_auto_ingress app_name i && not (contain_string kept i.metadata.name))) [
        | inl e ↦ rw e (
            continue_keeps P (Handler.delete op.ingresses i w).0
              (λ _. delete_others op app_name kept is) (Handler.delete op.ingresses i w).1
              (step i w (ground arith) (ground arith) h)
              (λ _ w' h'. delete_others_spares P kept step is w' h'))
        | inr e ↦ rw e (delete_others_spares P kept step is w h)
      ]

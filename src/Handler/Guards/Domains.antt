-- ===== src/Handler/Guards/Domains.antt =====
-- Which ingresses of an application go when it is reconciled.
use elastic_env_operator.Base.{String, ◌≡◌, refl, true, false, List, [], ◌∷◌, ◌++◌, map, arith}
use elastic_env_operator.Api.Types.{SqbApplication, sqb_application_obj, sqb_deployment_obj}
use elastic_env_operator.Util.{contain_string}
use elastic_env_operator.Kinds.Core.{Ingress, ingress_obj}
use elastic_env_operator.Operator.{Operator}
use elastic_env_operator.Handler
use elastic_env_operator.Handler.Ingress
use elastic_env_operator.Handler.Ingress.{
  is_auto_ingress, domain_name, public_names, labelled, delete_others,
}
use elastic_env_operator.Handler.Ingress.Laws.{delete_others_spares}
use elastic_env_operator.Handler.Guards.{KeepsAllWrites}
use elastic_env_operator.Handler.Guards.Ingresses.{update-Keeps}

contain_string-append :
    (first second : List String) (item : String)
    → contain_string (first ++ second) item ≡ false
    → contain_string first item ≡ false
unfolding contain_string
contain_string-append [] second item h = refl
contain_string-append (x ∷ first) second item h =
    ground (arith, contain_string-append first second item)

module _ (op : Operator) (P : op.World → Type 0) (writes : KeepsAllWrites op P) where
  abbrev domain_names : SqbApplication → List String
  domain_names app = map (domain_name app) app.spec.domains

  -- The update of the ingresses of an application deletes only generated ingresses that have the
  -- name of none of its domains: each property of the cluster survives that all writes and these
  -- deletions keep.
  pub update_spares_domains :
      (app : SqbApplication)
      → ((i : Ingress) (w : op.World)
          → is_auto_ingress app.name i ≡ true
          → contain_string (map (domain_name app) app.spec.domains) i.metadata.name ≡ false
          → P w
          → P (Handler.delete op.ingresses i w).1)
      → (w : op.World) → P w
      → P (Ingress.create_or_update_for_sqbapplication op app w).1
  update_spares_domains app step = update-Keeps op P writes.ingresses app (λ ingresses deployments.
      delete_others_spares op app.name P
        (domain_names app ++ public_names op.config app.name deployments)
        (λ i w auto apart. step i w auto (
          contain_string-append (domain_names app) (public_names op.config app.name deployments)
            i.metadata.name apart))
        ingresses)

-- ===== src/Handler/Serving/Sparing.antt =====
-- The handler of the ingresses of an application: it writes the domains and deletes the rest.
use elastic_env_operator.Base.{
  inr, inl, Bool-cases, String, ◌≡◌, ap, true, false, List, [], ◌∷◌, ◌++◌, map, All, no_items, Exec,
  Keeps, Keeps-bind, EndsIn, EndsIn-bind, EndsIn-kept, ◌>>=◌, arith, eq_refl,
}
use elastic_env_operator.Api.Types.{
  Domain, SqbApplication, SqbDeployment, sqb_application_obj, sqb_deployment_obj,
}
use elastic_env_operator.Util.{contain_string}
use elastic_env_operator.Kinds.Core.{Ingress, ingress_obj}
use elastic_env_operator.Cluster.{list_into}
use elastic_env_operator.Cluster.Stores.{Stores, NoneOfKubevela}
use elastic_env_operator.Operator.{Operator}
use elastic_env_operator.Handler.{deleted}
use elastic_env_operator.Handler.Writing.{delete_other}
use elastic_env_operator.Handler.Settings.{is_ingress_open}
use elastic_env_operator.Handler.Ingress
use elastic_env_operator.Handler.Ingress.{
  domain_name, write_domains, delete_others, labelled, public_names,
}
use elastic_env_operator.Handler.Ingress.Laws.{delete_others_spares}
use elastic_env_operator.Handler.Serving.{IsDirect, rules_of, rules_for, IsServed, IsUnambiguous}
use elastic_env_operator.Handler.Serving.Domains.{loop_serves}

-- The names that are kept are those of the domains.
abbrev AreKept : SqbApplication → List String → List Domain → Type 0
AreKept app kept domains =
    All (λ domain. contain_string kept (domain_name app domain) ≡ true) domains

AreKept-more :
    (app : SqbApplication) (name : String) (kept : List String) (domains : List Domain)
    → AreKept app kept domains
    → AreKept app (name ∷ kept) domains
unfolding contain_string
AreKept-more app name kept [] h = tt
AreKept-more app name kept (d ∷ ds) h = (ground (arith, h.0), AreKept-more app name kept ds h.1)

domains-AreKept :
    (app : SqbApplication) (domains : List Domain) (rest : List String)
    → AreKept app (map (domain_name app) domains ++ rest) domains
unfolding contain_string
domains-AreKept app [] rest = tt
domains-AreKept app (d ∷ ds) rest = (
  ground (arith, eq_refl (domain_name app d)),
  AreKept-more app (domain_name app d) (map (domain_name app) ds ++ rest) ds
      (domains-AreKept app ds rest),
)

trivial_of_none : {A : Type 0} (Q : A → Type 0) (xs : List A) → no_items xs ≡ true → All Q xs
trivial_of_none Q [] e = tt
trivial_of_none Q (x ∷ xs) e = absurd (cc e)

module _ (op : Operator) (stores : Stores rules_of op.ingresses) (app : SqbApplication) where
  spares_one :
      (domain : Domain) (kept : List String) (ingresses : List Ingress)
      → contain_string kept (domain_name app domain) ≡ true
      → Keeps (λ w. IsServed op app w domain) (delete_others op app.name kept ingresses)
  spares_one domain kept ingresses is_kept =
      delete_others_spares op app.name (λ w. IsServed op app w domain) kept
        (λ i w auto apart h.
          delete_other rules_of op.ingresses stores i app.namespace (domain_name app domain)
            (rules_for op app domain) w (λ same. cc (ap (contain_string kept) same, apart, is_kept))
            h)
        ingresses

  spares_each :
      (domains : List Domain) (kept : List String) (ingresses : List Ingress)
      → AreKept app kept domains
      → Keeps (λ w. All (IsServed op app w) domains) (delete_others op app.name kept ingresses)
  spares_each [] kept ingresses are_kept w h = tt
  spares_each (d ∷ ds) kept ingresses are_kept w h =
      (spares_one d kept ingresses are_kept.0 w h.0, spares_each ds kept ingresses are_kept.1 w h.1)

  module _ (own : NoneOfKubevela op.ingresses) where
    update_serves :
        (w : op.World)
        → IsDirect op app
        → IsUnambiguous app app.spec.domains
        → EndsIn
            (λ w'. All (IsServed op app w') app.spec.domains)
            (Ingress.create_or_update_for_sqbapplication op app)
            w
    unfolding Ingress.create_or_update_for_sqbapplication list_into
    update_serves w direct clear =
        let There : op.World → Type 0 = λ w'. All (IsServed op app w') app.spec.domains in
        let clean : List Ingress → List SqbDeployment → Exec op.World (Unit {0}) =
          λ ingresses deployments.
            delete_others op app.name
              (map (domain_name app) app.spec.domains
                ++ public_names op.config app.name deployments)
              ingresses in
        let list : List Ingress → Exec op.World (Unit {0}) = λ ingresses.
          list_into op.sqb_deployments app.namespace (labelled op app) [] >>= clean ingresses in
        let rest = list_into op.ingresses app.namespace (labelled op app) [] >>= list in
        EndsIn-bind There (write_domains op app app.spec.domains) (λ _. rest) w
          (λ u e.
            EndsIn-kept There rest _
              (Keeps-bind There (list_into op.ingresses app.namespace (labelled op app) []) list
                (λ w h. h)
                (λ ingresses.
                  Keeps-bind There (list_into op.sqb_deployments app.namespace (labelled op app) [])
                    (clean ingresses) (λ w h. h)
                    (λ deployments. spares_each app.spec.domains _ ingresses (
                      domains-AreKept app app.spec.domains
                        (public_names op.config app.name deployments)))))
              (loop_serves op stores own app direct app.spec.domains w clear u e))

    -- The handler, for an application that does not count as deleted, with open ingresses.
    pub handle_serves :
        (w : op.World)
        → deleted op.sums app.metadata ≡ false
        → is_ingress_open op.config app ≡ true
        → IsDirect op app
        → IsUnambiguous app app.spec.domains
        → EndsIn
            (λ w'. All (IsServed op app w') app.spec.domains)
            (Ingress.handle_sqbapplication op app)
            w
    unfolding Ingress.handle_sqbapplication
    handle_serves w live opened direct clear = elim (Bool-cases (no_items app.spec.domains)) [
      | inl e ↦ λ u e'. trivial_of_none _ app.spec.domains e
      | inr e ↦ rw live (rw e (rw opened (update_serves w direct clear)))
    ]

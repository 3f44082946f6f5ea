-- ===== src/Handler/Serving/Domains.antt =====
-- The loop over the domains leaves an ingress for each of them, which the deletions spare.
use mathlib.Core.Path.{subst}
use elastic_env_operator.Base.{
  String, ◌≡◌, refl, sym, ap, ◌∙◌, false, List, [], ◌∷◌, All, made, index, has, lookup, Bool-cases,
  inl, inr, ◌==◌, eq_iff, ok, EndsIn, EndsIn-bind, EndsIn-kept, ◌>>◌,
}
use elastic_env_operator.Api.Types.{Domain, SqbApplication}
use elastic_env_operator.Entity.Keys.{app_key, group_key, kubevela_app_name_label}
use elastic_env_operator.Util.Laws.{has-merge_string_map}
use elastic_env_operator.Kinds.Core.{
  HttpIngressPath, Ingress, IngressRule, ingress_obj, new_ingress,
}
use elastic_env_operator.Cluster.{get_or_new, unless_missing}
use elastic_env_operator.Cluster.Stores.{Holds, Stores, NoneOfKubevela, unless_missing_lem}
use elastic_env_operator.Operator.{Operator}
use elastic_env_operator.Handler
use elastic_env_operator.Handler.Writing.{create_or_update-Holds, create_or_update_other}
use elastic_env_operator.Handler.Ingress.{domain_name, desired, write_domains}
use elastic_env_operator.Handler.Serving.{
  paths_to, paths_of-direct, IsDirect, rules_of, rules_for, IsServed, Agree, IsUnambiguous,
}

abbrev rules_of_host : String → List HttpIngressPath → List IngressRule
rules_of_host host paths = record { host = host; paths = paths } ∷ []

module _ (op : Operator) (stores : Stores rules_of op.ingresses) (own : NoneOfKubevela op.ingresses)
    (app : SqbApplication) (direct : IsDirect op app) where
  -- The ingress of a domain as it was found, or a new one.
  record IsFor (domain : Domain) (ingress : Ingress) : Type 0 where
    namespaced : ingress.metadata.namespace ≡ app.namespace
    named : ingress.metadata.name ≡ domain_name app domain
    unowned : has ingress.metadata.labels kubevela_app_name_label ≡ false

  found-IsFor :
      (domain : Domain) (w : op.World) (ingress : Ingress)
      → unless_missing
          (op.ingresses.get app.namespace (domain_name app domain) w)
          (new_ingress app.namespace (domain_name app domain))
        ≡ ok ingress
      → IsFor domain ingress
  unfolding lookup
  found-IsFor domain w =
      unless_missing_lem (IsFor domain) (op.ingresses.get app.namespace (domain_name app domain) w)
        (new_ingress app.namespace (domain_name app domain))
        (λ ingress e. record {
          namespaced = (stores.named app.namespace (domain_name app domain) ingress w e).0;
          named = (stores.named app.namespace (domain_name app domain) ingress w e).1;
          unowned = own app.namespace (domain_name app domain) ingress w e;
        })
        (record { namespaced = refl; named = refl; unowned = refl })

  desired_unowned :
      (domain : Domain) (ingress : Ingress)
      → IsFor domain ingress
      → has (desired op.config app domain ingress).metadata.labels kubevela_app_name_label ≡ false
  unfolding desired lookup
  desired_unowned domain ingress is =
      has-merge_string_map ingress.metadata.labels
        (made ((app_key, app.name) ∷ (group_key, index app.labels group_key) ∷ []))
        kubevela_app_name_label is.unowned refl

  -- The write of a domain, and what it leaves of another.
  write_one :
      (domain : Domain) (ingress : Ingress) (w : op.World)
      → IsFor domain ingress
      → EndsIn
          (λ w'. IsServed op app w' domain)
          (Handler.create_or_update op.ingresses (desired op.config app domain ingress))
          w
  unfolding desired
  write_one domain ingress w is =
      let act = Handler.create_or_update op.ingresses (desired op.config app domain ingress) in
      let At : String → String → Type 0 = λ namespace name.
        EndsIn (Holds rules_of op.ingresses namespace name (rules_for op app domain)) act w in
      subst (λ name. At app.namespace name) is.named
        (subst (λ namespace. At namespace ingress.metadata.name) is.namespaced
          (subst
            (λ paths.
              EndsIn
                (Holds rules_of op.ingresses ingress.metadata.namespace ingress.metadata.name
                  (rules_of_host domain.host paths))
                act w)
            (paths_of-direct op app direct)
            (create_or_update-Holds rules_of op.ingresses stores
              (desired op.config app domain ingress) w (desired_unowned domain ingress is))))

  write_beside :
      (domain other : Domain) (ingress : Ingress) (w : op.World)
      → IsFor other ingress
      → Agree app domain other
      → IsServed op app w domain
      → EndsIn
          (λ w'. IsServed op app w' domain)
          (Handler.create_or_update op.ingresses (desired op.config app other ingress))
          w
  unfolding desired
  write_beside domain other ingress w is agree served =
      let act = Handler.create_or_update op.ingresses (desired op.config app other ingress) in
      let Ends : String → List IngressRule → Type 0 =
        λ name rules. EndsIn (Holds rules_of op.ingresses app.namespace name rules) act w in
      elim (Bool-cases (domain_name app other == domain_name app domain)) [
        | inl same ↦
            let name : domain_name app other ≡ domain_name app domain = (eq_iff _ _).0 same in
            let rules : rules_for op app other ≡ rules_for op app domain =
              ap (λ host. rules_of_host host (paths_to app.name app.spec.ports app.spec.subpaths))
                (agree name) in
            subst (λ n. Ends n (rules_for op app domain)) name
              (subst (λ v. Ends (domain_name app other) v) rules (write_one other ingress w is))
        | inr apart ↦
            EndsIn-kept (λ w'. IsServed op app w' domain) act w
              (create_or_update_other rules_of op.ingresses stores
                (desired op.config app other ingress) app.namespace (domain_name app domain)
                (rules_for op app domain)
                (λ e. cc (
                  apart,
                  (eq_iff (domain_name app other) (domain_name app domain)).1 (sym is.named ∙ e),
                )))
              served
      ]

  -- The rest of the loop leaves a domain that is served.
  rest_serves :
      (domain : Domain) (others : List Domain) (w : op.World)
      → All (Agree app domain) others
      → IsServed op app w domain
      → EndsIn (λ w'. IsServed op app w' domain) (write_domains op app others) w
  unfolding write_domains get_or_new
  rest_serves domain [] w agree served = λ u e. served
  rest_serves domain (other ∷ others) w agree served =
      let There : op.World → Type 0 = λ w'. IsServed op app w' domain in
      let name = domain_name app other in
      EndsIn-bind There
        (get_or_new op.ingresses app.namespace name (new_ingress app.namespace name))
        (λ ingress.
          Handler.create_or_update op.ingresses (desired op.config app other ingress)
          >> write_domains op app others)
        w
        (λ ingress e.
          EndsIn-bind There
            (Handler.create_or_update op.ingresses (desired op.config app other ingress))
            (λ _. write_domains op app others) w
            (λ answer e'. rest_serves domain others _ agree.1 (
              write_beside domain other ingress w (found-IsFor other w ingress e) agree.0 served
                answer e')))

  -- The whole loop.
  pub loop_serves :
      (domains : List Domain) (w : op.World)
      → IsUnambiguous app domains
      → EndsIn (λ w'. All (IsServed op app w') domains) (write_domains op app domains) w
  unfolding write_domains get_or_new
  loop_serves [] w clear = λ u e. tt
  loop_serves (domain ∷ domains) w clear =
      let There : op.World → Type 0 = λ w'. All (IsServed op app w') (domain ∷ domains) in
      let name = domain_name app domain in
      EndsIn-bind There
        (get_or_new op.ingresses app.namespace name (new_ingress app.namespace name))
        (λ ingress.
          Handler.create_or_update op.ingresses (desired op.config app domain ingress)
          >> write_domains op app domains)
        w
        (λ ingress e.
          EndsIn-bind There
            (Handler.create_or_update op.ingresses (desired op.config app domain ingress))
            (λ _. write_domains op app domains) w
            (λ answer e' u e''. (
              rest_serves domain domains _ clear.0
                  (write_one domain ingress w (found-IsFor domain w ingress e) answer e') u e'',
              loop_serves domains _ clear.1 u e'',
            )))

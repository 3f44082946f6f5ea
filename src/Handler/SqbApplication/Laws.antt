-- ===== src/Handler/SqbApplication/Laws.antt =====
-- The default hosts of an application, and what its reconciler does with a wrongly marked one.
use elastic_env_operator.Base.{
  ◌≡◌, refl, ap, String, List, [], ◌∷◌, map, is_empty, Bool-cases, inl, inr, Error, err,
}
use elastic_env_operator.Api.Types.{Domain, SqbApplication, sqb_application_obj}
use elastic_env_operator.Entity.ConfigMap.{SqbConfigMapEntity, get_domain_name_by_class}
use elastic_env_operator.Operator.{Operator}
use elastic_env_operator.Handler.{is_deleted}
use elastic_env_operator.Handler.SqbApplication.{
  default_host, with_default_hosts, with_domains, operate,
}

default_host_idem :
    (sc : SqbConfigMapEntity) (name : String) (d : Domain)
    → default_host sc name (default_host sc name d) ≡ default_host sc name d
unfolding default_host
default_host_idem sc name d = elim (Bool-cases (is_empty d.host)) [
  | inr e ↦ rw (e, e) refl
  | inl e ↦ rw e (elim (Bool-cases (is_empty (get_domain_name_by_class sc name d.class))) [
    | inr f ↦ rw f refl
    | inl f ↦ rw f refl
  ])
]

default_hosts_idem :
    (sc : SqbConfigMapEntity) (name : String) (ds : List Domain)
    → map (default_host sc name) (map (default_host sc name) ds) ≡ map (default_host sc name) ds
default_hosts_idem sc name [] = refl
default_hosts_idem sc name (d ∷ ds) =
    rw (default_host_idem sc name d)
      (ap (λ r. default_host sc name d ∷ r) (default_hosts_idem sc name ds))

-- Filling in the default hosts of an application again changes nothing.
pub with_default_hosts_idem :
    (sc : SqbConfigMapEntity) (app : SqbApplication)
    → with_default_hosts sc (with_default_hosts sc app) ≡ with_default_hosts sc app
unfolding with_default_hosts
with_default_hosts_idem sc app =
    ap (λ ds. with_domains app ds) (default_hosts_idem sc app.name app.spec.domains)

-- An application with a wrong checksum is refused before its hosts are filled in and before any
-- handler runs.
pub application_wrong_sum :
    (op : Operator) (app : SqbApplication) (w : op.World) (e : Error)
    → is_deleted op.sums app.metadata ≡ err e
    → operate op (app, w) ≡ (err e, (app, w))
unfolding operate
application_wrong_sum op app w e h = rw h refl

-- ===== src/Tests/Guarding.antt =====
-- Whole reconciliations in a cluster that counts the deletions of the kinds that must stay.
use elastic_env_operator.Base.{
  made, ℕ, suc, ◌≡◌, refl, ok, err, panic, lookup, Result, Bool, false, ap, sym, ◌∙◌, [], ◌∷◌, ◌⊎◌,
}
use elastic_env_operator.Api.Meta.{named}
use elastic_env_operator.Api.Types.{
  SqbApplication, SqbDeployment, SqbPlane, sqb_application_obj, sqb_deployment_obj, sqb_plane_obj,
}
use elastic_env_operator.Kinds.Workload.{Deployment, deployment_obj}
use elastic_env_operator.Cluster.{Resource}
use elastic_env_operator.Operator.{Operator}
use elastic_env_operator.Handler.{is_deleted}
use elastic_env_operator.Handler.Reconcile.{handle_reconcile}
use elastic_env_operator.Handler.SqbDeployment
use elastic_env_operator.Handler.SqbApplication
use elastic_env_operator.Handler.SqbPlane.{new_plane}
use elastic_env_operator.Handler.Guards.{KeepsWrites, KeepsAllWrites}
use elastic_env_operator.Handler.Guards.Marks.{AnswersMark}
use elastic_env_operator.Handler.Guards.Requests.{
  request_deletes_at_most, application_request_deletes_at_most,
}
use elastic_env_operator.Handler.Guards.LastDeletion.{
  KeepsOwnedDeletes, EndsByDeletion, operate_deletes_last,
}
use elastic_env_operator.Entity.Keys.{explicit_delete_annotation_key}
use elastic_env_operator.Util.{get_delete_check_sum}
use elastic_env_operator.Tests.Fixtures.{
  meta_with, missing, packages, sums, config, shop, shop_base, plain_pods,
}

-- One object answers every read.
abbrev counting : {O : Type 0} → Result O → Resource ℕ O
counting there = record {
  get = λ namespace name count. there;
  list = λ namespace labels count. err missing;
  create = λ o count. (ok o, count);
  update = λ o count. (ok o, count);
  update_status = λ o count. (ok o, count);
  delete = λ o count. (ok tt, suc count);
}

-- Deletions are not counted.
abbrev free : {O : Type 0} → Resource ℕ O
free = record {
  get = λ namespace name count. err missing;
  list = λ namespace labels count. err missing;
  create = λ o count. (ok o, count);
  update = λ o count. (ok o, count);
  update_status = λ o count. (ok o, count);
  delete = λ o count. (ok tt, count);
}

abbrev live_plane : SqbPlane
live_plane = record new_plane { metadata = named "sqb" "dev" }

abbrev with_deployments : Resource ℕ Deployment → Operator
with_deployments deployments = record {
  cluster = record {
    World = ℕ;
    sqb_applications = counting (ok shop);
    sqb_deployments = counting (ok shop_base);
    sqb_planes = counting (ok live_plane);
    deployments = deployments;
    services = counting (err missing);
    ingresses = free;
    pvcs = free;
    virtual_services = free;
    destination_rules = counting (err missing);
    service_monitors = counting (err missing);
    vm_service_scrapes = free;
  };
  packages = packages;
  sums = sums;
  config = config;
}

abbrev pub guarded : Operator
guarded = with_deployments (counting (ok plain_pods))

-- Nothing that counts was deleted.
abbrev pub IsIntact : ℕ → Type 0
IsIntact count = count ≡ 0

counting-KeepsWrites : {O : Type 0} (there : Result O) → KeepsWrites IsIntact (counting there)
counting-KeepsWrites there = record {
  create = λ o count h. h;
  update = λ o count h. h;
  update_status = λ o count h. h;
}

free-KeepsWrites : {O : Type 0} → KeepsWrites IsIntact (free {O = O})
free-KeepsWrites = record {
  create = λ o count h. h;
  update = λ o count h. h;
  update_status = λ o count h. h;
}

with_deployments-writes :
    (deployments : Resource ℕ Deployment)
    → KeepsWrites IsIntact deployments
    → KeepsAllWrites (with_deployments deployments) IsIntact
with_deployments-writes deployments k = record {
  sqb_applications = counting-KeepsWrites (ok shop);
  sqb_deployments = counting-KeepsWrites (ok shop_base);
  sqb_planes = counting-KeepsWrites (ok live_plane);
  deployments = k;
  services = counting-KeepsWrites (err missing);
  ingresses = free-KeepsWrites;
  pvcs = free-KeepsWrites;
  virtual_services = free-KeepsWrites;
  vm_service_scrapes = free-KeepsWrites;
}

pub guarded_writes : KeepsAllWrites guarded IsIntact
guarded_writes =
    with_deployments-writes (counting (ok plain_pods)) (counting-KeepsWrites (ok plain_pods))

pub answers : AnswersMark guarded
answers = record { create = λ o o' count e. cc e; update = λ o o' count e. cc e }

-- What holds of the object that is there holds of the one that is read.
abbrev value : {O : Type 0} → O → Result O → O
value blank (ok o) = o
value blank (err e) = blank
value blank panic = blank

pub reading :
    {O : Type 0} {o d : O} (sum : O → Result Bool)
    → sum o ≡ ok false
    → ok o ≡ ok d
    → sum d ≡ ok false
reading {o} sum h e = ap (λ r. sum (value o r)) (sym e) ∙ h

pub base_is_live : is_deleted sums shop_base.metadata ≡ ok false
unfolding is_deleted lookup
base_is_live = refl

shop_is_live : is_deleted sums shop.metadata ≡ ok false
unfolding is_deleted lookup
shop_is_live = refl

plane_is_live : is_deleted sums live_plane.metadata ≡ ok false
unfolding is_deleted lookup
plane_is_live = refl

request_deletes_at_most_example :
    IsIntact (handle_reconcile (SqbDeployment.reconciler guarded "sqb" "shop-base") config 0).1
request_deletes_at_most_example =
    request_deletes_at_most guarded IsIntact guarded_writes (λ o count h. h) (λ o count h. h)
      (λ o count h. h) answers config "sqb" "shop-base" 0
      (λ d e. reading (λ (o : SqbDeployment). is_deleted sums o.metadata) base_is_live e) refl

application_request_deletes_at_most_example :
    IsIntact (handle_reconcile (SqbApplication.reconciler guarded "sqb" "shop") config 0).1
application_request_deletes_at_most_example =
    application_request_deletes_at_most guarded IsIntact guarded_writes (λ o count h. h)
      (λ o count h. h) config "sqb" "shop" 0
      (λ d e. reading (λ (o : SqbApplication). is_deleted sums o.metadata) shop_is_live e) refl

-- An SQBDeployment that is deleted, in a cluster that counts the deletions of such objects only.
abbrev owning : Operator
owning = with_deployments free

abbrev marked : SqbDeployment
marked = record shop_base {
  metadata = meta_with "shop-base" (
      made (
        (explicit_delete_annotation_key, get_delete_check_sum sums.md5_hex sums.salt "shop-base")
        ∷ []));
}

owned_deletes : KeepsOwnedDeletes owning IsIntact
owned_deletes = record {
  deployments = λ o count h. h;
  ingresses = λ o count h. h;
  pvcs = λ o count h. h;
  virtual_services = λ o count h. h;
}

owning_writes : KeepsAllWrites owning IsIntact
owning_writes = with_deployments-writes free free-KeepsWrites

operate_deletes_last_example :
    IsIntact (SqbDeployment.operate owning (marked, 0)).1.1
    ⊎ EndsByDeletion owning IsIntact owning_writes owned_deletes marked 0
operate_deletes_last_example =
    operate_deletes_last owning IsIntact owning_writes owned_deletes marked 0 refl

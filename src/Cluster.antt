-- ===== src/Cluster.antt =====
-- The Kubernetes API as the operator's client offers it, for an unknown state of the cluster. Each
-- kind of object has its own `Resource`. A read shows the state and does not change it: between
-- two calls of one reconciliation nobody else writes.
pub mod Stores
pub mod Answers
use elastic_env_operator.Api.Types.{SqbApplication, SqbDeployment, SqbPlane}
use elastic_env_operator.Kinds.Core.{Service, Ingress, PersistentVolumeClaim}
use elastic_env_operator.Kinds.Istio.{VirtualService, DestinationRule}
use elastic_env_operator.Kinds.Monitoring.{ServiceMonitor, VmServiceScrape}
use elastic_env_operator.Kinds.Workload.{Deployment}
use elastic_env_operator.Base.{String, List, Map, Result, ok, err, panic, Exec, if◌then◌else◌}

pub record Resource (W O : Type 0) : Type 0 where
  -- client.Get at a namespace and a name
  pub get : String → String → W → Result O
  -- client.List in a namespace by labels
  pub list : String → Map String → W → Result (List O)
  -- client.Create, client.Update, client.Status().Update: on success the object as the server
  -- returns it
  pub create : O → Exec W O
  pub update : O → Exec W O
  pub update_status : O → Exec W O
  -- client.Delete: the object is named by its metadata
  pub delete : O → Exec W (Unit {0})

module _ {O : Type 0} where
  -- `if err != nil && !apierrors.IsNotFound(err) { return err }`, where the object that was to be
  -- filled stands for one that is not there
  abbrev pub unless_missing : Result O → O → Result O
  unless_missing (ok o) blank = ok o
  unless_missing (err e) blank = if e.is_not_found then ok blank else err e
  unless_missing panic blank = panic

  abbrev pub or_none_listed : Result (List O) → List O → Result (List O)
  or_none_listed (ok l) before = ok l
  or_none_listed (err e) before = if e.is_not_found then ok before else err e
  or_none_listed panic before = panic

module _ {W O : Type 0} where
  unfoldable pub get_or_new : Resource W O → String → String → O → Exec W O
  get_or_new r namespace name blank w = (unless_missing (r.get namespace name w) blank, w)

  unfoldable pub get : Resource W O → String → String → Exec W O
  get r namespace name w = (r.get namespace name w, w)

  -- The list before the call stays where nothing is found.
  unfoldable pub list_into : Resource W O → String → Map String → List O → Exec W (List O)
  list_into r namespace labels before w = (or_none_listed (r.list namespace labels w) before, w)

-- `k8sclient`: the resources of one cluster.
pub record Cluster : Type 1 where
  pub World : Type 0
  pub sqb_applications : Resource World SqbApplication
  pub sqb_deployments : Resource World SqbDeployment
  pub sqb_planes : Resource World SqbPlane
  pub deployments : Resource World Deployment
  pub services : Resource World Service
  pub ingresses : Resource World Ingress
  pub pvcs : Resource World PersistentVolumeClaim
  pub virtual_services : Resource World VirtualService
  pub destination_rules : Resource World DestinationRule
  pub service_monitors : Resource World ServiceMonitor
  pub vm_service_scrapes : Resource World VmServiceScrape

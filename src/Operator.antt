-- ===== src/Operator.antt =====
-- What the handlers are given: the cluster's client, the configuration as it stands during the
-- reconciliation, and the functions of other packages that they call.
use elastic_env_operator.Base.{String, List, Option, Result}
use elastic_env_operator.Api.Meta.{Time}
use elastic_env_operator.Api.Core.{Raw, IntOrString}
use elastic_env_operator.Entity.ConfigMap.{Json, SqbConfigMapEntity}
use elastic_env_operator.Kinds.Monitoring.{VmEndpoint}
use elastic_env_operator.Kinds.Workload.{DeploymentSpec}
use elastic_env_operator.Cluster.{Cluster}

-- The MD5 sum in hexadecimal digits, and the value of MD5_SALT.
pub record Checksum : Type 0 where
  pub md5_hex : String → String
  pub salt : String

-- json.Unmarshal into the endpoints of the two kinds and into a deployment's spec, mergo.Merge,
-- the texts of a time and of an integer or a string, and the finalizers of controllerutil.
pub record Packages : Type 0 where
  pub json : Json
  pub unmarshal_vm_endpoints : String → Result (List VmEndpoint)
  pub unmarshal_endpoints : String → Result (List Raw)
  pub unmarshal_deployment_spec : String → Result DeploymentSpec
  pub merge_deployment_spec : DeploymentSpec → DeploymentSpec → Result DeploymentSpec
  pub time_string : Time → String
  -- (*intstr.IntOrString).String, also of a nil pointer
  pub int_or_string_text : Option IntOrString → String
  -- controllerutil.AddFinalizer and RemoveFinalizer, on the list of finalizers
  pub add_finalizer : List String → String → List String
  pub remove_finalizer : List String → String → List String

pub record Operator : Type 1 where
  pub cluster : Cluster
  pub open cluster use *
  pub packages : Packages
  pub open packages use *
  pub sums : Checksum
  pub config : SqbConfigMapEntity

-- ===== src/Api/Core.antt =====
-- The types of k8s.io/api/core/v1 that the custom resources embed. `Raw` is a value that the
-- operator only copies, by its serialised text.
use elastic_env_operator.Base.{String, Bool, List, ℤ, Option}

abbrev pub Raw : Type 0
Raw = String

pub record IntOrString : Type 0 where
  pub is_string : Bool
  pub int_val : ℤ
  pub str_val : String

pub record ServicePort : Type 0 where
  pub name : String
  pub protocol : String
  pub port : ℤ
  pub target_port : IntOrString

pub record ResourceRequirements : Type 0 where
  pub limits : Raw
  pub requests : Raw

pub record Probe : Type 0 where
  pub handler : Raw
  pub initial_delay_seconds : ℤ
  pub timeout_seconds : ℤ
  pub period_seconds : ℤ
  pub success_threshold : ℤ
  pub failure_threshold : ℤ

pub record ExecAction : Type 0 where
  pub command : List String

pub record NodeSelectorRequirement : Type 0 where
  pub key : String
  pub operator : String
  pub values : List String

pub record CoreLifecycle : Type 0 where
  pub post_start : Option Raw
  pub pre_stop : Option Raw

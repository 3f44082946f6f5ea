-- ===== src/Clientset.antt =====
-- clientset/v1alpha1/client.go: the typed clients that other programs use, and how they are made.
pub mod Rest
pub mod Applications
pub mod Deployments
pub mod Planes
use elastic_env_operator.Base.{String, is_empty, Result, ok, err, panic, if◌then◌else◌}
use elastic_env_operator.Api.Core.{Raw}

-- The fields of rest.Config that the client sets, and the others by their text.
pub record Config : Type 0 where
  pub group_version : String
  pub api_path : String
  pub negotiated_serializer : String
  pub user_agent : String
  pub others : Raw

-- setConfigDefaults, with the codecs of the scheme and client-go's default user agent
unfoldable pub set_config_defaults : String → String → Config → Config
set_config_defaults codecs default_user_agent config = record config {
  group_version = "qa.shouqianba.com/v1alpha1";
  api_path = "/apis";
  negotiated_serializer = codecs;
  user_agent = if is_empty config.user_agent then default_user_agent else config.user_agent;
}

module _ {Client : Type 0} (rest_client_for : Config → Result Client) (codecs agent : String) where
  -- NewForConfig: the configuration is copied, so that the caller's stays as it is.
  unfoldable pub new_for_config : Config → Result Client
  unfolding set_config_defaults
  new_for_config config = rest_client_for (set_config_defaults codecs agent config)

  or_die : Result Client → Result Client
  or_die (ok client) = ok client
  or_die (err e) = panic
  or_die panic = panic

  -- NewForConfigOrDie
  unfoldable pub new_for_config_or_die : Config → Result Client
  unfolding new_for_config or_die
  new_for_config_or_die config = or_die (new_for_config config)

-- ===== src/Handler/Serving/Applications.antt =====
-- The operation on an application: what its service and its ingresses are when it ends well.
use elastic_env_operator.Handler.{String, RuntimeObj}
use elastic_env_operator.Base.{All}
use elastic_env_operator.Api.Types.{sqb_application_obj, Domain, SqbApplication}
use elastic_env_operator.Kinds.Core.{service_obj, ingress_obj}
use elastic_env_operator.Operator.{Operator}
use elastic_env_operator.Handler.Serving.{Domain, SqbApplication, IsServed}
use elastic_env_operator.Handler
use elastic_env_operator.Handler.Service
use elastic_env_operator.Handler.Ingress
use elastic_env_operator.Handler.SqbDeploymentList
use elastic_env_operator.Handler.Monitoring
use elastic_env_operator.Handler.SqbApplication
use elastic_env_operator.Handler.Serving.Services.{HasService}

-- The service and the ingresses.
abbrev pub IsReached : (op : Operator) → SqbApplication → op.World → Type 0
IsReached op app w = HasService op app w × All (IsServed op app w) app.spec.domains

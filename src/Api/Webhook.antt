-- ===== src/Api/Webhook.antt =====
-- sqbdeployment_webhook.go: the admission webhook accepts every change, and logs a change of the
-- selector.
use elastic_env_operator.Base.{
  Option, none, ◌||◌, not, ◌==◌, List, [], ◌∷◌, String, if◌then◌else◌, Error,
}
use elastic_env_operator.Api.Types.{SqbDeployment}

abbrev pub validate_create : SqbDeployment → Option Error
validate_create r = none

-- The messages that are logged, and the error.
unfoldable pub validate_update : SqbDeployment → SqbDeployment → List String × Option Error
validate_update r oldcr =
    if not (r.spec.selector.app == oldcr.spec.selector.app)
      || not (r.spec.selector.plane == oldcr.spec.selector.plane)
    then ("validate update" ∷ "sqbdeployment selector updated" ∷ [], none)
    else ("validate update" ∷ [], none)

abbrev pub validate_delete : SqbDeployment → Option Error
validate_delete r = none

-- ===== src/Tests/Reconciling.antt =====
-- Reconciliations of planes, applications, SQBDeployments and deployments.
use elastic_env_operator.Base.{◌≡◌, ◌↔◌, true, false, none, some, [], ◌∷◌, made, ok}
use elastic_env_operator.Api.Types.{
  SqbPlane, sqb_application_obj, sqb_deployment_obj, sqb_plane_obj,
}
use elastic_env_operator.Kinds.Workload.{deployment_obj}
use elastic_env_operator.Handler.{is_deleted, deleted}
use elastic_env_operator.Handler.Laws.{is_deleted_iff, annotation, check_sum}
use elastic_env_operator.Tests.Fixtures.{sums, wrong_plane}

is_deleted_iff_example :
    ((is_deleted sums wrong_plane.metadata ≡ ok true)
      ↔ (annotation sums wrong_plane.metadata ≡ some (check_sum sums wrong_plane.metadata)))
    × ((is_deleted sums wrong_plane.metadata ≡ ok false)
        ↔ (annotation sums wrong_plane.metadata ≡ none))
    × ((deleted sums wrong_plane.metadata ≡ true)
        ↔ (annotation sums wrong_plane.metadata ≡ some (check_sum sums wrong_plane.metadata)))
is_deleted_iff_example = is_deleted_iff sums wrong_plane.metadata

abbrev vela_plane : SqbPlane
vela_plane = record wrong_plane {
  metadata = record wrong_plane.metadata {
    labels = made (("app.oam.dev/name", "shop") ∷ []);
    creation_timestamp = 1;
  };
}

-- ===== src/Handler/SqbPlane/Laws.antt =====
-- What the reconciler of planes does with a wrongly marked plane.
use elastic_env_operator.Base.{◌≡◌, refl, Error, err}
use elastic_env_operator.Api.Types.{SqbPlane, sqb_plane_obj}
use elastic_env_operator.Operator.{Operator}
use elastic_env_operator.Handler.{is_deleted}
use elastic_env_operator.Handler.SqbPlane.{operate}

-- A plane with a wrong checksum is refused before any handler runs.
pub plane_wrong_sum :
    (op : Operator) (p : SqbPlane) (w : op.World) (e : Error)
    → is_deleted op.sums p.metadata ≡ err e
    → operate op (p, w) ≡ (err e, (p, w))
unfolding operate
plane_wrong_sum op p w e h = rw h refl

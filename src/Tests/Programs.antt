-- ===== src/Tests/Programs.antt =====
-- Runs of main and initConfig.
use elastic_env_operator.Base.{
  made, Map, ℕ, ◌≤◌, ◌≡◌, refl, Bool, ◌⊎◌, String, [], ◌∷◌, true, false, some, ok, err, arith, ltb,
  if◌then◌else◌,
}
use elastic_env_operator.Entity.ConfigMap.{SqbConfigMapEntity, new_entity, from_map}
use elastic_env_operator.Entity.ConfigMap.Lifecycle.{load}
use elastic_env_operator.Startup.{Runtime, default_flags, main}
use elastic_env_operator.Startup.Laws.{
  preparations, IsStopped, IsServing, KeepsSetUp, main_serves_last,
}
use elastic_env_operator.Startup.Waiting.{Surroundings, returned, init_config}
use elastic_env_operator.Startup.WaitingLaws.{
  IsJustified, Evolves, stays, steps, init_config_ends, init_config_returns,
}
use elastic_env_operator.Tests.Fixtures.{json, refused}

-- The configuration is never loaded, and each poll is half a second late.
abbrev never : Surroundings
never = record {
  config = λ at. new_entity;
  pause = λ at. 200_000_000;
  late = λ at. 500_000_000;
  takes_timer = λ at. true;
}

init_config_ends_example : IsJustified never (init_config never)
init_config_ends_example = init_config_ends never

-- It is loaded after three seconds.
abbrev settings : Map String
settings = made (("baseFlag", "base") ∷ [])

abbrev loaded_config : ℕ → SqbConfigMapEntity
loaded_config at = if ltb at 3_000_000_000 then new_entity else from_map json settings new_entity

abbrev in_time : Surroundings
in_time = record {
  config = loaded_config;
  pause = λ at. 200_000_000;
  late = λ at. 500_000_000;
  takes_timer = λ at. true;
}

Evolves-once :
    (early early' : Bool)
    → (early ≡ false → early' ≡ false)
    → Evolves json
        (if early then new_entity else from_map json settings new_entity)
        (if early' then new_entity else from_map json settings new_entity)
Evolves-once true true h = stays
Evolves-once true false h = steps stays (load settings new_entity)
Evolves-once false true h = absurd (cc (h refl))
Evolves-once false false h = stays

loads_once : (t u : ℕ) → t ≤ u → Evolves json (loaded_config t) (loaded_config u)
loads_once t u h = Evolves-once (ltb t 3_000_000_000) (ltb u 3_000_000_000) (λ e. ground arith)

init_config_returns_example : init_config in_time ≡ some returned
unfolding from_map
init_config_returns_example =
    init_config_returns json in_time loads_once 3_000_000_000 refl (λ t h. omega arith)

-- The webhook cannot be set up; the world says whether the manager or the goroutine was started.
abbrev without_webhook : Runtime Bool
without_webhook = record {
  new_manager = λ options started. (ok tt, started);
  set_k8s = λ started. started;
  set_up_controller = λ name started. (ok tt, started);
  set_up_webhook = λ name started. (err refused, started);
  go_init_config = λ started. true;
  start = λ started. (ok tt, true);
  info = λ message started. started;
  error = λ e message started. started;
}

kept : KeepsSetUp without_webhook (λ started. started ≡ false)
kept = record {
  new_manager = λ options started h. h;
  set_k8s = λ started h. h;
  set_up_controller = λ name started h. h;
  set_up_webhook = λ name started h. h;
  error = λ e message started h. h;
}

main_serves_last_example :
    IsStopped without_webhook
      (λ started. started ≡ false)
      (main without_webhook default_flags false)
    ⊎ IsServing without_webhook
        (λ started. started ≡ false)
        (preparations without_webhook default_flags)
        false
        (main without_webhook default_flags false)
main_serves_last_example =
    main_serves_last without_webhook (λ started. started ≡ false) kept default_flags false refl

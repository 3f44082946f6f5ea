-- ===== src/Startup/Waiting.antt =====
-- main.go, initConfig: the goroutine that waits for the first load of the configuration and stops
-- the program where none comes. Times are nanoseconds since the election of the leader, which it
-- waits for first.
use elastic_env_operator.Base.{
  ℕ, zero, suc, ◌+◌, Bool, true, false, ltb, if◌then◌else◌, Option, none, some,
}
use elastic_env_operator.Entity.ConfigMap.{SqbConfigMapEntity, is_initialized}

-- time.Second
abbrev pub second : ℕ
second = 1_000_000_000

-- The period of the timer.
abbrev pub deadline : ℕ
deadline = 60_000_000_000

pub data Ending : Type 0 where
  returned : Ending
  panicked : Ending

-- What the code does not decide: the configuration at each time, how long after a test that began at
-- a time the goroutine enters the `select`, how late it runs again after a `select` that was entered
-- at a time, and whether that takes the timer where both channels are ready.
pub record Surroundings : Type 0 where
  pub config : ℕ → SqbConfigMapEntity
  pub pause : ℕ → ℕ
  pub late : ℕ → ℕ
  pub takes_timer : ℕ → Bool

-- The case of the `select` that is entered at a time: the channel that is ready first.
unfoldable pub timer_wins : Surroundings → ℕ → Bool
timer_wins env at =
    if ltb (at + second) deadline
    then false
    else if ltb deadline (at + second)
    then true
    else env.takes_timer at

-- When the `select` behind a test is entered, and when the test behind that begins.
abbrev pub entered : Surroundings → ℕ → ℕ
entered env at = at + env.pause at

abbrev pub following : Surroundings → ℕ → ℕ
following env at = entered env at + second + env.late (entered env at)

-- The loop, entered at a time, for a number of polls.
unfoldable pub poll : Surroundings → ℕ → ℕ → Option Ending
unfolding timer_wins
poll env zero at = none
poll env (suc polls) at =
    let rest = poll env polls (following env at) in
    if is_initialized (env.config at)
    then some returned
    else if timer_wins env (entered env at)
    then some panicked
    else rest

-- initConfig, once the manager is elected: 61 polls, one a second, from 0 to 60 seconds.
unfoldable pub init_config : Surroundings → Option Ending
unfolding poll
init_config env = poll env 61 0

-- ===== src/Startup/WaitingLaws.antt =====
-- initConfig ends, and it stops the program only where the configuration came too late.
use elastic_env_operator.Base.{
  ℕ, zero, suc, ◌+◌, ◌*◌, ◌<◌, ◌≤◌, ◌≡◌, ◌⊎◌, true, false, Option, some, ltb, Bool-cases, inl, inr,
  arith,
}
use elastic_env_operator.Entity.ConfigMap.{Json, SqbConfigMapEntity, is_initialized}
use elastic_env_operator.Entity.ConfigMap.Lifecycle.{Step, Step-stays_ready}
use elastic_env_operator.Startup.Waiting.{
  Surroundings, Ending, returned, panicked, second, deadline, timer_wins, poll, init_config,
  entered, following,
}

-- The times at which the loop tests the configuration: at the election, and after each test that
-- did not find it and whose `select` did not take the timer.
pub data Polled (env : Surroundings) : ℕ → Type 0 where
  at_election : Polled env 0
  again :
      {at : ℕ}
      → Polled env at
      → is_initialized (env.config at) ≡ false
      → timer_wins env (entered env at) ≡ false
      → Polled env (following env at)

-- How the loop may end: by a test that finds the configuration, or by one that finds none and whose
-- `select` is entered less than a second before the deadline or later.
abbrev pub IsJustified : Surroundings → Option Ending → Type 0
IsJustified env ending =
    ((ending ≡ some returned) × (at : ℕ) × Polled env at × (is_initialized (env.config at) ≡ true))
    ⊎ ((ending ≡ some panicked)
        × (at : ℕ) × Polled env at
        × (is_initialized (env.config at) ≡ false)
        × (deadline ≤ entered env at + second))

ltb_lt : (t u : ℕ) → ltb t u ≡ true → t < u
ltb_lt t u h = ground arith

ltb_ge : (t u : ℕ) → ltb t u ≡ false → u ≤ t
ltb_ge t u h = ground arith

timer_wins-late : (env : Surroundings) (at : ℕ) → timer_wins env at ≡ true → deadline ≤ at + second
unfolding timer_wins
timer_wins-late env at w = ground arith

goes_on-early : (env : Surroundings) (at : ℕ) → timer_wins env at ≡ false → at + second ≤ deadline
unfolding timer_wins
goes_on-early env at w = ground arith

poll-IsJustified :
    (env : Surroundings) (polls at : ℕ)
    → deadline + second ≤ at + polls * second
    → 0 < polls
    → Polled env at
    → IsJustified env (poll env polls at)
unfolding poll
poll-IsJustified env zero at enough some_left polled = absurd (omega arith)
poll-IsJustified env (suc polls) at enough some_left polled =
    elim (Bool-cases (is_initialized (env.config at))) [
      | inl i ↦ inl (ground arith, at, polled, i)
      | inr i ↦ elim (Bool-cases (timer_wins env (entered env at))) [
        | inl w ↦ inr (ground arith, at, polled, i, timer_wins-late env (entered env at) w)
        | inr w ↦
            rw (i, w)
              (poll-IsJustified env polls (following env at) (omega arith)
                (omega (arith, goes_on-early env (entered env at) w)) (again polled i w))
      ]
    ]

-- initConfig ends, however long it pauses between a test and the `select`, however late it runs
-- after that, and whatever `select` chooses: it returns, at one of its tests that finds the
-- configuration loaded, or it panics, after one of its tests that does not, whose `select` is
-- entered at 59 seconds or later.
pub init_config_ends : (env : Surroundings) → IsJustified env (init_config env)
unfolding init_config
init_config_ends env = poll-IsJustified env 61 0 (omega arith) (omega arith) at_election

-- The configuration at a later time, after any number of loads and timers.
pub data Evolves (json : Json) : SqbConfigMapEntity → SqbConfigMapEntity → Type 0 where
  stays : {sc : SqbConfigMapEntity} → Evolves json sc sc
  steps : {a b c : SqbConfigMapEntity} → Evolves json a b → Step json b c → Evolves json a c

Evolves-initialized :
    {json : Json} {a b : SqbConfigMapEntity}
    → Evolves json a b
    → is_initialized a ≡ true
    → is_initialized b ≡ true
Evolves-initialized stays i = i
Evolves-initialized (steps before step) i = (Step-stays_ready step (Evolves-initialized before i)).0

-- Where the configuration only changes by loads and timers, and was loaded, with whatever data, at
-- some time, and each `select` behind a test before that time is entered more than a second before
-- the deadline, initConfig returns and does not stop the program.
pub init_config_returns :
    (json : Json) (env : Surroundings)
    → ((t u : ℕ) → t ≤ u → Evolves json (env.config t) (env.config u))
    → (at : ℕ) → is_initialized (env.config at) ≡ true
    → ((t : ℕ) → t < at → entered env t + second < deadline)
    → init_config env ≡ some returned
init_config_returns json env history at loaded in_time = elim (init_config_ends env) [
  | inl ended ↦ ended.0
  | inr (ended, late, polled, missing, after) ↦ elim (Bool-cases (ltb late at)) [
    | inl sooner ↦ absurd (omega (arith, in_time late (ltb_lt late at sooner), after))
    | inr later ↦
        absurd (cc (missing, Evolves-initialized (history at late (ltb_ge late at later)) loaded))
  ]
]

-- ===== src/Startup.antt =====
-- main.go: how the operator is set up, and the goroutine that waits for the configuration.
pub mod Waiting
pub mod WaitingLaws
pub mod Laws
use elastic_env_operator.Base.{
  false, String, Bool, Error, Result, ok, err, panic, Exec, ℕ, List, [], ◌∷◌,
}

-- The flags, and the options that the manager is made with.
pub record Flags : Type 0 where
  pub metrics_addr : String
  pub enable_leader_election : Bool
  pub namespace : String

pub record Options : Type 0 where
  pub metrics_bind_address : String
  pub port : ℕ
  pub leader_election : Bool
  pub leader_election_id : String

abbrev pub default_flags : Flags
default_flags = record {
  metrics_addr = ":8080";
  enable_leader_election = false;
  namespace = "elastic-env-operator-system";
}

abbrev pub options : Flags → Options
options flags = record {
  metrics_bind_address = flags.metrics_addr;
  port = 9443;
  leader_election = flags.enable_leader_election;
  leader_election_id = "7bea0070.shouqianba.com";
}

-- The calls that main makes, of controller-runtime and of the packages of the operator that only
-- call it.
pub record Runtime (World : Type 0) : Type 0 where
  -- ctrl.NewManager, with the scheme of `init`
  pub new_manager : Options → Exec World (Unit {0})
  -- handler.SetK8sClient, SetK8sLog and SetK8sScheme
  pub set_k8s : World → World
  -- SetupWithManager, of the reconcilers by their names, and SetupWebhookWithManager
  pub set_up_controller : String → Exec World (Unit {0})
  pub set_up_webhook : String → Exec World (Unit {0})
  -- go initConfig(mgr)
  pub go_init_config : World → World
  -- mgr.Start, until the program is told to stop
  pub start : Exec World (Unit {0})
  pub info : String → World → World
  pub error : Error → String → World → World

-- How the program ends: main returns, os.Exit, or a panic.
pub data Exit : Type 0 where
  finished : Exit
  exit : ℕ → Exit
  panicked : Exit

module _ {World : Type 0} (runtime : Runtime World) where
  -- `if err = ...; err != nil`, with what is logged before os.Exit(1), and what main does next
  unfoldable pub or_exit :
      Result (Unit {0}) → String → (World → Exit × World) → World → Exit × World
  or_exit (ok u) message next w = next w
  or_exit (err e) message next w = (exit 1, runtime.error e message w)
  or_exit panic message next w = (panicked, w)

  unfoldable pub attempt :
      Exec World (Unit {0}) → String → (World → Exit × World) → World → Exit × World
  unfolding or_exit
  attempt act message next w = let (result, after) = act w in or_exit result message next after

  abbrev finish : World → Exit × World
  finish w = (finished, w)

  -- The end of main: the goroutine is started, and the manager.
  unfoldable pub serve : World → Exit × World
  unfolding attempt
  serve w =
      attempt runtime.start "problem running manager" finish
        (runtime.info "starting manager" (runtime.go_init_config w))

  -- The set-up of one reconciler, and what follows it.
  unfoldable pub controller : String → (World → Exit × World) → World → Exit × World
  unfolding attempt
  controller name next w =
      attempt (runtime.set_up_controller name) "unable to create controller" next w

  unfoldable pub set_up : World → Exit × World
  unfolding attempt controller serve
  set_up w =
      controller "SQBDeployment"
        (controller "SQBPlane" (
          controller "SQBApplication" (
            controller "ConfigMap" (
              controller "Deployment" (
                attempt (runtime.set_up_webhook "SQBDeployment") "unable to create webhook"
                  serve)))))
        (runtime.set_k8s w)

  unfoldable pub main : Flags → World → Exit × World
  unfolding attempt set_up
  main flags w = attempt (runtime.new_manager (options flags)) "unable to start manager" set_up w

-- ===== src/Startup/Laws.antt =====
-- main starts the manager, and the goroutine that may stop the program, after every set-up or never.
use elastic_env_operator.Base.{
  List, [], ◌∷◌, Option, none, some, String, ◌≡◌, refl, ◌⊎◌, inl, inr, Error, Result, ok, err,
  panic, Exec, Keeps,
}
use elastic_env_operator.Startup.{
  Runtime, Flags, Options, Exit, exit, panicked, or_exit, attempt, controller, serve, set_up, main,
  options,
}

-- The world after some calls, if all of them succeed.
abbrev goes_on : {World : Type 0} → Result (Unit {0}) → Option World → Option World
goes_on (ok u) rest = rest
goes_on (err e) rest = none
goes_on panic rest = none

abbrev pub after_all : {World : Type 0} → List (Exec World (Unit {0})) → World → Option World
after_all [] w = some w
after_all (call ∷ calls) w = let (result, after) = call w in goes_on result (after_all calls after)

module _ {World : Type 0} (runtime : Runtime World) where
  -- What is set up behind the manager: the five reconcilers, and the webhook.
  abbrev pub set_ups : List (Exec World (Unit {0}))
  set_ups =
      runtime.set_up_controller "SQBDeployment"
      ∷ runtime.set_up_controller "SQBPlane"
      ∷ runtime.set_up_controller "SQBApplication"
      ∷ runtime.set_up_controller "ConfigMap"
      ∷ runtime.set_up_controller "Deployment"
      ∷ runtime.set_up_webhook "SQBDeployment"
      ∷ []

  -- With the manager, and the client of the handlers.
  abbrev pub preparations : Flags → List (Exec World (Unit {0}))
  preparations flags =
      runtime.new_manager (options flags) ∷ (λ w. (ok tt, runtime.set_k8s w)) ∷ set_ups

module _ {World : Type 0} (runtime : Runtime World) (P : World → Type 0) where
  -- How a run ends without the manager: with code 1, or with a panic of a set-up.
  abbrev pub IsStopped : Exit × World → Type 0
  IsStopped run = ((run.0 ≡ exit 1) ⊎ (run.0 ≡ panicked)) × P run.1

  -- All the calls succeeded, and what is left is to start the goroutine and the manager.
  abbrev pub IsServing : List (Exec World (Unit {0})) → World → Exit × World → Type 0
  IsServing calls before run =
      (w : World) × (after_all calls before ≡ some w) × P w × (run ≡ serve runtime w)

  -- What the set-ups and the log keep.
  pub record KeepsSetUp : Type 0 where
    pub new_manager : (o : Options) → Keeps P (runtime.new_manager o)
    pub set_k8s : (w : World) → P w → P (runtime.set_k8s w)
    pub set_up_controller : (name : String) → Keeps P (runtime.set_up_controller name)
    pub set_up_webhook : (name : String) → Keeps P (runtime.set_up_webhook name)
    pub error : (e : Error) (message : String) (w : World) → P w → P (runtime.error e message w)

  abbrev Served : List (Exec World (Unit {0})) → (World → Exit × World) → Type 0
  Served calls run = (w : World) → P w → IsStopped (run w) ⊎ IsServing calls w (run w)

  module _ (k : KeepsSetUp) where
    or_exit-Served :
        (calls : List (Exec World (Unit {0}))) (r : Result (Unit {0})) (message : String)
        (next : World → Exit × World) (w : World)
        → Served calls next
        → P w
        → IsStopped (or_exit runtime r message next w)
          ⊎ ((w' : World) × (goes_on r (after_all calls w) ≡ some w')
              × P w'
              × (or_exit runtime r message next w ≡ serve runtime w'))
    unfolding or_exit
    or_exit-Served calls (ok u) message next w served h = served w h
    or_exit-Served calls (err e) message next w served h = inl (inl refl, k.error e message w h)
    or_exit-Served calls panic message next w served h = inl (inr refl, h)

    attempt-Served :
        (calls : List (Exec World (Unit {0}))) (act : Exec World (Unit {0})) (message : String)
        (next : World → Exit × World)
        → Keeps P act
        → Served calls next
        → Served (act ∷ calls) (attempt runtime act message next)
    unfolding attempt
    attempt-Served calls act message next kept served w h =
        or_exit-Served calls (act w).0 message next (act w).1 served (kept w h)

    controller-Served :
        (calls : List (Exec World (Unit {0}))) (name : String) (next : World → Exit × World)
        → Served calls next
        → Served (runtime.set_up_controller name ∷ calls) (controller runtime name next)
    unfolding controller
    controller-Served calls name next =
        attempt-Served calls (runtime.set_up_controller name) "unable to create controller" next
          (k.set_up_controller name)

    web_hook-Served : Served (runtime.set_up_webhook "SQBDeployment" ∷ []) (
        attempt runtime
          (runtime.set_up_webhook "SQBDeployment")
          "unable to create webhook"
          (serve runtime))
    web_hook-Served =
        attempt-Served [] (runtime.set_up_webhook "SQBDeployment") "unable to create webhook"
          (serve runtime) (k.set_up_webhook "SQBDeployment") (λ w h. inr (w, refl, h, refl))

    set_up-Served : Served ((λ w. (ok tt, runtime.set_k8s w)) ∷ set_ups runtime) (set_up runtime)
    unfolding set_up
    set_up-Served w h =
        let set_up : String → Exec World (Unit {0}) = runtime.set_up_controller in
        let web_hook : List (Exec World (Unit {0})) = runtime.set_up_webhook "SQBDeployment" ∷ [] in
        let fifth : List (Exec World (Unit {0})) = set_up "Deployment" ∷ web_hook in
        let fourth : List (Exec World (Unit {0})) = set_up "ConfigMap" ∷ fifth in
        let third : List (Exec World (Unit {0})) = set_up "SQBApplication" ∷ fourth in
        controller-Served (set_up "SQBPlane" ∷ third) "SQBDeployment" _
          (controller-Served third "SQBPlane" _ (
            controller-Served fourth "SQBApplication" _ (
              controller-Served fifth "ConfigMap" _
                (controller-Served web_hook "Deployment" _ web_hook-Served))))
          (runtime.set_k8s w) (k.set_k8s w h)

-- main starts the goroutine that waits for the configuration, and the manager, only in the world
-- that the set-ups of the manager, of every controller and of the webhook leave, and only where
-- each of them succeeded; otherwise it ends with the code 1 or a panic, and the world still has
-- what the set-ups keep.
pub main_serves_last :
    {World : Type 0} (runtime : Runtime World) (P : World → Type 0)
    → KeepsSetUp runtime P
    → (flags : Flags) (w : World) → P w
    → IsStopped runtime P (main runtime flags w)
      ⊎ IsServing runtime P (preparations runtime flags) w (main runtime flags w)
unfolding main
main_serves_last runtime P k flags w h =
    attempt-Served runtime P k ((λ w. (ok tt, runtime.set_k8s w)) ∷ set_ups runtime)
      (runtime.new_manager (options flags)) "unable to start manager" (set_up runtime)
      (k.new_manager (options flags)) (set_up-Served runtime P k) w h

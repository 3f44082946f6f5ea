-- ===== src/Entity/ConfigMap/Locks.antt =====
-- The locks that the methods of the configuration take and release (sqbconfigmap_entity.go), as
-- sync.RWMutex documents them: a reader waits while a writer holds the lock or waits for it, and a
-- writer waits for the readers before it.
pub mod Counting
pub mod Laws
use elastic_env_operator.Base.{
  ℕ, zero, suc, ◌+◌, ◌-◌, ◌≡◌, refl, ap, Bool, true, false, ◌&&◌, Option, none, some, List, [], ◌∷◌,
  ◌++◌, nat_eq, arith, if◌then◌else◌,
}

-- A writer first announces itself (`lock`) and then waits for the readers (`acquire`).
pub data LockOp : Type 0 where
  r_lock : LockOp
  r_unlock : LockOp
  lock : LockOp
  acquire : LockOp
  unlock : LockOp

pub data Writer : Type 0 where
  absent : Writer
  waiting : Writer
  holding : Writer

pub record Mutex : Type 0 where
  pub readers : ℕ
  pub writer : Writer

-- A goroutine is what it still has to do.
pub record LockState : Type 0 where
  pub mutex : Mutex
  pub goroutines : List (List LockOp)

-- What an operation makes of the mutex, unless it has to wait.
unfoldable pub act : LockOp → Mutex → Option Mutex
act r_lock m = elim m.writer [
  | absent ↦ some (record { readers = m.readers + 1; writer = absent })
  | waiting ↦ none
  | holding ↦ none
]
act r_unlock m = some (record { readers = m.readers - 1; writer = m.writer })
act lock m = elim m.writer [
  | absent ↦ some (record { readers = m.readers; writer = waiting })
  | waiting ↦ none
  | holding ↦ none
]
act acquire m = if nat_eq m.readers 0 then some (record { readers = 0; writer = holding }) else none
act unlock m = some (record { readers = m.readers; writer = absent })

done_by : List LockOp → List (List LockOp) → Option Mutex → Option LockState
done_by ops gs none = none
done_by ops gs (some m) = some (record { mutex = m; goroutines = ops ∷ gs })

behind : List LockOp → Option LockState → Option LockState
behind g none = none
behind g (some s) = some (record s { goroutines = g ∷ s.goroutines })

step_of : ℕ → Mutex → List (List LockOp) → Option LockState
unfolding act done_by behind
step_of i m [] = none
step_of zero m ([] ∷ gs) = none
step_of zero m ((op ∷ ops) ∷ gs) = done_by ops gs (act op m)
step_of (suc i) m (g ∷ gs) = behind g (step_of i m gs)

-- The next operation of the i-th goroutine, if it can be done.
unfoldable pub step : ℕ → LockState → Option LockState
unfolding step_of
step i s = step_of i s.mutex s.goroutines

continue_run : Option LockState → (LockState → Option LockState) → Option LockState
continue_run none f = none
continue_run (some s) f = f s

-- The goroutines step in the order of a schedule.
unfoldable pub run : List ℕ → LockState → Option LockState
unfolding step continue_run
run [] s = some s
run (i ∷ schedule) s = continue_run (step i s) (run schedule)

-- GetDomainNames, and every method that reads one field
unfoldable pub get_domain_names_locks : List LockOp
get_domain_names_locks = r_lock ∷ r_unlock ∷ []

-- GetDomainNameByClass, which calls GetDomainNames with the lock in its hands
unfoldable pub get_domain_name_by_class_locks : List LockOp
unfolding get_domain_names_locks
get_domain_name_by_class_locks = r_lock ∷ (get_domain_names_locks ++ r_unlock ∷ [])

-- FromMap
unfoldable pub from_map_locks : List LockOp
from_map_locks = lock ∷ acquire ∷ unlock ∷ []

abbrev pub idle : List (List LockOp) → LockState
idle gs = record { mutex = record { readers = 0; writer = absent }; goroutines = gs }

abbrev starts_reading : List LockOp → Bool
starts_reading [] = true
starts_reading (r_lock ∷ ops) = true
starts_reading (_ ∷ ops) = false

-- Goroutines that are about to read, or at their end.
abbrev pub all_start_reading : List (List LockOp) → Bool
all_start_reading [] = true
all_start_reading (g ∷ gs) = starts_reading g && all_start_reading gs

abbrev stuck_mutex : Mutex
stuck_mutex = record { readers = 1; writer = waiting }

abbrev pub stuck : List (List LockOp) → LockState
stuck gs = record {
  mutex = stuck_mutex;
  goroutines = (r_lock ∷ r_unlock ∷ r_unlock ∷ []) ∷ (acquire ∷ unlock ∷ []) ∷ gs;
}

readers_wait :
    (gs : List (List LockOp)) (i : ℕ)
    → all_start_reading gs ≡ true
    → step_of i stuck_mutex gs ≡ none
unfolding step_of act done_by behind
readers_wait [] i h = refl
readers_wait ([] ∷ gs) zero h = refl
readers_wait ((r_lock ∷ ops) ∷ gs) zero h = refl
readers_wait ((r_unlock ∷ ops) ∷ gs) zero h = absurd (cc h)
readers_wait ((lock ∷ ops) ∷ gs) zero h = absurd (cc h)
readers_wait ((acquire ∷ ops) ∷ gs) zero h = absurd (cc h)
readers_wait ((unlock ∷ ops) ∷ gs) zero h = absurd (cc h)
readers_wait (g ∷ gs) (suc i) h = ap (behind g) (readers_wait gs i (ground (arith, h)))

step-stuck :
    (gs : List (List LockOp)) (i : ℕ) → all_start_reading gs ≡ true → step i (stuck gs) ≡ none
unfolding step step_of act done_by behind
step-stuck gs zero h = refl
step-stuck gs (suc zero) h = refl
step-stuck gs (suc (suc i)) h =
    ap (λ s. behind (r_lock ∷ r_unlock ∷ r_unlock ∷ []) (behind (acquire ∷ unlock ∷ []) s))
      (readers_wait gs i h)

-- A load of the configuration that comes between the two read locks of GetDomainNameByClass stops
-- the program: with any further goroutines that are about to read, two steps lead to a state in
-- which no goroutine can go on.
pub get_domain_name_by_class_deadlocks :
    (gs : List (List LockOp))
    → all_start_reading gs ≡ true
    → (run (0 ∷ 1 ∷ []) (idle (get_domain_name_by_class_locks ∷ from_map_locks ∷ gs))
        ≡ some (stuck gs))
      × ((i : ℕ) → step i (stuck gs) ≡ none)
unfolding run step step_of act done_by behind continue_run get_domain_name_by_class_locks
    from_map_locks
get_domain_name_by_class_deadlocks gs h = (refl, λ i. step-stuck gs i h)

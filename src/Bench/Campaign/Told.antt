-- ===== src/Bench/Campaign/Told.antt =====
-- The history of a run under faults tells which tasks its fault loops stopped.
use driftless.Prelude.{
  ℕ, String, Option, none, some, List, [], ◌∷◌, ◌++◌, ◌≡◌, refl, sym, ap, ◌∙◌, inl, inr,
}
use driftless.Bench.Result.{Result, ok, raise, Result-cases}
use driftless.Bench.LeaderDetect.{LeaderInfo}
use driftless.Bench.LeaderTracker.{Seen}
use driftless.Bench.Chaos.{
  Host, Fault, skip, killed, sqs_redeliver, error, Stopped, fault_of, stop_one, stop_random_task,
  kill_leader, kill_follower, followers, kill_turn, kill_leader_turn, kill_follower_turn,
  inject_sqs_redelivery, redeliver_turn, Change,
}
use driftless.Bench.Workload.{Workload, Step}
use driftless.Bench.Workload as Pools
use driftless.Bench.Campaign.Entries.{
  Entry, run_start, submit, submit_error, poll_observe, outcome, fault, seen, run_end,
}
use driftless.Bench.Campaign.{entries}
use mathlib.Core.List.{map, append_assoc}

abbrev pub told_of : Fault → List String
told_of (skip reason) = []
told_of (killed res) = res.task_arn ∷ []
told_of (sqs_redeliver n) = []
told_of (error e) = []

-- The tasks that the entries tell as killed, in order.
abbrev pub told : List (ℕ × Entry) → List String
told [] = []
told ((t, run_start) ∷ es) = told es
told ((t, submit job) ∷ es) = told es
told ((t, submit_error) ∷ es) = told es
told ((t, poll_observe job s) ∷ es) = told es
told ((t, outcome job ns s) ∷ es) = told es
told ((t, fault l f) ∷ es) = told_of f ++ told es
told ((t, seen s) ∷ es) = told es
told ((t, run_end) ∷ es) = told es

pub told-append : (xs ys : List (ℕ × Entry)) → told (xs ++ ys) ≡ told xs ++ told ys
told-append [] ys = refl
told-append ((t, run_start) ∷ es) ys = told-append es ys
told-append ((t, submit job) ∷ es) ys = told-append es ys
told-append ((t, submit_error) ∷ es) ys = told-append es ys
told-append ((t, poll_observe job s) ∷ es) ys = told-append es ys
told-append ((t, outcome job ns s) ∷ es) ys = told-append es ys
told-append ((t, fault l f) ∷ es) ys =
    ap (◌++◌ (told_of f)) (told-append es ys) ∙ sym (append_assoc (told_of f) (told es) (told ys))
told-append ((t, seen s) ∷ es) ys = told-append es ys
told-append ((t, run_end) ∷ es) ys = told-append es ys

-- What a kill says that it stopped is what it stopped.
abbrev IsFrank : Stopped → Type 0
IsFrank (raise e, stopped) = stopped ≡ []
IsFrank (ok none, stopped) = stopped ≡ []
IsFrank (ok (some res), stopped) = stopped ≡ res.task_arn ∷ []

fault_of-told : (reason : String) (r : Stopped) → IsFrank r → told_of (fault_of reason r.0) ≡ r.1
fault_of-told reason (raise e, stopped) h = sym h
fault_of-told reason (ok none, stopped) h = sym h
fault_of-told reason (ok (some res), stopped) h = sym h

-- What a turn records tells the tasks that it stopped; a turn that raised stopped none.
abbrev pub IsTold : Result Fault × List String → Type 0
IsTold (ok f, stopped) = told_of f ≡ stopped
IsTold (raise e, stopped) = stopped ≡ []

module _ (host : Host) where
  stop_one-IsFrank : (service : String) (arns : List String) → IsFrank (stop_one host service arns)
  unfolding stop_one
  stop_one-IsFrank service [] = refl
  stop_one-IsFrank service (arn ∷ arns) =
      elim (Result-cases (host.stop_task (host.choice arn arns))) [
        | inl (u, e) ↦ rw (e, stop_one) refl
        | inr (x, e) ↦ rw (e, stop_one) refl
      ]

  stop_random_task-IsFrank : (service : String) → IsFrank (stop_random_task host service)
  unfolding stop_random_task
  stop_random_task-IsFrank service = elim (Result-cases (host.list_tasks service)) [
    | inl (arns, e) ↦ rw (e, stop_random_task) (stop_one-IsFrank service arns)
    | inr (x, e) ↦ rw (e, stop_random_task) refl
  ]

  kill_follower-IsFrank : (services : List String) → IsFrank (kill_follower host services)
  unfolding kill_follower
  kill_follower-IsFrank [] = refl
  kill_follower-IsFrank (s ∷ services) = stop_random_task-IsFrank (host.choice s services)

  pub kill_leader_turn-told :
      (found : Result (Option LeaderInfo))
      → told_of (kill_leader_turn host found).0 ≡ (kill_leader_turn host found).1
  unfolding kill_leader_turn kill_leader
  kill_leader_turn-told (raise e) = refl
  kill_leader_turn-told (ok none) = refl
  kill_leader_turn-told (ok (some info)) =
      fault_of-told "no running task" _ (stop_random_task-IsFrank info.ecs_service)

  pub kill_follower_turn-told :
      (services : List String) (found : Result (Option LeaderInfo))
      → told_of (kill_follower_turn host services found).0
        ≡ (kill_follower_turn host services found).1
  unfolding kill_follower_turn
  kill_follower_turn-told services (raise e) = refl
  kill_follower_turn-told services (ok none) = refl
  kill_follower_turn-told services (ok (some info)) =
      fault_of-told "no follower tasks" _ (kill_follower-IsFrank (followers info services))

  pub kill_turn-IsTold : (found : Result (Option LeaderInfo)) → IsTold (kill_turn host found)
  unfolding kill_turn kill_leader
  kill_turn-IsTold (raise e) = refl
  kill_turn-IsTold (ok none) = refl
  kill_turn-IsTold (ok (some info)) =
      of_stop (stop_random_task host info.ecs_service) (stop_random_task-IsFrank info.ecs_service)
    where
      of_stop :
          (r : Stopped)
          → IsFrank r
          → IsTold
              (elim r.0 [ raise e ↦ raise e | ok o ↦ ok (fault_of "no running task" (ok o)) ], r.1)
      of_stop (raise e, stopped) h = h
      of_stop (ok none, stopped) h = sym h
      of_stop (ok (some res), stopped) h = sym h

pub redeliver_turn-told :
    (change : String → Change) (receive : ℕ → List String)
    → told_of (redeliver_turn change receive) ≡ []
unfolding redeliver_turn
redeliver_turn-told change receive = elim (Result-cases (inject_sqs_redelivery change receive 5)) [
  | inl (n, e) ↦ rw (e, redeliver_turn) refl
  | inr (x, e) ↦ rw (e, redeliver_turn) refl
]

pub told-entries : (now : ℕ) (w v : Workload) (s : Step w v) → told (entries now w v s) ≡ []
told-entries now w _ (Pools.fire _ p) = refl
told-entries now w _ (Pools.submit _ n job e) = refl
told-entries now w _ (Pools.submit_raises _ n e) = refl
told-entries now w _ (Pools.hand_over _ before after job p e) = refl
told-entries now w _ (Pools.poll_ends _ before after job t s e) = refl
told-entries now w _ (Pools.poll_raises _ before after job e) = refl
told-entries now w _ (Pools.close _ p) = refl
told-entries now w _ (Pools.drain _ p e h) = refl
told-entries now w _ (Pools.finish _ p e) = refl
told-entries now w _ (Pools.end_run _ p) = refl

pub told-seen : (now : ℕ) (ss : List Seen) → told (map (λ s. (now, seen s)) ss) ≡ []
told-seen now [] = refl
told-seen now (s ∷ ss) = told-seen now ss

-- ===== src/Bench/Chaos/Kills.antt =====
-- What a kill stops.
use driftless.Prelude.{
  Option, String, Bool, true, false, not, none, some, List, [], ◌∷◌, ◌==◌, string_eq, ◌≡◌, refl, ap,
  arith, contains, filter_by, inl, inr,
}
use driftless.Bench.Result.{Result, ok, raise, Result-cases}
use driftless.Bench.LeaderDetect.{LeaderInfo}
use driftless.Bench.Chaos.{
  Host, KillResult, Stopped, Fault, skip, killed, sqs_redeliver, error, fault_of, kill_leader,
  kill_turn, kill_leader_turn, stop_one, stop_random_task, kill_follower, followers,
  kill_follower_turn,
}

-- `random.choice` picks an element of its list.
abbrev pub IsChoice : Host → Type 0
IsChoice host = (x : String) (xs : List String) → contains (x ∷ xs) (host.choice x xs) ≡ true

-- A task that is listed as running for the service.
abbrev pub IsRunning : Host → String → String → Type 0
IsRunning host service arn =
    (arns : List String) × (host.list_tasks service ≡ ok arns) × (contains arns arn ≡ true)

-- What a stop of a random task of the service did: it stopped the one running task of the service
-- that it returns, or it returned nothing, as no task was running, or it failed; in the last two
-- cases it stopped none.
abbrev pub IsStop : Host → String → Stopped → Type 0
IsStop host service (raise e, stopped) = stopped ≡ []
IsStop host service (ok none, stopped) = (stopped ≡ []) × (host.list_tasks service ≡ ok [])
IsStop host service (ok (some res), stopped) =
    (stopped ≡ res.task_arn ∷ []) × (res.service ≡ service) × IsRunning host service res.task_arn

-- What a turn of the follower kills recorded and stopped.
abbrev pub IsSpared : Host → List String → LeaderInfo → Fault × List String → Type 0
IsSpared host services info (skip reason, stopped) = stopped ≡ []
IsSpared host services info (error e, stopped) = stopped ≡ []
IsSpared host services info (sqs_redeliver n, stopped) = stopped ≡ []
IsSpared host services info (killed res, stopped) =
    (stopped ≡ res.task_arn ∷ [])
    × (contains services res.service ≡ true)
    × ((res.service == info.ecs_service) ≡ false)
    × IsRunning host res.service res.task_arn

-- The fault that is recorded where the exceptions of a turn are caught.
abbrev recorded : Result Fault → Fault
recorded (raise e) = error e
recorded (ok fault) = fault

-- The two kill loops differ in the catching of exceptions alone.
kill_turn-recorded :
    (host : Host) (leader : Result (Option LeaderInfo))
    → kill_leader_turn host leader ≡ (recorded (kill_turn host leader).0, (kill_turn host leader).1)
unfolding kill_leader_turn kill_turn
kill_turn-recorded host (raise e) = refl
kill_turn-recorded host (ok none) = refl
kill_turn-recorded host (ok (some info)) =
    let st = kill_leader host info.ecs_service in ap (λ f. (f, st.1)) (same_fault st.0)
  where
    same_fault :
        (r : Result (Option KillResult))
        → fault_of "no running task" r
          ≡ recorded (elim r [ raise e ↦ raise e | ok o ↦ ok (fault_of "no running task" (ok o)) ])
    same_fault (raise e) = refl
    same_fault (ok o) = refl

pub contains-filter_by :
    (keep : String → Bool) (xs : List String) (x : String)
    → contains (filter_by keep xs) x ≡ true
    → (contains xs x ≡ true) × (keep x ≡ true)
contains-filter_by keep [] x h = absurd (cc)
contains-filter_by keep (y ∷ ys) x h = (
  ground (arith, contains-filter_by keep ys x),
  grind (arith, contains-filter_by keep ys x, string_eq.same_iff x y),
)

module _ (host : Host) (chooses : IsChoice host) where
  -- Stopping a random task of a service stops one of its running tasks and returns that one; it
  -- returns nothing exactly as no task is running, and then, as on an exception, it stops none.
  pub stop_random_task-IsStop :
      (service : String) → IsStop host service (stop_random_task host service)
  unfolding stop_random_task stop_one
  stop_random_task-IsStop service = elim (Result-cases (host.list_tasks service)) [
    | inr (e, failed) ↦ rw (failed, stop_random_task) refl
    | inl ([], listed) ↦ rw (listed, stop_random_task) (refl, listed)
    | inl (arn ∷ arns, listed) ↦ elim (Result-cases (host.stop_task (host.choice arn arns))) [
      | inr (e, refused) ↦ rw (listed, stop_random_task) (rw (refused, stop_one) refl)
      | inl (u, done) ↦
          rw (listed, stop_random_task)
            (rw (done, stop_one) (refl, refl, (arn ∷ arns, listed, chooses arn arns)))
    ]
  ]

  spares :
      (services : List String) (info : LeaderInfo) (svc : String) (st : Stopped)
      → contains services svc ≡ true
      → not (svc == info.ecs_service) ≡ true
      → IsStop host svc st
      → IsSpared host services info (fault_of "no follower tasks" st.0, st.1)
  spares services info svc (raise e, stopped) known other h = h
  spares services info svc (ok none, stopped) known other h = h.0
  spares services info svc (ok (some res), stopped) known other (one, served, running) =
      (one, (rw served known), (rw served ground (arith)), (rw served running))

  -- A turn of the follower kills never stops a task for the leader's service: it stops one task that
  -- is listed as running for another of the coordinators' services and records it, or it stops none.
  pub kill_follower_turn-IsSpared :
      (services : List String) (info : LeaderInfo)
      → IsSpared host services info (kill_follower_turn host services (ok (some info)))
  unfolding kill_follower_turn kill_follower followers
  kill_follower_turn-IsSpared services info =
      of_followers (followers info services)
        (contains-filter_by (λ s. not (s == info.ecs_service)) services)
    where
      of_followers :
          (fs : List String)
          → ((x : String)
              → contains fs x ≡ true
              → (contains services x ≡ true) × (not (x == info.ecs_service) ≡ true))
          → IsSpared host services info (
              let (res, stopped) = kill_follower host fs in
              (fault_of "no follower tasks" res, stopped))
      of_followers [] all = refl
      of_followers (f ∷ fs) all =
          let svc = host.choice f fs in
          let (known, other) = all svc (chooses f fs) in
          spares services info svc (stop_random_task host svc) known other
            (stop_random_task-IsStop svc)

-- ===== src/Bench/Command/Spares.antt =====
-- What a fault from the command line stops.
use driftless.Prelude.{
  String, true, false, not, Option, none, some, List, [], ◌∷◌, ◌==◌, string_eq, ◌≡◌, refl, contains,
  filter_by, inl, inr, get_or, Bool-cases, arith, if◌then◌else◌,
}
use driftless.Bench.Result.{Result, ok, raise}
use driftless.Bench.LeaderDetect.{LeaderInfo}
use driftless.Bench.Chaos.{Host, KillResult, Stopped, kill_follower, stop_random_task}
use driftless.Bench.Chaos.Kills.{
  IsChoice, IsStop, IsRunning, stop_random_task-IsStop, contains-filter_by,
}
use driftless.Bench.Command.{Ended, is_given, exit_of, run_target, after_look, cmd_chaos}

abbrev pub Printed : Host → List String → String → Option KillResult → List String → Type 0
Printed host services leader none stopped = stopped ≡ []
Printed host services leader (some res) stopped =
    (stopped ≡ res.task_arn ∷ [])
    × (contains services res.service ≡ true)
    × ((res.service == leader) ≡ false)
    × IsRunning host res.service res.task_arn

-- A follower's task was stopped and printed, or none was stopped.
abbrev pub Spared : Host → List String → String → Ended → Type 0
Spared host services leader (raise e, stopped) = stopped ≡ []
Spared host services leader (ok x, stopped) =
    (x.code ≡ 0) × Printed host services leader x.printed stopped

abbrev pub look_of : Result (Option LeaderInfo) → Result (Option String)
look_of (raise e) = raise e
look_of (ok none) = ok none
look_of (ok (some info)) = ok (some info.ecs_service)

-- The service of the leader: as given, or as found.
abbrev pub known_leader : Option String → Result (Option LeaderInfo) → Result (Option String)
known_leader given found = if is_given given then ok (some (get_or given "")) else look_of found

-- What a kill of a follower does, by what is known of the leader.
abbrev pub Follows : Host → List String → Result (Option String) → Ended → Type 0
Follows host services (raise e) end = end ≡ (raise e, [])
Follows host services (ok none) end = end ≡ (ok (record { code = 3; printed = none }), [])
Follows host services (ok (some leader)) end = Spared host services leader end

module _ (host : Host) (chooses : IsChoice host) (services : List String) where
  exit_of-Spared :
      (leader svc : String) (st : Stopped)
      → contains services svc ≡ true
      → (svc == leader) ≡ false
      → IsStop host svc st
      → Spared host services leader (exit_of st)
  exit_of-Spared leader svc (raise e, stopped) known other h = h
  exit_of-Spared leader svc (ok none, stopped) known other h = (refl, h.0)
  exit_of-Spared leader svc (ok (some res), stopped) known other (one, served, running) =
      (refl, (one, (rw served known), (rw served other), (rw served running)))

  kill_follower-Spared :
      (leader : String)
      → Spared host services leader
          (exit_of (kill_follower host (filter_by (λ s. not (s == leader)) services)))
  unfolding kill_follower
  kill_follower-Spared leader =
      of_followers (filter_by (λ s. not (s == leader)) services)
        (contains-filter_by (λ s. not (s == leader)) services)
    where
      of_followers :
          (fs : List String)
          → ((x : String)
              → contains fs x ≡ true
              → (contains services x ≡ true) × (not (x == leader) ≡ true))
          → Spared host services leader (exit_of (kill_follower host fs))
      of_followers [] all = (refl, refl)
      of_followers (f ∷ fs) all =
          let svc = host.choice f fs in
          let (known, other) = all svc (chooses f fs) in
          exit_of-Spared leader svc (stop_random_task host svc) known (ground (arith, other))
            (stop_random_task-IsStop host chooses svc)

  -- A kill of a follower from the command line, with the leader's service given or else looked for: a
  -- look that raises ends it, with exit code 3 it ends where no leader is found, and otherwise, whatever
  -- calls fail, it stops at most one task, one that is listed as running for a coordinators' service
  -- other than the leader's, and prints that one.
  pub cmd_chaos-Follows :
      (worker_service : String) (found : Result (Option LeaderInfo)) (given : Option String)
      → Follows host services (known_leader given found) (
          cmd_chaos host services worker_service found
            (record { target = "kill_follower"; leader_service = given }))
  unfolding cmd_chaos after_look run_target
  cmd_chaos-Follows worker_service found given = elim (Bool-cases (is_given given)) [
    | inl known ↦ rw (known, known_leader) (kill_follower-Spared (get_or given ""))
    | inr missing ↦ rw (missing, known_leader) (looked found)
  ]
    where
      looked :
          (f : Result (Option LeaderInfo))
          → Follows host services
              (look_of f)
              (after_look host services worker_service "kill_follower" f)
      looked (raise e) = refl
      looked (ok none) = refl
      looked (ok (some info)) = kill_follower-Spared info.ecs_service

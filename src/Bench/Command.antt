-- ===== src/Bench/Command.antt =====
-- `cmd_chaos` of chaos-bench/main.py: one fault from the command line. What `find_leader` returns is an
-- argument, as are the calls of ECS.
pub mod Spares
mod Tests
use driftless.Prelude.{
  ℕ, String, Bool, true, false, not, ◌&&◌, ◌||◌, Option, none, some, List, [], ◌==◌, string_eq,
  if◌then◌else◌, filter_by, get_or,
}
use driftless.Bench.Result.{Result, ok, raise}
use driftless.Bench.LeaderDetect.{LeaderInfo}
use driftless.Bench.Chaos.{Host, KillResult, Stopped, kill_leader, kill_follower, kill_worker}

pub record Args : Type 0 where
  pub target : String
  pub leader_service : Option String

-- The exit code, and the kill that is printed.
pub record Exit : Type 0 where
  pub code : ℕ
  pub printed : Option KillResult

abbrev pub Ended : Type 0
Ended = Result Exit × List String

-- `not leader_service`
abbrev pub is_given : Option String → Bool
is_given none = false
is_given (some s) = not (s == "")

abbrev pub exit_of : Stopped → Ended
exit_of (raise e, stopped) = (raise e, stopped)
exit_of (ok r, stopped) = (ok (record { code = 0; printed = r }), stopped)

module _ (host : Host) (services : List String) (worker_service : String) where
  unfoldable pub run_target : String → String → Ended
  run_target target leader_service =
      if target == "kill_leader"
      then exit_of (kill_leader host leader_service)
      else if target == "kill_follower"
      then exit_of (kill_follower host (filter_by (λ s. not (s == leader_service)) services))
      else if target == "kill_worker"
      then exit_of (kill_worker host worker_service)
      else (ok (record { code = 2; printed = none }), [])

  -- The leader is looked for if the target needs it and no service is given.
  unfoldable pub after_look : String → Result (Option LeaderInfo) → Ended
  unfolding run_target
  after_look target (raise e) = (raise e, [])
  after_look target (ok none) = (ok (record { code = 3; printed = none }), [])
  after_look target (ok (some info)) = run_target target info.ecs_service

  unfoldable pub cmd_chaos : Result (Option LeaderInfo) → Args → Ended
  unfolding run_target after_look
  cmd_chaos found args =
      if (args.target == "kill_leader" || args.target == "kill_follower")
        && not (is_given args.leader_service)
      then after_look args.target found
      else run_target args.target (get_or args.leader_service "")

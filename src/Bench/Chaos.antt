-- ===== src/Bench/Chaos.antt =====
-- chaos-bench/chaos.py: the faults that a run injects, and one turn of the kill loops of
-- chaos-bench/exp3.py. The calls of ECS and SQS, the clock and the random choices are parameters.
pub mod Kills
pub mod Redelivery
mod Tests
use driftless.Prelude.{
  ℕ, ◌+◌, leb, String, Bool, true, false, not, ◌||◌, Option, none, some, List, [], ◌∷◌, ◌++◌, ◌==◌,
  string_eq, if◌then◌else◌, filter_by,
}
use driftless.Bench.Result.{Result, ok, raise, Error, ◌>>=◌}
use driftless.Bench.LeaderDetect.{LeaderInfo}

pub record KillResult : Type 0 where
  pub service : String
  pub task_arn : String
  pub killed_ns : ℕ

-- What the injector calls: the running tasks of a service, the stop of a task, the clock after it,
-- and the random choice from a list that is not empty (its head and its tail).
pub record Host : Type 0 where
  pub list_tasks : String → Result (List String)
  pub stop_task : String → Result (Unit {0})
  pub time_ns : ℕ
  pub choice : String → List String → String

-- The outcome of a step, with the tasks that it stopped.
abbrev pub Stopped : Type 0
Stopped = Result (Option KillResult) × List String

-- What a turn of a kill loop records.
pub data Fault : Type 0 where
  skip : (reason : String) → Fault
  killed : KillResult → Fault
  sqs_redeliver : ℕ → Fault
  error : Error → Fault

abbrev pub fault_of : String → Result (Option KillResult) → Fault
fault_of reason (raise e) = error e
fault_of reason (ok none) = skip reason
fault_of reason (ok (some res)) = killed res

-- `[s for s in cfg.coordinator_services if s != info.ecs_service]`
unfoldable pub followers : LeaderInfo → List String → List String
followers info services = filter_by (λ s. not (s == info.ecs_service)) services

module _ (host : Host) where
  unfoldable pub stop_one : String → List String → Stopped
  stop_one service [] = (ok none, [])
  stop_one service (arn ∷ arns) =
      let victim = host.choice arn arns in
      elim (host.stop_task victim) [
        | raise e ↦ (raise e, [])
        | ok u ↦ (
          ok (some (record { service = service; task_arn = victim; killed_ns = host.time_ns })),
          victim ∷ [],
        )
      ]

  unfoldable pub stop_random_task : String → Stopped
  unfolding stop_one
  stop_random_task service = elim (host.list_tasks service) [
    | raise e ↦ (raise e, [])
    | ok arns ↦ stop_one service arns
  ]

  unfoldable pub kill_leader : String → Stopped
  kill_leader leader_service = stop_random_task leader_service

  unfoldable pub kill_follower : List String → Stopped
  kill_follower [] = (ok none, [])
  kill_follower (s ∷ services) = stop_random_task (host.choice s services)

  unfoldable pub kill_worker : String → Stopped
  kill_worker worker_service = stop_random_task worker_service

  -- One turn of `_kill_loop` of chaos-bench/exp1.py, after `find_leader`; an exception ends the loop.
  unfoldable pub kill_turn : Result (Option LeaderInfo) → Result Fault × List String
  kill_turn (raise e) = (raise e, [])
  kill_turn (ok none) = (ok (skip "no leader detected"), [])
  kill_turn (ok (some info)) =
      let (res, stopped) = kill_leader info.ecs_service in
      (elim res [ raise e ↦ raise e | ok r ↦ ok (fault_of "no running task" (ok r)) ], stopped)

  -- One turn of `_kill_leader_loop`, after `find_leader`.
  unfoldable pub kill_leader_turn : Result (Option LeaderInfo) → Fault × List String
  kill_leader_turn (raise e) = (error e, [])
  kill_leader_turn (ok none) = (skip "no leader detected", [])
  kill_leader_turn (ok (some info)) =
      let (res, stopped) = kill_leader info.ecs_service in (fault_of "no running task" res, stopped)

  -- One turn of `_kill_follower_loop`, after `find_leader`.
  unfoldable pub kill_follower_turn : List String → Result (Option LeaderInfo) → Fault × List String
  unfolding followers
  kill_follower_turn services (raise e) = (error e, [])
  kill_follower_turn services (ok none) = (skip "no leader detected", [])
  kill_follower_turn services (ok (some info)) =
      let (res, stopped) = kill_follower (followers info services) in
      (fault_of "no follower tasks" res, stopped)

-- One change of a message's visibility: done, or the code of the ClientError.
pub data Change : Type 0 where
  changed : Change
  failed : (code : String) → Change

-- The codes of a message that was already processed and deleted.
unfoldable pub is_gone : String → Bool
is_gone code = code == "InvalidParameterValue" || code == "ReceiptHandleIsInvalid"

-- `min(count, 10)`
abbrev pub asked : ℕ → ℕ
asked count = if leb count 10 then count else 10

module _ (change : String → Change) where
  -- The loop over the messages, by their receipt handles.
  unfoldable pub redeliver : List String → ℕ → Result ℕ
  redeliver [] redelivered = ok redelivered
  redeliver (handle ∷ handles) redelivered = elim (change handle) [
    | changed ↦ redeliver handles (redelivered + 1)
    | failed code ↦ if is_gone code then redeliver handles redelivered else raise Error.client_error
  ]

  -- `receive` takes the number of messages asked for.
  unfoldable pub inject_sqs_redelivery : (ℕ → List String) → ℕ → Result ℕ
  unfolding redeliver
  inject_sqs_redelivery receive count = redeliver (receive (asked count)) 0

-- One turn of `_sqs_redeliver_loop`.
unfoldable pub redeliver_turn : (String → Change) → (ℕ → List String) → Fault
unfolding inject_sqs_redelivery
redeliver_turn change receive = elim (inject_sqs_redelivery change receive 5) [
  | raise e ↦ error e
  | ok n ↦ sqs_redeliver n
]

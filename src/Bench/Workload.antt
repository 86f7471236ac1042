-- ===== src/Bench/Workload.antt =====
-- `run_bench` of chaos-bench/bench.py: a loop hands submissions to one pool of threads, each of which
-- hands the poll of its task to another pool, and both pools are shut down in turn. The pools' threads
-- and the loop take their steps in any order.
pub mod Accounts
pub mod Ends
mod Tests
use driftless.Prelude.{ℕ, ◌+◌, suc, String, Bool, true, false, List, [], ◌∷◌, ◌++◌, ◌≡◌}

pub record Job : Type 0 where
  pub task_id : String
  pub submitted_ns : ℕ

-- The lines that the loop and the threads record; the last of the poll is `complete` or `timeout`.
pub data Line : Type 0 where
  run_start : Line
  submitted : Job → Line
  outcome : Job → (completed_ns : ℕ) (status : String) → Line
  run_end : Line

-- The loop submits; it waits for the submit pool; it waits for the poll pool; both pools are done; the
-- run has returned.
pub data Phase : Type 0 where
  firing closing draining finished returned : Phase

-- The submissions that wait in their pool, the tasks that were submitted and recorded and are about to
-- be handed over, the polls that are queued or run, and the history. `raised` are the tasks whose poll
-- raised, an exception that the pool keeps to itself.
pub record Workload : Type 0 where
  pub phase : Phase
  pub waiting : ℕ
  pub handing : List Job
  pub polling : List Job
  pub raised : List Job
  pub history : List Line

-- A pool takes no job once it is shut down.
unfoldable pub takes_polls : Phase → Bool
takes_polls firing = true
takes_polls closing = true
takes_polls draining = false
takes_polls finished = false
takes_polls returned = false

abbrev pub start : Workload
start = record {
  phase = firing;
  waiting = 0;
  handing = [];
  polling = [];
  raised = [];
  history = run_start ∷ [];
}

pub data Step : Workload → Workload → Type 0 where
  -- `submit_pool.submit(do_submit)`
  fire : (w : Workload) → w.phase ≡ firing → Step w (record w { waiting = w.waiting + 1 })
  -- A submission succeeds and is recorded.
  submit :
      (w : Workload) (n : ℕ) (job : Job)
      → w.waiting ≡ suc n
      → Step w (record w {
        waiting = n;
        handing = job ∷ w.handing;
        history = w.history ++ submitted job ∷ [];
      })
  -- A submission raises.
  submit_raises : (w : Workload) (n : ℕ) → w.waiting ≡ suc n → Step w (record w { waiting = n })
  -- `poll_pool.submit(_poll_to_completion, …)`
  hand_over :
      (w : Workload) (before after : List Job) (job : Job)
      → takes_polls w.phase ≡ true
      → w.handing ≡ before ++ job ∷ after
      → Step w (record w { handing = before ++ after; polling = w.polling ++ job ∷ [] })
  -- A poll ends with its line.
  poll_ends :
      (w : Workload) (before after : List Job) (job : Job) (completed_ns : ℕ) (status : String)
      → w.polling ≡ before ++ job ∷ after
      → Step w (record w {
        polling = before ++ after;
        history = w.history ++ outcome job completed_ns status ∷ [];
      })
  -- A poll raises.
  poll_raises :
      (w : Workload) (before after : List Job) (job : Job)
      → w.polling ≡ before ++ job ∷ after
      → Step w (record w { polling = before ++ after; raised = job ∷ w.raised })
  -- The loop ends, and `submit_pool.shutdown(wait=True)` begins to wait.
  close : (w : Workload) → w.phase ≡ firing → Step w (record w { phase = closing })
  -- The submit pool is done, and `poll_pool.shutdown(wait=True)` begins to wait.
  drain :
      (w : Workload)
      → w.phase ≡ closing
      → w.waiting ≡ 0
      → w.handing ≡ []
      → Step w (record w { phase = draining })
  -- The poll pool is done.
  finish :
      (w : Workload) → w.phase ≡ draining → w.polling ≡ [] → Step w (record w { phase = finished })
  -- `rec.record(op="run_end")`
  end_run :
      (w : Workload)
      → w.phase ≡ finished
      → Step w (record w { phase = returned; history = w.history ++ run_end ∷ [] })

-- Some steps one after the other, and how many.
pub data Run : Workload → ℕ → Workload → Type 0 where
  still : (w : Workload) → Run w 0 w
  goes_on : (w v u : Workload) (n : ℕ) → Step w v → Run v n u → Run w (suc n) u

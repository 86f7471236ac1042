-- ===== src/Lib.antt =====
-- Verification of Driftless: the Python side of a Raft task coordinator, that is, the state observer
-- that watches the coordinators and the chaos benchmark that loads a cluster, injects faults and
-- scans what is left of a run.
--
-- The parts and how they interact.
--   state-observer/ polls `GET /state` of every coordinator into a snapshot (raft_client.py), and
--   hands each snapshot to the alerts (alerts.py, over SNS), to the metrics (metrics.py, for
--   Prometheus and CloudWatch) and, with the active alerts, to the dashboard (dashboard.py).
--   chaos-bench/ submits tasks and polls each to its end, kills tasks of the leader or of a
--   follower while that runs, tracks the leader, and records all of it in a history of JSON
--   lines. After a run it reads the history and the table of tasks, and gives a verdict.
--   Experiment 1 resets the cluster before each of its runs; experiments 1 and 3 run the
--   workload, the fault loops and the tracker as threads that share a stop event and the
--   history; experiment 4 waits for the leader's log to grow, kills a follower cold and
--   observes its recovery.
--   The plots (chaos-bench/plot.py, experiments/exp3/plot_exp3.py) read such a history, or the
--   verdict, again.
--   experiments/metrics-collector/ appends a row for each run of experiment 2 to a CSV file, and
--   experiments/exp2/plot_exp2.py reads the rows.
--
-- Which file models which part.
--   Prelude: Python's lists, dicts, texts, integers and rounding, on the native numbers.
--   Observer.Cluster: state-observer/raft_client.py (NodeState, ClusterSnapshot, RaftClusterClient).
--   Observer.Alerts: state-observer/alerts.py (AlertManager); a check takes the manager's state and
--   returns the new one with the messages that it put to SNS.
--   Observer.Metrics: state-observer/metrics.py (MetricsPublisher); the gauges are a registry, and
--   the data pending for CloudWatch are in the publisher's state.
--   Observer.Panels, Observer.Dashboard: state-observer/dashboard.py; a panel is its texts with their
--   styles, and the samples behind the commit rate are in the dashboard's state.
--   Observer.Config, Bench.Config: `from_env` of state-observer/config.py and chaos-bench/config.py.
--   Observer.Run: state-observer/main.py and peers.py; the loop that polls and the task that refreshes
--   the addresses are steps of one sequence, in any order.
--   Bench.Result: exceptions as values.
--   Bench.Table: the items of DynamoDB and the loop over BatchGetItem that two scans share.
--   Bench.History: the lines that chaos-bench/recorder.py writes, and the reader of task ids.
--   Bench.DupScan, Bench.DivergenceScan: chaos-bench/dup_scan.py and divergence_scan.py.
--   Bench.Deadline: how the loops `while time.time() < deadline` end; the polls and waits
--   below rest on it.
--   Bench.Polling: `_poll_to_completion` of chaos-bench/bench.py and its traced form in exp3.py.
--   Bench.Workload: `run_bench` of bench.py, as a step relation on its loop and its two pools.
--   Bench.Campaign: `run_exp3` of chaos-bench/exp3.py and `run_exp1` of exp1.py with their workers,
--   fault loops and tracker, as a step relation on all of their threads, on Bench.Workload,
--   Bench.Chaos and Bench.LeaderTracker; Bench.Campaign.Entries has the lines of
--   chaos-bench/recorder.py. Bench.Command: `cmd_chaos` of chaos-bench/main.py.
--   Bench.Analysis: `analyze` of chaos-bench/exp1.py. Bench.Faults: `analyze` of exp3.py.
--   Bench.LeaderTracker, Bench.LeaderDetect: chaos-bench/leader_tracker.py and leader_detect.py.
--   Bench.FollowerRecovery: chaos-bench/follower_recovery.py.
--   Bench.Chaos: chaos-bench/chaos.py, and one turn of each kill loop of exp3.py.
--   Bench.Submitter: chaos-bench/submitter.py.
--   Bench.Repeat: `run_exp1_repeat` of exp1.py with its iterations and their summary.
--   Bench.CommitWait: `_latest_leader_commit` and `_wait_for_commit` of chaos-bench/exp4.py.
--   Bench.Exp4: `run_exp4` with its helpers, on Bench.CommitWait, Bench.Chaos and
--   Bench.FollowerRecovery. Bench.Reset: `_reset_cluster` of exp1.py.
--   Plots.Timeline: the counters of `fig_task_state_timeline` of experiments/exp3/plot_exp3.py.
--   Plots.Summary: the bars of the dashboard and of figure 4 of the same file.
--   Plots.Throughput: `analyze` of chaos-bench/plot.py.
--   Plots.Scorecard: `get`, `_fmt` and the scorecard of experiments/exp2/plot_exp2.py.
--   Collector: the latencies and lags of experiments/metrics-collector/collect.py; its `parse_ts` is
--   Collector.Timestamp, the row of `main` Collector.Report, and the file Collector.Csv.
--   Beside a component stand its lemmas, named for what they prove, and its Tests.
--
-- Parameters: the HTTP client, the clocks, SNS, CloudWatch, BatchGetItem, S3, ECS, SQS, the
-- environment, the regular expressions over log messages, the random choices, the rounding of a
-- latency and the linearizability checker are arguments of the definitions that call them. What is
-- asked of them are hypotheses: a BatchGetItem call that is not refused processes at least one key
-- and returns the rows of the keys that it processed; a sleep lets the clock go on; a choice picks
-- an element; SQS gives at most as many messages as asked for; rounding keeps the order.
--
-- Numbers. Indices, terms and counts are whole numbers. Times are whole nanoseconds where the source
-- has seconds as floats or nanoseconds, and a percentile's index is rounded from the exact product.
-- A mean is given as its sum and its count.
--
-- Fuel. The loop that drains a chunk of keys has the number of its keys as fuel, since each call
-- leaves fewer; the loops that poll a task, wait for a commit index or wait for the quorum have one
-- more than their timeout in nanoseconds, since each turn ends at least a nanosecond later. That no
-- loop runs out of it is part of the theorems.
--
-- Not modelled: the threads, but for those of Bench.Workload and Bench.Campaign (elsewhere a run of a
-- loop is the list of what its turns see), the periods and joins of threads, the writing of files,
-- logging, the parsing of command lines and the drawing of plots and panels; which call made a poll
-- raise, which ends the polls of its task without an entry (Bench.Workload keeps the task as raised);
-- the percentiles that NumPy computes; `datetime.fromisoformat`; the Go services, which are not
-- Python; Terraform.
pub mod Prelude
pub mod Observer
pub mod Bench
pub mod Collector
pub mod Plots

-- ===== src/Bench/Config.antt =====
-- `Config.from_env` of chaos-bench/config.py. The environment is a parameter.
use driftless.Prelude.{String, Option, List, [], ◌∷◌, get_or}
use driftless.Prelude.Text.{concat}
use driftless.Prelude.Names.{names_of}

pub record Config : Type 0 where
  pub aws_region : String
  pub account_id : String
  pub cluster_name : String
  pub tasks_table : String
  pub peers_table : String
  pub payload_bucket : String
  pub snapshot_bucket : String
  pub ingest_queue_url : String
  pub coordinator_services : List String
  pub worker_service : String
  pub ingest_service : String
  pub history_dir : String

module _ (env : String → Option String) where
  -- `os.environ.get(key, default)`
  unfoldable pub var : String → String → String
  var key default = get_or (env key) default

  -- `f"{project}-{env}"` and what is appended to it.
  unfoldable pub prefixed : String → String
  unfolding var
  prefixed rest =
      concat
        (var "DRIFTLESS_PROJECT" "raft-coordinator" ∷ "-" ∷ var "DRIFTLESS_ENV" "dev" ∷ rest ∷ [])

  unfoldable pub from_env : Config
  unfolding prefixed
  from_env =
      let region = var "AWS_REGION" "us-east-1" in
      let account = var "AWS_ACCOUNT_ID" "" in
      record {
        aws_region = region;
        account_id = account;
        cluster_name = var "CLUSTER_NAME" (prefixed "-cluster");
        tasks_table = var "TASKS_TABLE" (prefixed "-tasks");
        peers_table = var "PEERS_TABLE" (prefixed "-peers");
        payload_bucket = var "PAYLOAD_BUCKET" (concat (prefixed "-task-data-" ∷ account ∷ []));
        snapshot_bucket =
            var "SNAPSHOT_BUCKET" (concat (prefixed "-raft-snapshots-" ∷ account ∷ []));
        ingest_queue_url = var "INGEST_QUEUE_URL" (
            concat (
              "https://sqs."
              ∷ region
              ∷ ".amazonaws.com/"
              ∷ account
              ∷ "/"
              ∷ prefixed "-ingest"
              ∷ []));
        coordinator_services = names_of (var "COORDINATOR_SERVICES" (prefixed "-coordinator-a"));
        worker_service = var "WORKER_SERVICE" (prefixed "-worker");
        ingest_service = var "INGEST_SERVICE" (prefixed "-ingest");
        history_dir = var "HISTORY_DIR" "./histories";
      }

-- ===== src/Observer/Config.antt =====
-- `Config.from_env` of state-observer/config.py. The environment and the reading of a float are
-- parameters; intervals are in nanoseconds.
pub mod Joined
mod Tests
use driftless.Prelude.{ℕ, String, Bool, Option, none, some, List, ◌==◌, string_eq, get_or}
use driftless.Prelude.Int.{ℤ, parse_int}
use driftless.Prelude.Names.{names_of}
use driftless.Bench.Result.{Result, ok, raise, value_error, ◌>>=◌}

pub record Config : Type 0 where
  pub coordinator_addrs : List String
  pub peers_table : String
  pub coordinator_node_ids : List String
  pub poll_interval : ℕ
  pub cw_namespace : String
  pub cw_publish_interval : ℕ
  pub prometheus_port : ℤ
  pub aws_region : String
  pub sns_topic_arn : String
  pub disable_cloudwatch : Bool
  pub disable_sns : Bool

-- `float(text)` or `int(text)`: no number is a ValueError.
abbrev pub number_of {ℓ} : {A : Type ℓ} → Option A → Result A
number_of none = raise value_error
number_of (some n) = ok n

module _ (env : String → Option String) (parse_float : String → Option ℕ) where
  -- `os.environ.get(key, default)`
  unfoldable pub var : String → String → String
  var key default = get_or (env key) default

  unfoldable pub from_env : Result Config
  unfolding var
  from_env = number_of (parse_float (var "POLL_INTERVAL_S" "2")) >>= λ poll_interval.
      (number_of (parse_float (var "CW_PUBLISH_INTERVAL_S" "60")) >>= λ cw_interval.
      (number_of (parse_int (var "PROMETHEUS_PORT" "9090")) >>= λ port. ok (record {
        coordinator_addrs = names_of (var "COORDINATOR_ADDRS" "localhost:8080");
        peers_table = var "PEERS_TABLE" "";
        coordinator_node_ids = names_of (var "COORDINATOR_NODE_IDS" "");
        poll_interval = poll_interval;
        cw_namespace = var "CW_NAMESPACE" "Driftless/Raft";
        cw_publish_interval = cw_interval;
        prometheus_port = port;
        aws_region = var "AWS_REGION" "us-east-1";
        sns_topic_arn = var "SNS_TOPIC_ARN" "";
        disable_cloudwatch = var "DISABLE_CLOUDWATCH" "0" == "1";
        disable_sns = var "DISABLE_SNS" "0" == "1";
      })))

-- ===== src/Observer/Config/Joined.antt =====
-- The addresses that the environment gives.
use driftless.Prelude.{ℕ, String, Option, some, List, ◌≡◌, refl, All}
use driftless.Prelude.Text.{join}
use driftless.Prelude.Int.{parse_int}
use driftless.Prelude.Names.{IsName, names_of-join}
use driftless.Bench.Result.{ok}
use driftless.Observer.Config.{Config, var, from_env}

-- The numbers of the environment can be read.
pub record IsReadable (env : String → Option String) (parse_float : String → Option ℕ)
    : Type 0 where
  pub poll : (t : ℕ) × (parse_float (var env parse_float "POLL_INTERVAL_S" "2") ≡ some t)
  pub publish : (t : ℕ) × (parse_float (var env parse_float "CW_PUBLISH_INTERVAL_S" "60") ≡ some t)
  pub port : (n : _) × (parse_int (var env parse_float "PROMETHEUS_PORT" "9090") ≡ some n)

-- Where the numbers of the environment can be read and COORDINATOR_ADDRS holds names joined by commas,
-- the configuration can be read and has exactly these addresses, in their order.
pub from_env-addrs :
    (env : String → Option String) (parse_float : String → Option ℕ) (addrs : List String)
    → IsReadable env parse_float
    → env "COORDINATOR_ADDRS" ≡ some (join "," addrs)
    → All IsName addrs
    → (cfg : Config) × (from_env env parse_float ≡ ok cfg) × (cfg.coordinator_addrs ≡ addrs)
unfolding from_env var
from_env-addrs env parse_float addrs readable set names =
    rw (readable.poll.1, from_env)
      (rw (readable.publish.1, from_env)
        (rw (readable.port.1, from_env) (_, refl, rw set (names_of-join addrs names))))

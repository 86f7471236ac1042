-- ===== src/Observer/Config/Tests.antt =====
-- The configuration of a cluster of two.
use driftless.Prelude.{
  ℕ, String, Option, none, some, List, [], ◌∷◌, ◌≡◌, refl, string_eq, ◌==◌, if◌then◌else◌, All,
}
use driftless.Prelude.Int.{parse_int, pos}
use driftless.Prelude.Text.{join}
use driftless.Prelude.Names.{strip, lstrip, rstrip, IsName}
use driftless.Bench.Result.{ok}
use driftless.Observer.Config.{Config, var, from_env}
use driftless.Observer.Config.Joined.{IsReadable, from_env-addrs}

abbrev env : String → Option String
env key = if key == "COORDINATOR_ADDRS" then some "a:80,b:80" else none

abbrev parse_float : String → Option ℕ
parse_float text = if text == "2" then some 2000000000 else some 60000000000

abbrev addrs : List String
addrs = "a:80" ∷ "b:80" ∷ []

env-IsReadable : IsReadable env parse_float
unfolding var parse_int
env-IsReadable = record {
  poll = (2000000000, refl);
  publish = (60000000000, refl);
  port = (pos 9090, refl);
}

joined : env "COORDINATOR_ADDRS" ≡ some (join "," addrs)
unfolding join
joined = refl

addrs-names : All IsName addrs
unfolding strip lstrip rstrip
addrs-names = (
  ((refl, (refl, (refl, (refl, tt)))), refl, refl),
  (((refl, (refl, (refl, (refl, tt)))), refl, refl), tt),
)

from_env-addrs_example :
    (cfg : Config) × (from_env env parse_float ≡ ok cfg) × (cfg.coordinator_addrs ≡ addrs)
from_env-addrs_example = from_env-addrs env parse_float addrs env-IsReadable joined addrs-names

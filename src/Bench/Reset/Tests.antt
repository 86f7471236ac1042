-- ===== src/Bench/Reset/Tests.antt =====
-- A reset of two coordinators, which are both up at the second turn.
use driftless.Prelude.{
  ℕ, ◌*◌, zero, suc, String, Bool, true, false, List, [], ◌∷◌, ◌++◌, ◌≡◌, refl, arith, string_eq,
  nat_eq, ◌==◌,
}
use driftless.Prelude.Dict.{lookup}
use driftless.Prelude.Int.{parse_int}
use driftless.Bench.Result.{ok, raise, Error}
use driftless.Bench.Deadline.{IsPaced}
use driftless.Bench.Table.{Item, text, number, bool, get_s, get_n, get_bool}
use driftless.Bench.Reset.{
  Site, delete_objects, stop_task, heartbeat, is_beating, see_item, see_items, has_quorum, ready,
  delete_pages, stop_tasks, stop_services, await_from, await_quorum, reset_cluster,
}
use driftless.Bench.Reset.Returns.{deletions, all_stops, reset_cluster-returns}

abbrev peer : String → String → Bool → Item
peer id beat leads =
    ("node_id", text id) ∷ ("heartbeat_ts", number beat) ∷ ("is_leader", bool leads) ∷ []

abbrev peers : List Item
peers = peer "a" "100" false ∷ peer "b" "101" true ∷ peer "c" "7" true ∷ []

abbrev scanned : ℕ → List Item
scanned zero = []
scanned (suc k) = peers

abbrev running : String → List String
running svc = elim (svc == "svc-a") [ true ↦ "arn-1" ∷ "arn-2" ∷ [] | false ↦ "arn-3" ∷ [] ]

abbrev site : Site
site = record {
  pages = ("raft/a/snapshot.json" ∷ []) ∷ [] ∷ [];
  deletes = λ keys. ok tt;
  list_tasks = λ svc. ok (running svc);
  stops = λ arn. ok tt;
  started = 0;
  checked = λ k. k * 5;
  scan = λ k. ok (scanned k);
  now = λ k. 102000000000;
}

program : Unit {0}
unfolding lookup parse_int get_s get_n get_bool heartbeat is_beating see_item see_items has_quorum
    ready delete_pages stop_tasks stop_services await_from await_quorum reset_cluster
program = tt

reset_runs : reset_cluster site ("svc-a" ∷ "svc-b" ∷ []) 20 ≡ (
  ok tt,
  delete_objects ("raft/a/snapshot.json" ∷ [])
      ∷ stop_task "arn-1"
      ∷ stop_task "arn-2"
      ∷ stop_task "arn-3"
      ∷ [],
)
unfolding program
reset_runs = refl

site-IsPaced : IsPaced site.started site.checked
site-IsPaced = record { first = omega arith; later = λ k. omega arith }

scans_well : (i : ℕ) (e : Error) → ready site 2 i ≡ raise e → ⊥
unfolding program
scans_well i e h = absurd (cc)

second_scan : ready site 2 1 ≡ ok true
unfolding program
second_scan = refl

reset_cluster-returns_example :
    reset_cluster site ("svc-a" ∷ "svc-b" ∷ []) 20
    ≡ (ok tt, deletions site.pages ++ all_stops running ("svc-a" ∷ "svc-b" ∷ []))
reset_cluster-returns_example =
    reset_cluster-returns site (λ keys. refl) (λ arn. refl) running ("svc-a" ∷ "svc-b" ∷ []) 20 1
      (λ svc. refl) scans_well site-IsPaced (omega arith) second_scan

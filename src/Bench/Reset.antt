-- ===== src/Bench/Reset.antt =====
-- `_reset_cluster` of chaos-bench/exp1.py: the snapshots are deleted, every coordinator's task is
-- stopped, and a loop waits for fresh heartbeats of all coordinators and a leader. S3, ECS, the scan of
-- the peers table and the clock are parameters. Times are in nanoseconds.
pub mod Quorum
pub mod Returns
mod Tests
use driftless.Prelude.{
  ℕ, ◌+◌, ◌-◌, ◌*◌, zero, suc, ltb, leb, String, Bool, true, false, ◌&&◌, Option, none, some, List,
  [], ◌∷◌, ◌++◌, if◌then◌else◌, is_some, length,
}
use driftless.Prelude.Int.{ℤ, pos, negsuc, parse_int}
use driftless.Bench.Result.{Result, ok, raise, runtime_error, out_of_fuel, ◌>>=◌}
use driftless.Bench.Table.{Item, get_s, get_n, get_bool}

-- A call that changes something outside.
pub data Call : Type 0 where
  delete_objects : (keys : List String) → Call
  stop_task : (task : String) → Call

-- The services that the reset calls, and what the turns of its wait see: the reading of the loop's
-- test, the items of the scan and the reading after it.
pub record Site : Type 0 where
  pub pages : List (List String)
  pub deletes : List String → Result (Unit {0})
  pub list_tasks : String → Result (List String)
  pub stops : String → Result (Unit {0})
  pub started : ℕ
  pub checked : ℕ → ℕ
  pub scan : ℕ → Result (List Item)
  pub now : ℕ → ℕ

-- The outcome of a step and the calls that it made.
abbrev pub Done : Type 0
Done = Result (Unit {0}) × List Call

-- One step after the other: an exception ends both.
abbrev pub and_then : Done → Done → Done
and_then (raise e, calls) next = (raise e, calls)
and_then (ok u, calls) (r, more) = (r, calls ++ more)

-- The seconds of a heartbeat: 0 if the attribute is missing, empty or no number.
unfoldable pub heartbeat : Item → ℤ
heartbeat it = elim (get_n "heartbeat_ts" it) [
  | none ↦ pos 0
  | some text ↦ elim (parse_int text) [ none ↦ pos 0 | some n ↦ n ]
]

-- `now - hb < 3.0`
unfoldable pub is_beating : ℕ → Item → Bool
unfolding heartbeat
is_beating now it = elim (heartbeat it) [
  | pos hb ↦ ltb now ((hb + 3) * 1000000000)
  | negsuc n ↦ ltb now ((2 - n) * 1000000000)
]

-- The counter and the leader that a loop over the items keeps.
pub record Seen : Type 0 where
  pub fresh : ℕ
  pub leader : Option String

unfoldable pub see_item : ℕ → Item → Seen → Seen
unfolding is_beating
see_item now it s =
    if is_beating now it
    then record {
      fresh = s.fresh + 1;
      leader = if get_bool "is_leader" it then get_s "node_id" it else s.leader;
    }
    else s

unfoldable pub see_items : ℕ → List Item → Seen → Seen
unfolding see_item
see_items now [] s = s
see_items now (it ∷ items) s = see_items now items (see_item now it s)

-- `fresh >= want and leader is not None`
unfoldable pub has_quorum : ℕ → ℕ → List Item → Bool
unfolding see_items
has_quorum want now items =
    let s = see_items now items (record { fresh = 0; leader = none }) in
    leb want s.fresh && is_some s.leader

module _ (site : Site) where
  -- The loop over the pages of the bucket's listing.
  unfoldable pub delete_pages : List (List String) → Done
  delete_pages [] = (ok tt, [])
  delete_pages ([] ∷ pages) = delete_pages pages
  delete_pages ((k ∷ keys) ∷ pages) = elim (site.deletes (k ∷ keys)) [
    | raise e ↦ (raise e, [])
    | ok u ↦ and_then (ok u, delete_objects (k ∷ keys) ∷ []) (delete_pages pages)
  ]

  unfoldable pub stop_tasks : List String → Done
  stop_tasks [] = (ok tt, [])
  stop_tasks (a ∷ arns) = elim (site.stops a) [
    | raise e ↦ (raise e, [])
    | ok u ↦ and_then (ok u, stop_task a ∷ []) (stop_tasks arns)
  ]

  -- The loop over the services.
  unfoldable pub stop_services : List String → Done
  unfolding stop_tasks
  stop_services [] = (ok tt, [])
  stop_services (svc ∷ services) = elim (site.list_tasks svc) [
    | raise e ↦ (raise e, [])
    | ok arns ↦ and_then (stop_tasks arns) (stop_services services)
  ]

  -- Whether turn `k` sees the quorum.
  unfoldable pub ready : ℕ → ℕ → Result Bool
  unfolding has_quorum
  ready want k = site.scan k >>= λ items. ok (has_quorum want (site.now k) items)

  -- `while time.time() < deadline`
  unfoldable pub await_from : ℕ → ℕ → ℕ → ℕ → Result (Unit {0})
  unfolding ready
  await_from want deadline zero k = raise out_of_fuel
  await_from want deadline (suc f) k =
      let rest = await_from want deadline f (k + 1) in
      if ltb (site.checked k) deadline
      then (elim (ready want k) [ raise e ↦ raise e | ok seen ↦ if seen then ok tt else rest ])
      else raise runtime_error

  unfoldable pub await_quorum : ℕ → ℕ → Result (Unit {0})
  unfolding await_from
  await_quorum want timeout_ns = await_from want (site.started + timeout_ns) (suc timeout_ns) 0

  unfoldable pub reset_cluster : List String → ℕ → Done
  unfolding delete_pages stop_services await_quorum
  reset_cluster services ready_timeout_ns =
      and_then (delete_pages site.pages)
        (and_then (stop_services services) (await_quorum (length services) ready_timeout_ns, []))

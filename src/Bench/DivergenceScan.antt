-- ===== src/Bench/DivergenceScan.antt =====
-- chaos-bench/divergence_scan.py: the tasks of a history that are stuck or have no row.
pub mod Sound
use driftless.Prelude.{
  ℕ, String, Bool, true, false, not, Option, none, some, List, [], ◌∷◌, ◌++◌, ◌==◌, string_eq,
  if◌then◌else◌, length, take, contains, filter_by, get_or,
}
use driftless.Bench.Result.{Result, ok, raise, key_error, ◌>>=◌}
use driftless.Bench.History.{Line, task_ids_from_history}
use driftless.Bench.Table.{Item, Reply, get_s, scan_table}

pub record DivergenceScanResult : Type 0 where
  pub total_scanned : ℕ
  pub stuck_pending : ℕ
  pub stuck_assigned : ℕ
  pub missing : ℕ
  pub stuck_pending_sample : List String
  pub stuck_assigned_sample : List String
  pub missing_sample : List String

-- The samples are cut to 20 ids when they are printed.
unfoldable pub to_dict : DivergenceScanResult → DivergenceScanResult
to_dict r = record r {
  stuck_pending_sample = take 20 r.stuck_pending_sample;
  stuck_assigned_sample = take 20 r.stuck_assigned_sample;
  missing_sample = take 20 r.missing_sample;
}

-- The local variables of the scan. `found` is a set; the order of its list is not used.
pub record Stuck : Type 0 where
  pub stuck_pending : List String
  pub stuck_assigned : List String
  pub found : List String

unfoldable pub add_status : String → String → Stuck → Stuck
add_status tid status acc =
    let seen = record acc { found = acc.found ++ tid ∷ [] } in
    if status == "PENDING"
    then record seen { stuck_pending = acc.stuck_pending ++ tid ∷ [] }
    else if status == "ASSIGNED"
    then record seen { stuck_assigned = acc.stuck_assigned ++ tid ∷ [] }
    else seen

-- The body of the loop over the items of a response.
unfoldable pub visit_status : Item → Stuck → Result Stuck
unfolding add_status
visit_status item acc = elim (get_s "task_id" item) [
  | none ↦ raise key_error
  | some tid ↦ ok (add_status tid (get_or (get_s "status" item) "") acc)
]

unfoldable pub report : List String → Stuck → DivergenceScanResult
report ids acc =
    let missing = filter_by (λ tid. not (contains acc.found tid)) ids in
    record {
      total_scanned = length ids;
      stuck_pending = length acc.stuck_pending;
      stuck_assigned = length acc.stuck_assigned;
      missing = length missing;
      stuck_pending_sample = acc.stuck_pending;
      stuck_assigned_sample = acc.stuck_assigned;
      missing_sample = missing;
    }

abbrev nothing : DivergenceScanResult
nothing = record {
  total_scanned = 0;
  stuck_pending = 0;
  stuck_assigned = 0;
  missing = 0;
  stuck_pending_sample = [];
  stuck_assigned_sample = [];
  missing_sample = [];
}

abbrev start : Stuck
start = record { stuck_pending = []; stuck_assigned = []; found = [] }

-- `if not task_ids: return …`
scan_ids : (ℕ → List String → Reply) → List String → Result DivergenceScanResult
scan_ids batch_get [] = ok nothing
scan_ids batch_get (k ∷ ids) =
    scan_table batch_get visit_status (k ∷ ids) start >>= λ acc. ok (report (k ∷ ids) acc)

unfoldable pub scan : (ℕ → List String → Reply) → List Line → Result DivergenceScanResult
unfolding scan_ids report
scan batch_get lines = task_ids_from_history lines >>= scan_ids batch_get

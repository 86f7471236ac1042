-- ===== src/Bench/Tests.antt =====
-- The scans at the sample table and history.
use driftless.Prelude.{string_eq}
use driftless.Bench.DupScan.{scan as scan_dups}
use driftless.Bench.DupScan.Sound.{Reported as DupsReported, scan_dups-Reported}
use driftless.Bench.DivergenceScan.{scan as scan_divergence}
use driftless.Bench.DivergenceScan.Sound.{Reported as DivergenceReported, scan_divergence-Reported}
use driftless.Bench.Samples.{
  rows, one_key, one_key-IsBatchGet, history, ids, history-ids, rows-IsKeyed,
}

scan_dups-Reported_example : DupsReported rows ids (scan_dups (one_key rows) history)
scan_dups-Reported_example =
    scan_dups-Reported rows rows-IsKeyed (one_key rows) (one_key-IsBatchGet rows) history ids
      history-ids

scan_divergence-Reported_example :
    DivergenceReported rows ids (scan_divergence (one_key rows) history)
scan_divergence-Reported_example =
    scan_divergence-Reported rows rows-IsKeyed (one_key rows) (one_key-IsBatchGet rows) history ids
      history-ids

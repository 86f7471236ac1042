-- ===== src/Collector/Csv/Columns.antt =====
-- The rows of the collector in its CSV file.
use driftless.Prelude.{◌++◌, String, List, [], ◌∷◌, ◌≡◌, refl, sym, ap, ◌∙◌, All}
use driftless.Prelude.Dict.{Dict, keys}
use driftless.Prelude.Int.{ℤ}
use driftless.Prelude.Text.{concat}
use driftless.Collector.Csv.{values, append_row, append_rows, zip_fields, load_csv}
use driftless.Collector.Report.{Row, fields, lag_field}
use mathlib.Core.Path.{subst}
use mathlib.Core.List.{map, append_assoc, append-nil}

zip_fields-keys : (row : Dict String String) → zip_fields (keys row) (values row) ≡ row
unfolding zip_fields
zip_fields-keys [] = refl
zip_fields-keys ((k, v) ∷ row) = ap (◌∷◌ (k, v)) (zip_fields-keys row)

-- A file with a header and the lines of some rows.
append_rows-lines :
    (header : List String) (lines : List (List String)) (rows : List (Dict String String))
    → append_rows (header ∷ lines) rows ≡ header ∷ (lines ++ map values rows)
unfolding append_rows append_row
append_rows-lines header lines [] = ap (◌∷◌ header) (sym (append-nil lines))
append_rows-lines header lines (row ∷ rows) =
    append_rows-lines header (lines ++ values row ∷ []) rows
    ∙ ap (◌∷◌ header) (append_assoc lines (values row ∷ []) (map values rows))

read_back :
    (header : List String) (rows : List (Dict String String))
    → All (λ row. keys row ≡ header) rows
    → map (zip_fields header) (map values rows) ≡ rows
read_back header [] h = refl
read_back header (row ∷ rows) (same, h) =
    ap (λ r. r ∷ map (zip_fields header) (map values rows))
      (ap (λ ks. zip_fields ks (values row)) (sym same) ∙ zip_fields-keys row)
    ∙ ap (◌∷◌ row) (read_back header rows h)

-- Rows of the same fields that runs of the collector append to a new file are read back, all of them
-- and in their order.
load_csv-append_rows :
    (row : Dict String String) (rows : List (Dict String String))
    → All (λ r. keys r ≡ keys row) rows
    → load_csv (append_rows [] (row ∷ rows)) ≡ row ∷ rows
unfolding load_csv append_rows append_row
load_csv-append_rows row rows h =
    ap load_csv (append_rows-lines (keys row) (values row ∷ []) rows)
    ∙ read_back (keys row) (row ∷ rows) (refl, h)

abbrev lag_key : String → String
lag_key peer = concat ("rep_lag_" ∷ peer ∷ [])

keys-lag_fields : (lags : Dict String ℤ) → keys (map lag_field lags) ≡ map lag_key (keys lags)
keys-lag_fields [] = refl
keys-lag_fields ((peer, lag) ∷ lags) = ap (◌∷◌ (lag_key peer)) (keys-lag_fields lags)

-- The columns of a row, with the peers that it tells of.
abbrev columns : List String → List String
columns peers =
    "label"
    ∷ "n"
    ∷ "p50_ms"
    ∷ "p95_ms"
    ∷ "p99_ms"
    ∷ "max_ms"
    ∷ "min_ms"
    ∷ "submitted"
    ∷ "failed"
    ∷ "actual_rate_tpm"
    ∷ "collected_at"
    ∷ map lag_key peers

keys-fields : (r : Row) → keys (fields r) ≡ columns (keys r.rep_lags)
unfolding fields
keys-fields r = rw (keys-lag_fields r.rep_lags) refl

same_columns :
    (peers : List String) (rows : List Row)
    → All (λ r. keys r.rep_lags ≡ peers) rows
    → All (λ f. keys f ≡ columns peers) (map fields rows)
same_columns peers [] h = tt
same_columns peers (r ∷ rows) (same, h) =
    (keys-fields r ∙ ap columns same, same_columns peers rows h)

-- Rows that runs of the collector append to a new file, where each tells the lags of the same peers, are
-- read back by the plots of experiment 2, all of them, in their order and with their figures.
pub load_csv-rows :
    (peers : List String) (r : Row) (rows : List Row)
    → All (λ q. keys q.rep_lags ≡ peers) (r ∷ rows)
    → load_csv (append_rows [] (map fields (r ∷ rows))) ≡ map fields (r ∷ rows)
load_csv-rows peers r rows (same, h) = load_csv-append_rows (fields r) (map fields rows) (
    subst (λ ks. All (λ f. keys f ≡ ks) (map fields rows)) (sym (keys-fields r ∙ ap columns same))
      (same_columns peers rows h))

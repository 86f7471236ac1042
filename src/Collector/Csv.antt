-- ===== src/Collector/Csv.antt =====
-- The CSV file of the collector: `main` of experiments/metrics-collector/collect.py appends to it, and
-- `load_csv` of experiments/exp2/plot_exp2.py reads it. A file is its lines, each the list of its cells.
pub mod Columns
use driftless.Prelude.{
  String, Bool, Option, none, some, List, [], ◌∷◌, ◌++◌, ◌≡◌, refl, sym, ap, ◌∙◌, arith, All,
}
use driftless.Prelude.Dict.{Dict, keys}
use mathlib.Core.List.{append_assoc, append-nil, map}

abbrev pub CsvFile : Type 0
CsvFile = List (List String)

abbrev pub values : Dict String String → List String
values [] = []
values ((k, v) ∷ r) = v ∷ values r

-- The header is written into a file that is missing or empty, and the row's own fields are its columns.
unfoldable pub append_row : CsvFile → Dict String String → CsvFile
append_row [] row = keys row ∷ values row ∷ []
append_row (header ∷ lines) row = header ∷ (lines ++ values row ∷ [])

-- One run of the collector after the other.
unfoldable pub append_rows : CsvFile → List (Dict String String) → CsvFile
unfolding append_row
append_rows file [] = file
append_rows file (row ∷ rows) = append_rows (append_row file row) rows

-- `DictReader`, for lines with as many cells as the header.
unfoldable pub zip_fields : List String → List String → Dict String String
zip_fields [] vs = []
zip_fields (k ∷ ks) [] = []
zip_fields (k ∷ ks) (v ∷ vs) = (k, v) ∷ zip_fields ks vs

-- `list(csv.DictReader(f))`
unfoldable pub load_csv : CsvFile → List (Dict String String)
unfolding zip_fields
load_csv [] = []
load_csv (header ∷ lines) = map (zip_fields header) lines

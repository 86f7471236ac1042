-- ===== src/Bench/Table.antt =====
-- DynamoDB as chaos-bench sees it: items with typed attributes, and the loop over BatchGetItem that
-- dup_scan.py and divergence_scan.py share (chunks of 100 keys, and a retry of the keys that a
-- response leaves unprocessed). The service is a parameter: the n-th call, on its keys.
pub mod Reads
use driftless.Prelude.{
  ℕ, ◌+◌, ◌≤◌, ◌<◌, zero, suc, String, Bool, true, false, Option, none, some, List, [], ◌∷◌, ◌++◌,
  ◌≡◌, refl, ◌⊎◌, inl, inr, ◌==◌, string_eq, length, All, chunks,
}
use driftless.Prelude.Dict.{Dict, lookup}
use driftless.Bench.Result.{Result, ok, raise, Error, client_error, out_of_fuel, ◌>>=◌}
use mathlib.Core.List.{Perm, filter_map}

-- A typed value: `{"S": …}`, `{"N": …}` or `{"BOOL": …}`.
pub data Attr : Type 0 where
  text number : String → Attr
  bool : Bool → Attr

abbrev pub Item : Type 0
Item = Dict String Attr

-- `item.get(key, {}).get("S")`, `….get("N")` and `….get("BOOL", False)`
unfoldable pub get_s : String → Item → Option String
get_s key item = elim (lookup key item) [ some (text s) ↦ some s | _ ↦ none ]

unfoldable pub get_n : String → Item → Option String
get_n key item = elim (lookup key item) [ some (number n) ↦ some n | _ ↦ none ]

unfoldable pub get_bool : String → Item → Bool
get_bool key item = elim (lookup key item) [ some (bool b) ↦ b | _ ↦ false ]

-- One BatchGetItem call: the items found and the keys left unprocessed, or the exception.
pub data Reply : Type 0 where
  got : List Item → List String → Reply
  refused : Reply

pub Reply-cases :
    (r : Reply)
    → (r ≡ refused) ⊎ ((items : List Item) × (keys : List String) × (r ≡ got items keys))
Reply-cases refused = inl refl
Reply-cases (got items keys) = inr (items, keys, refl)

module _ {S : Type 0} (visit : Item → S → Result S) where
  -- The loop over the items of a response.
  unfoldable pub visit_all : List Item → S → Result S
  visit_all [] s = ok s
  visit_all (item ∷ items) s = visit item s >>= visit_all items

module _ {S : Type 0} (batch_get : ℕ → List String → Reply) (visit : Item → S → Result S) where
  -- `while to_fetch`; `n` counts the calls made so far.
  unfoldable pub drain : ℕ → ℕ → List String → S → Result (ℕ × S)
  drain f n [] s = ok (n, s)
  drain zero n (k ∷ keys) s = raise out_of_fuel
  drain (suc f) n (k ∷ keys) s = elim (batch_get n (k ∷ keys)) [
    | refused ↦ raise client_error
    | got items unprocessed ↦ visit_all visit items s >>= λ s'. drain f (n + 1) unprocessed s'
  ]

  unfoldable pub scan_chunks : ℕ → List (List String) → S → Result S
  scan_chunks n [] s = ok s
  scan_chunks n (c ∷ cs) s = drain (length c) n c s >>= λ (n', s'). scan_chunks n' cs s'

  -- The loop over the chunks of the keys.
  unfoldable pub scan_table : List String → S → Result S
  scan_table keys s = scan_chunks 0 (chunks 100 keys) s

-- What BatchGetItem documents, for a table that holds `rows` and does not change during the scan: a
-- call that is not refused processes at least one key, and returns, in any order, the items that
-- the processed keys have, and nothing that the table does not hold.
pub record IsBatchGet (rows : String → Option Item) (batch_get : ℕ → List String → Reply)
    : Type 0 where
  pub fewer :
      (n : ℕ) (k : String) (keys : List String) (items : List Item) (unprocessed : List String)
      → batch_get n (k ∷ keys) ≡ got items unprocessed
      → length unprocessed ≤ length keys
  pub served :
      (n : ℕ) (keys : List String) (items : List Item) (unprocessed : List String)
      → batch_get n keys ≡ got items unprocessed
      → (done : List String) × Perm (done ++ unprocessed) keys × Perm items (filter_map rows done)
  pub held :
      (n : ℕ) (keys : List String) (items : List Item) (unprocessed : List String)
      → batch_get n keys ≡ got items unprocessed
      → All (λ i. (k : String) × (rows k ≡ some i)) items

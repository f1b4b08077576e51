-- ===== src/Statistics.antt =====
-- Statshandler and Listhandler of http.go, up to the writing of the response, with listtransports of
-- transport.go. `query` is a list of the values of each parameter, and the clock an argument.
pub mod Selected
use gofast.Base.{ℕ, List, [], ◌∷◌, Option, none, some, codes, map}
use gofast.Registry.{Named, insert_name, filterstats, stat_of, all_stats}
use gofast.Tags.{split, trim}
use gofast.Types.{Stats}

-- What the handler answers, before it is put into JSON.
pub data Answer : Type 0 where
  invalid_name : List ℕ → Answer
  counts : Named ℕ → Answer

abbrev pub timestamp : List ℕ
timestamp = codes "timestamp"

unfoldable pub requested_keys : List (List ℕ) → List (List ℕ)
unfolding split trim
requested_keys [] = []
requested_keys (keyparam ∷ more) = split 44 (trim keyparam)

abbrev pub stats_of_all : Named Stats → List Stats
stats_of_all transports = map (λ (p : List ℕ × Stats). p.1) transports

unfoldable pub shown : ℕ → List (List ℕ) → Named ℕ → Answer
shown now keys stats = counts (insert_name timestamp now (filterstats stats keys))

unfoldable pub statshandler : ℕ → List (List ℕ) → List (List ℕ) → Named Stats → Answer
unfolding shown
statshandler now [] keyparam transports =
    shown now (requested_keys keyparam) (all_stats [] (stats_of_all transports))
statshandler now (name ∷ more) keyparam transports = elim (stat_of name transports) [
  | none ↦ invalid_name name
  | some stats ↦ shown now (requested_keys keyparam) stats
]

-- `sort.Strings` is a parameter.
unfoldable pub listtransports : (List (List ℕ) → List (List ℕ)) → Named Stats → List (List ℕ)
listtransports sort transports = sort (map (λ (p : List ℕ × Stats). p.0) transports)

-- ===== src/Registry.antt =====
-- The registry of transports and their counters by name: addtransport, deltransport, Stat and Stats
-- of transport.go, and filterstats of http.go. A Go map is an association list of text keys.
pub mod Names
pub mod Totals
use gofast.Base.{
  ℕ, ◌+◌, ◌%◌, ◌^◌, Bool, true, false, List, [], ◌∷◌, Option, none, some, Result, ok, panic, ◌>>=◌,
  if◌then◌else◌, codes, text_eq,
}
use gofast.Types.{Stats, add_uint64}

abbrev pub Named {ℓ} : Type ℓ → Type ℓ
Named V = List (List ℕ × V)

unfoldable pub find_name {ℓ} : {V : Type ℓ} → List ℕ → Named V → Option V
find_name k [] = none
find_name k ((j, v) ∷ m) = if text_eq j k then some v else find_name k m

unfoldable pub delete_name {ℓ} : {V : Type ℓ} → List ℕ → Named V → Named V
delete_name k [] = []
delete_name k ((j, v) ∷ m) =
    let rest = delete_name k m in if text_eq j k then rest else (j, v) ∷ rest

abbrev pub insert_name {ℓ} : {V : Type ℓ} → List ℕ → V → Named V → Named V
insert_name k v m = (k, v) ∷ delete_name k m

-- One attempt on the map that was loaded: the new map, unless the name is taken.
unfoldable pub add_attempt {ℓ} : {V : Type ℓ} → List ℕ → V → Named V → Result (Named V)
unfolding find_name delete_name
add_attempt name t m = elim (find_name name m) [ some _ ↦ panic | none ↦ ok (insert_name name t m) ]

unfoldable pub del_attempt {ℓ} : {V : Type ℓ} → List ℕ → Named V → Result (V × Named V)
unfolding find_name delete_name
del_attempt name m = elim (find_name name m) [ none ↦ panic | some t ↦ ok (t, delete_name name m) ]

-- The loop around `CompareAndSwapPointer`: `others` are the maps that other goroutines store, each
-- between a load and its swap, which then fails. The last attempt is not disturbed.
unfoldable pub add_transport {ℓ} :
    {V : Type ℓ} → List ℕ → V → Named V → List (Named V) → Result (Named V)
unfolding add_attempt
add_transport name t m [] = add_attempt name t m
add_transport name t m (next ∷ others) =
    let rest = add_transport name t next others in add_attempt name t m >>= λ lost. rest

unfoldable pub del_transport {ℓ} :
    {V : Type ℓ} → List ℕ → Named V → List (Named V) → Result (V × Named V)
unfolding del_attempt
del_transport name m [] = del_attempt name m
del_transport name m (next ∷ others) =
    let rest = del_transport name next others in del_attempt name m >>= λ lost. rest

-- `t.Stat()`
unfoldable pub stat : Stats → Named ℕ
stat s =
    (codes "n_tx", s.n_tx)
    ∷ (codes "n_flushes", s.n_flushes)
    ∷ (codes "n_txbyte", s.n_txbyte)
    ∷ (codes "n_txpost", s.n_txpost)
    ∷ (codes "n_txreq", s.n_txreq)
    ∷ (codes "n_txresp", s.n_txresp)
    ∷ (codes "n_txstart", s.n_txstart)
    ∷ (codes "n_txstream", s.n_txstream)
    ∷ (codes "n_txfin", s.n_txfin)
    ∷ (codes "n_rx", s.n_rx)
    ∷ (codes "n_rxbyte", s.n_rxbyte)
    ∷ (codes "n_rxpost", s.n_rxpost)
    ∷ (codes "n_rxreq", s.n_rxreq)
    ∷ (codes "n_rxresp", s.n_rxresp)
    ∷ (codes "n_rxstart", s.n_rxstart)
    ∷ (codes "n_rxstream", s.n_rxstream)
    ∷ (codes "n_rxfin", s.n_rxfin)
    ∷ (codes "n_rxbeats", s.n_rxbeats)
    ∷ (codes "n_dropped", s.n_dropped)
    ∷ (codes "n_mdrops", s.n_mdrops)
    ∷ []

abbrev pub add_counter : List ℕ → ℕ → Named ℕ → Named ℕ
add_counter k v acc = elim (find_name k acc) [
  | some a ↦ insert_name k (add_uint64 a v) acc
  | none ↦ insert_name k v acc
]

-- The inner loop of `Stats`: one transport's counters, added to what there is.
unfoldable pub add_stats : Named ℕ → Named ℕ → Named ℕ
unfolding find_name delete_name
add_stats acc [] = acc
add_stats acc ((k, v) ∷ s) = add_stats (add_counter k v acc) s

-- `Stats()`, over the transports of the registry.
unfoldable pub all_stats : Named ℕ → List Stats → Named ℕ
unfolding stat add_stats
all_stats acc [] = acc
all_stats acc (s ∷ rest) = all_stats (add_stats acc (stat s)) rest

-- `Stat(name)`: the counters of the transport with the name; nil is `none`.
unfoldable pub stat_of : List ℕ → Named Stats → Option (Named ℕ)
unfolding stat find_name
stat_of name transports = elim (find_name name transports) [ none ↦ none | some s ↦ some (stat s) ]

-- A missing key of a map of counters reads as 0.
abbrev pub counter : List ℕ → Named ℕ → ℕ
counter k m = elim (find_name k m) [ none ↦ 0 | some v ↦ v ]

unfoldable pub pick_stats : Named ℕ → List (List ℕ) → Named ℕ → Named ℕ
pick_stats stats [] m = m
pick_stats stats (key ∷ keys) m = pick_stats stats keys (insert_name key (counter key stats) m)

unfoldable pub filterstats : Named ℕ → List (List ℕ) → Named ℕ
unfolding pick_stats
filterstats stats [] = stats
filterstats stats (key ∷ keys) = pick_stats stats (key ∷ keys) []

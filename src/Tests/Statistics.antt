-- ===== src/Tests/Statistics.antt =====
-- The statistics of one transport, asked for by key.
use gofast.Base.{◌≡◌, refl, [], ◌∷◌, codes, text_eq}
use gofast.Registry.{Named, find_name, stat, all_stats}
use gofast.Statistics.Selected.{Shows, statshandler-Shows}
use gofast.Statistics.{invalid_name, requested_keys, stats_of_all, statshandler}
use gofast.Tests.{no_stats}
use gofast.Types.{Stats}

abbrev busy : Stats
busy = record no_stats { n_tx = 3; n_rx = 4 }

abbrev registered : Named Stats
registered = (codes "a", busy) ∷ []

statshandler-Shows_example :
    Shows 9
      (requested_keys (codes " n_tx,n_rx " ∷ []))
      (stat busy)
      (statshandler 9 (codes "a" ∷ []) (codes " n_tx,n_rx " ∷ []) registered)
    × (statshandler 9 (codes "b" ∷ []) (codes " n_tx,n_rx " ∷ []) registered
        ≡ invalid_name (codes "b"))
    × Shows 9
        (requested_keys (codes " n_tx,n_rx " ∷ []))
        (all_stats [] (stats_of_all registered))
        (statshandler 9 [] (codes " n_tx,n_rx " ∷ []) registered)
unfolding find_name text_eq
statshandler-Shows_example =
    statshandler-Shows 9 (codes "a") (codes "b") [] (codes " n_tx,n_rx " ∷ []) registered busy refl
      refl

-- ===== src/Tests/Messages.antt =====
-- Messages, new pools, and a batch.
use gofast.Base.{
  some, ◌+◌, ◌^◌, codes, text_eq, ◌%◌, ℕ, ◌≡◌, refl, Bool, true, false, List, [], ◌∷◌, Option, none,
  ok, ◌>>=◌, length, replicate, arith,
}
use gofast.Bytes.{emit, copy_in}
use gofast.DoTx.Order.{Waiting, Serves, do_tx-Serves}
use gofast.DoTx.{Txproto, Sender, consolidate, send_bytes, drainbuffers, tx_step, do_tx}
use gofast.Opaque.Range.{Pooled, set_opaque_range-Pooled}
use gofast.Opaque.{Pools, set_opaque_range}
use gofast.Registry.{Named, find_name, add_transport, del_transport, stat, all_stats, counter}
use gofast.Registry.Names.{add-del_transport}
use gofast.Registry.Totals.{IsStats, total, all_stats-total}
use gofast.Rx.{Error}
use gofast.Tests.{marking, no_stats}

-- The value 1001 is one that the protocol reserves.
set_opaque_range-Pooled_example :
    (p : Pools) × (set_opaque_range 1000 8 2 999 1005 ≡ ok p) × Pooled 8 2 999 1005 p
set_opaque_range-Pooled_example =
    set_opaque_range-Pooled 1000 8 2 999 1005 (omega arith) (omega arith) (omega arith)
      (omega arith) (omega arith)

abbrev pub idle : Sender
idle = record {
  transport = marking;
  batch = [];
  tcpwrite_buf = replicate 128 0;
  sent = [];
  replies = [];
}

pub idle-Waiting : Waiting idle
idle-Waiting = record { room = refl; fits = tt; short = omega arith; patient = tt }

-- The connection takes all of each write.
abbrev pub writes_all : List (List ℕ) → List ℕ → ℕ × Option Error
writes_all sent bs = (length bs, none)

abbrev command : List ℕ → Bool → Txproto
command packet flush = record { packet = packet; flush = flush; async = true }

abbrev commands : List Txproto
commands = command (1 ∷ 2 ∷ []) false ∷ command (3 ∷ []) false ∷ command (4 ∷ []) false ∷ []

do_tx-Serves_example :
    (s : Sender) × (do_tx writes_all idle commands ≡ ok s) × Serves writes_all idle s commands
do_tx-Serves_example =
    do_tx-Serves writes_all idle commands idle-Waiting
      (omega arith, (omega arith, (omega arith, tt)))

-- The batch of two is written, and the third command waits.
sent_batch : (do_tx writes_all idle commands >>= λ s. ok (s.sent)) ≡ ok ((1 ∷ 2 ∷ 3 ∷ []) ∷ [])
unfolding do_tx tx_step drainbuffers consolidate send_bytes emit copy_in
sent_batch = refl

add-del_transport_example :
    (added : Named ℕ) × (add_transport (codes "a") 1 [] (((codes "b", 2) ∷ []) ∷ []) ≡ ok added)
    × (find_name (codes "a") added ≡ some 1)
    × (del_transport (codes "a") added [] ≡ ok (1, (codes "b", 2) ∷ []))
unfolding find_name text_eq
add-del_transport_example =
    add-del_transport (codes "a") 1 [] (((codes "b", 2) ∷ []) ∷ []) refl (refl, tt)

no_stats-IsStats : IsStats no_stats
unfolding stat
no_stats-IsStats = (
  omega arith,
  (
    omega arith,
    (
      omega arith,
      (
        omega arith,
        (
          omega arith,
          (
            omega arith,
            (
              omega arith,
              (
                omega arith,
                (
                  omega arith,
                  (
                    omega arith,
                    (
                      omega arith,
                      (
                        omega arith,
                        (
                          omega arith,
                          (
                            omega arith,
                            (
                              omega arith,
                              (
                                omega arith,
                                (omega arith, (omega arith, (omega arith, (omega arith, tt)))),
                              ),
                            ),
                          ),
                        ),
                      ),
                    ),
                  ),
                ),
              ),
            ),
          ),
        ),
      ),
    ),
  ),
)

all_stats-total_example :
    counter (codes "n_rx") (all_stats [] (no_stats ∷ no_stats ∷ []))
    ≡ (counter (codes "n_rx") [] + total (codes "n_rx") (no_stats ∷ no_stats ∷ [])) % 2 ^ 64
unfolding find_name
all_stats-total_example =
    all_stats-total [] (no_stats ∷ no_stats ∷ []) (codes "n_rx")
      (no_stats-IsStats, (no_stats-IsStats, tt)) (omega arith)

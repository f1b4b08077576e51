-- ===== src/Tests/Streams.antt =====
-- Streams, live, pooled and new.
use gofast.Base.{ℕ, ◌+◌, ◌%◌, ◌^◌, ◌≡◌, refl, true, false, List, [], ◌∷◌, Option, some, arith}
use gofast.SyncRx.Counters.{classified, sync_run-balance}
use gofast.SyncRx.Pool.{Inv}
use gofast.SyncRx.{
  RxItem, told, packet, putstream, fromrxstrm, newremotestream, handler_of, request_callback,
  handle_finish, handle_new, handlepkt, streamupdate, sync_step, sync_run,
}
use gofast.Tests.{endpoint, packet_on}
use gofast.Types.{BinMessage}

-- Every handler returns callback 9.
abbrev pub always : ℕ → Option ℕ → BinMessage → Option ℕ
always h stream msg = some 9

pub endpoint-Inv : Inv endpoint
endpoint-Inv = record {
  live_opaque = (refl, tt);
  live_below = (omega arith, tt);
  pool_local = (refl, tt);
  pool_below = (omega arith, tt);
  pool_once = (tt, tt);
  pool_idle = (((λ e. absurd (omega arith)), tt), tt);
  rx_remote = tt;
  rx_below = tt;
  rx_once = tt;
  rx_idle = tt;
}

-- A caller opens stream 0, the remote starts a stream and ends another.
abbrev arriving : List RxItem
arriving = told 0 ∷ packet (packet_on 700 false) ∷ packet (packet_on 600 true) ∷ []

sync_run-balance_example :
    (classified ((sync_run always endpoint arriving).transport.stats) + 0) % 2 ^ 64
    ≡ (0 + (sync_run always endpoint arriving).transport.stats.n_rx) % 2 ^ 64
sync_run-balance_example = sync_run-balance always endpoint arriving

-- The started stream is live under the remote's opaque value, and the ended one is forgotten.
arriving_live : (sync_run always endpoint arriving).live ≡ (700, 3) ∷ (300, 0) ∷ []
unfolding sync_run sync_step handlepkt handle_new handle_finish streamupdate putstream
    newremotestream fromrxstrm request_callback handler_of
arriving_live = refl

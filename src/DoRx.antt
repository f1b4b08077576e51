-- ===== src/DoRx.antt =====
-- doRx of go_rx.go: one frame after the other is read and handed to `t.rxch`, until a read fails.
-- That `t.killch` is closed meanwhile, which ends the loop too, is not modelled.
pub mod Conversation
use gofast.Base.{ℕ, zero, suc, List, [], ◌∷◌, Result, ok, stuck, ◌>>=◌}
use gofast.Rx.{Error, Receiver, Unframed, received, failed, unframepkt}
use gofast.Types.{RxPacket}

-- The packets in order, and the error at the end; `rounds` bounds the loop, and `fuel` those
-- within a frame.
unfoldable pub do_rx : ℕ → ℕ → Receiver → Result (List RxPacket × Receiver × Error)
do_rx zero fuel r = stuck
do_rx (suc rounds) fuel r = unframepkt fuel r >>= λ (r', frame). elim frame [
  | failed e ↦ ok ([], r', e)
  | received pkt ↦ do_rx rounds fuel r' >>= λ (pkts, r'', e). ok (pkt ∷ pkts, r'', e)
]

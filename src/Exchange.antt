-- ===== src/Exchange.antt =====
-- Both ends of a connection at work together: the goroutines of go_tx.go, go_rx.go and go_syncrx.go
-- with the calls of transport.go and stream.go.
pub mod Pipe
pub mod Served
pub mod Sides
pub mod Answered
pub mod Known
pub mod Stolen
pub mod Started
pub mod Streamed
use gofast.Base.{ℕ, List}
use gofast.DoTx.Batches.{joined}
use gofast.Rx.{Receiver, eof}

-- The receiver at the other end of a connection, to which these writes were made and no more come.
abbrev pub arriving : Receiver → List (List ℕ) → Receiver
arriving r sent = record r { conn = record { input = joined sent; ending = eof } }

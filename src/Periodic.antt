-- ===== src/Periodic.antt =====
-- The goroutines that send at each tick of a timer: SendHeartbeat of go_heartbeat.go and FlushPeriod of
-- go_flush.go. A tick is a step; `closed` is whether `t.killch` is found closed behind it.
pub mod Ticks
use gofast.Base.{
  ℕ, ◌+◌, ◌%◌, ◌^◌, Bool, true, false, not, List, [], ◌∷◌, Option, none, some, if◌then◌else◌,
}
use gofast.Calls.{Call, returned, call_then, Client, post_msg}
use gofast.Requests.{TxEnd, TxError, tx}
use gofast.Setup.{heartbeat_msg}

-- One tick of `SendHeartbeat` with its count: the next count, unless the goroutine ends.
unfoldable pub heartbeat_tick : Client → ℕ → Bool → Bool → Call (Client × Option ℕ)
heartbeat_tick c count killed closed =
    call_then (post_msg c (heartbeat_msg count) true killed) (λ (c', err).
      returned (c', if err then none else if closed then none else some ((count + 1) % 2 ^ 64)))

-- One tick of `FlushPeriod`: whether the goroutine goes on.
unfoldable pub flush_tick : Client → TxEnd → Bool → Call (Client × Bool)
flush_tick c end closed =
    call_then (tx c [] true end)
      (λ (c', err). returned (c', elim err [ none ↦ not closed | some e ↦ false ]))

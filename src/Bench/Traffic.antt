-- ===== src/Bench/Traffic.antt =====
-- The client of the performance tool, perf/client.go: the choice of what a worker does, and the stream
-- that it sends.
use gofast.Base.{ℕ, zero, suc, ◌%◌, Bool, true, false, none, some, ◌==◌, if◌then◌else◌}
use gofast.Calls.{Call, returned, panicked, call_then, Client, stream_on, close_stream}
use gofast.Requests.{TxEnd, stream_open}
use gofast.Types.{Message}

pub data Doit : Type 0 where
  sendpost sendreq sendstream rcvstream : Doit

-- `randomit()`, at a time in nanoseconds.
unfoldable pub randomit : ℕ → Doit
randomit now =
    if now % 100 == 0
    then (if now % 200 == 0 then sendstream else rcvstream)
    else if now % 2 == 0
    then sendreq
    else sendpost

-- The loop over `stream.Stream(msg, false)`, which ends at the first error; `killed` is how the
-- select of each call goes, by the number of calls left behind it.
unfoldable pub stream_many : Client → ℕ → Message → ℕ → (ℕ → Bool) → Call Client
stream_many c a msg zero killed = returned c
stream_many c a msg (suc n) killed =
    call_then (stream_on c a msg false (killed n))
      (λ (c', err). elim err [ true ↦ returned c' | false ↦ stream_many c' a msg n killed ])

-- `doStreamTx(trans, count, msg)`, up to the sleep. `log.Fatal`, which ends the process, is
-- `panicked`.
unfoldable pub do_stream_tx :
    Client → ℕ → Message → ℕ → TxEnd → (ℕ → Bool) → Bool → Call (Client × ℕ)
unfolding stream_many
do_stream_tx c count msg callb end killed closing =
    call_then (stream_open c msg false (some callb) end) (λ (c1, a, err). elim err [
      | some e ↦ panicked
      | none ↦
          call_then (stream_many c1 a msg count killed)
            (λ c2. call_then (close_stream c2 a closing) (λ (c3, failed). returned (c3, a)))
    ])

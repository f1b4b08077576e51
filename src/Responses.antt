-- ===== src/Responses.antt =====
-- What a waiting call makes of the messages that its callback is told: the callback of Request, and
-- the results of Ping and Whoami, of transport.go.
pub mod Unanswered
use gofast.Base.{ℕ, Bool, true, false, List, [], ◌∷◌, Option, none, some, Result, ok, ◌>>=◌}
use gofast.Calls.{Call, Client}
use gofast.Handler.{data_of, sent_whoami}
use gofast.Messages.{VersionOps, Whoami, ping_decode, whoami_decode}
use gofast.Requests.{TxEnd, TxError, request_open}
use gofast.Setup.{Host, ping_msg, new_whoami}
use gofast.Types.{BinMessage}

-- What the callback closes over: `resp`, which may be nil, and whether `donech` is closed.
pub record Pending (A : Type 0) : Type 0 where
  pub resp : Option A
  pub done : Bool

abbrev pub waiting_for : {A : Type 0} → Option A → Pending A
waiting_for resp = record { resp = resp; done = false }

-- The callback, where `decode` is `resp.Decode`, whose count nobody reads. It does not look at the
-- flag that it is told.
unfoldable pub on_response :
    {A : Type 0} → (A → List ℕ → Result A) → Pending A → BinMessage → Result (Pending A)
on_response decode p msg = elim p.resp [
  | none ↦ ok (record p { done = true })
  | some resp ↦
      decode resp (data_of msg) >>= λ resp'. ok (record { resp = some resp'; done = true })
]

unfoldable pub on_responses :
    {A : Type 0}
    → (A → List ℕ → Result A)
    → Pending A
    → List (BinMessage × Bool)
    → Result (Pending A)
on_responses decode p [] = ok p
on_responses decode p ((msg, good) ∷ msgs) =
    on_response decode p msg >>= λ p'. on_responses decode p' msgs

-- `pingMsg.Decode` and `whoamiMsg.Decode`
unfoldable pub ping_into : List ℕ → List ℕ → Result (List ℕ)
ping_into old data_in = ping_decode data_in >>= λ (echo, n). ok echo

unfoldable pub whoami_into : {V : Type 0} → VersionOps V → Whoami V → List ℕ → Result (Whoami V)
whoami_into ops old data_in = whoami_decode ops data_in >>= λ (wai, n). ok wai

-- `t.Ping(echo)`: the request, and what it returns once the callback has closed `donech` or the
-- request has failed. The `resp` of a ping is empty at first.
unfoldable pub ping_open : Client → List ℕ → ℕ → TxEnd → Call (Client × ℕ × Option TxError)
ping_open c echo callb end = request_open c (ping_msg echo) true callb end

abbrev pub ping_waiting : Pending (List ℕ)
ping_waiting = waiting_for (some [])

unfoldable pub ping_result : Option TxError → Pending (List ℕ) → List ℕ × Option TxError
ping_result (some err) p = ([], some err)
ping_result none p = (elim p.resp [ none ↦ [] | some echo ↦ echo ], none)

-- `t.Whoami()`: its request and its `resp` both start as the transport's own whoami.
unfoldable pub whoami_open :
    {V : Type 0} → VersionOps V → Host V → ℕ → TxEnd → Call (Client × ℕ × Option TxError)
whoami_open ops h callb end = request_open h.client (sent_whoami ops h) true callb end

abbrev pub whoami_waiting : {V : Type 0} → Host V → Pending (Whoami V)
whoami_waiting h = waiting_for (some (new_whoami h))

-- A request that fails leaves `wai` empty.
unfoldable pub whoami_result :
    {V : Type 0} → Option TxError → Pending (Whoami V) → Option (Whoami V) × Option TxError
whoami_result (some err) p = (none, some err)
whoami_result none p = (p.resp, none)

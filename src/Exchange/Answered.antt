-- ===== src/Exchange/Answered.antt =====
-- A request and its answer, from the call of Request in transport.go to its return, through the
-- goroutines of both ends.
use gofast.Base.{ℕ, ◌≡◌, ap, ◌∙◌, true, false, List, [], ◌∷◌, ◌++◌, Option, none, some, length}
use gofast.Calls.{returned, Client, respond}
use gofast.DoRx.Conversation.{sends_msg, delivered}
use gofast.DoTx.{Txproto, Sender}
use gofast.Exchange.Pipe.{Carries}
use gofast.Exchange.Sides.{
  Asking, Serving, Line, Round, on_wire, key_of, bin, frame_fits, delivered-IsRequest,
  answer_command, request-Round, answer-Carries,
}
use gofast.Exchange.Served.{given_at, sync_step-respond}
use gofast.Requests.Sends.{request_bytes}
use gofast.Rx.{Error, Receiver}
use gofast.SyncRx.Delivery.{new_opaque}
use gofast.SyncRx.{handled, packet, sync_step}
use gofast.Tx.Packet.{Codec}
use gofast.Types.{BinMessage, Message}

module _ (conn_write : List (List ℕ) → List ℕ → ℕ × Option Error)
    (full : (sent : List (List ℕ)) (bs : List ℕ) → conn_write sent bs ≡ (length bs, none))
    (remote_write : List (List ℕ) → List ℕ → ℕ × Option Error)
    (remote_full : (sent : List (List ℕ)) (bs : List ℕ) → remote_write sent bs ≡ (length bs, none))
    (reply remote_reply : ℕ → Option ℕ → BinMessage → Option ℕ) where
  -- A request is answered: where a caller can ask, its remote can serve the message, the connection
  -- takes and hands on all that is written at either end, and each frame is one that the other end
  -- can receive, `Request` with `flush` sends the frame, which `doTx` writes and answers without an
  -- error; `doRx` of the remote delivers the message; its handler is called once, with that message
  -- and a stream; `Response` with `flush` on the stream returns without an error where the remote
  -- is not closed; its frame comes through to the caller's `doRx`; and the caller's callback is
  -- told the answer, as the last message of its stream, and nothing else. Once the call returns and
  -- the receiver is told so, no stream is live under the opaque value, and the stream is at the end
  -- of the pool.
  pub request-answered :
      (cs ds : List Codec) (c d : Client) (a : ℕ) (rest : List ℕ) (k h j callb fuel : ℕ)
      (msg answer : Message) (encoded answered_by : List ℕ) (s s' : Sender) (r r' : Receiver)
      → Asking cs c a rest k callb msg encoded
      → Serving remote_reply ds d (key_of c a) (bin msg encoded) h j answer answered_by
      → Line s c.endpoint.transport.buffersize fuel r (on_wire cs (key_of c a) msg encoded)
      → Line s' d.endpoint.transport.buffersize fuel r' (on_wire ds (key_of c a) answer answered_by)
      → let asked = on_wire cs (key_of c a) msg encoded in
        let told_back = on_wire ds (key_of c a) answer answered_by in
        let b = given_at d.endpoint (key_of c a) in
        let e = sync_step remote_reply d.endpoint (packet (delivered asked)) in
        (c' : Client) × (d' : Client) × Round reply c c' a callb msg
          (length (request_bytes cs c a msg encoded))
          told_back
        × Carries conn_write s c'.txch 2 fuel r (sends_msg asked ∷ [])
        × (e.events ≡ d.endpoint.events ++ handled h (some b) (bin msg encoded) ∷ [])
        × (respond (record d { endpoint = e }) b answer true false ≡ returned (d', false))
        × Carries remote_write s' d'.txch 2 fuel r' (sends_msg told_back ∷ [])
  request-answered cs ds c d a rest k h j callb fuel msg answer encoded answered_by s s' r r' asks
        serves out back =
      let key = key_of c a in
      let (c', round, there) =
        request-Round conn_write full reply cs ds c a rest k callb fuel msg answer encoded
          answered_by s r asks out in
      let (d', responds, handles, queued, _, _) =
        sync_step-respond remote_reply ds d (delivered (on_wire cs key msg encoded)) h j answer true
          answered_by (delivered-IsRequest cs key msg encoded) serves.unknown serves.handler
          serves.free serves.room serves.small serves.ready in
      let here =
        answer-Carries remote_write remote_full ds key _ fuel answer answered_by s' r' d'.txch back
          (frame_fits ds _ answer _ answered_by key _ serves.ready serves.room serves.small
            (new_opaque d.endpoint key))
          (queued
            ∙ ap (λ (l : List Txproto). l ++ answer_command ds key answer answered_by ∷ [])
                serves.quiet) in
      (c', d', round, there, handles, responds, here)

-- ===== src/Bench/Data.antt =====
-- The data messages of perf/msg.go, and the server's answer to one in perf/server.go.
use gofast.Base.{
  ℕ, zero, suc, ◌+◌, ◌-◌, ◌≤◌, ◌<◌, ◌^◌, ◌≡◌, refl, ap, ◌∙◌, true, false, List, [], ◌∷◌, ◌++◌, some,
  ok, lt→leb, take, drop_all, append-nil, length, arith,
}
use gofast.Bench.{data_size, data_encode, data_decode, as_message, msg_reqsp, serve_request}
use gofast.Bytes.Slices.{slice-middle}
use gofast.Bytes.Words.{be64, get_uint64-be64, put_uint64-overwrite}
use gofast.Bytes.Written.{emit-Writes, copy_in-Writes, slice_to-overwrite, copy-overwrite}
use gofast.Bytes.{copy, copied, copy_in}
use gofast.Calls.Respond.{response_frame, respond-handed}
use gofast.Calls.{returned, Client}
use gofast.Messages.RoundTrip.{length-fixbuffer}
use gofast.Messages.{fixbuffer}
use gofast.Tx.Frames.{Ready}
use gofast.Tx.Packet.{Codec}
use gofast.Types.{BinMessage}

abbrev pub data_bytes : List ℕ → List ℕ
data_bytes bytes = be64 (length bytes) ++ bytes

-- What a message holds that data are decoded into: without any, it keeps what it held.
abbrev pub held_after : List ℕ → List ℕ → List ℕ
held_after old [] = old
held_after old (b ∷ bs) = b ∷ bs

held_nothing : (bytes : List ℕ) → held_after [] bytes ≡ bytes
held_nothing [] = refl
held_nothing (b ∷ bs) = refl

data_encode-bytes :
    (bytes out : List ℕ) → length bytes < 2 ^ 63 → data_encode bytes out ≡ ok (data_bytes bytes)
unfolding data_encode data_size
data_encode-bytes bytes out h =
    let buf = fixbuffer out (8 + length bytes) in
    let room = length-fixbuffer out (8 + length bytes) (omega arith) in
    rw
      (
        put_uint64-overwrite (length bytes) buf (omega arith),
        emit-Writes (copy_in bytes) (be64 (length bytes)) bytes buf (copy_in-Writes bytes)
            (omega arith),
      )
      (slice_to-overwrite (data_bytes bytes) buf (omega arith))

take_nil : {old : List ℕ} (n : ℕ) → take n [] ++ old ≡ old
take_nil zero = refl
take_nil (suc n) = refl

pub copy_held :
    (old bytes : List ℕ)
    → (copy (fixbuffer old (length bytes)) bytes ≡ held_after old bytes)
      × (copied (fixbuffer old (length bytes)) bytes ≡ length bytes)
unfolding fixbuffer
copy_held old [] = (take_nil (length old), omega arith)
copy_held old (b ∷ bs) =
    let room = length-fixbuffer old (length (b ∷ bs)) (omega arith) in
    (
      copy-overwrite (b ∷ bs) (fixbuffer old (length (b ∷ bs))) (omega arith)
          ∙ ap (λ (l : List ℕ). (b ∷ bs) ++ l)
              (drop_all (length (b ∷ bs)) (fixbuffer old (length (b ∷ bs))) (omega arith))
          ∙ append-nil (b ∷ bs),
      omega arith,
    )

data_decode-bytes :
    (old bytes rest : List ℕ)
    → length bytes < 2 ^ 63
    → data_decode old (data_bytes bytes ++ rest)
      ≡ ok (held_after old bytes, length (data_bytes bytes))
unfolding data_decode
data_decode-bytes old bytes rest h =
    let held = copy_held old bytes in
    rw
      (
        get_uint64-be64 (length bytes) (bytes ++ rest) (omega arith),
        lt→leb (2 ^ 63) (length bytes) h,
        slice-middle (be64 (length bytes)) bytes rest,
        held.0,
        held.1,
      )
      (ap (λ (k : ℕ). ok (held_after old bytes, k)) (omega arith))

-- A data message of less than 2^63 bytes encodes to its length and its data, whatever the buffer, and
-- is decoded back, whatever follows: into a message that held other data if there are any, while
-- no data leave what it held.
pub data_encode-decode :
    (bytes out old rest : List ℕ)
    → length bytes < 2 ^ 63
    → (data_encode bytes out ≡ ok (data_bytes bytes))
      × (data_decode old (data_bytes bytes ++ rest)
          ≡ ok (held_after old bytes, length (data_bytes bytes)))
data_encode-decode bytes out old rest h =
    (data_encode-bytes bytes out h, data_decode-bytes old bytes rest h)

-- The server sends a request's data back: where what came in is a data message of less than 2^63
-- bytes, whatever follows it, a response can be sent on the stream of the request and the transport is not closed, the
-- handler returns without an error, and `doTx` is handed, to be flushed, the frame of a response
-- with the same bytes under the opaque value of the request.
pub serve_request-echo :
    (cs : List Codec) (c : Client) (a k : ℕ) (msg : BinMessage) (bytes rest : List ℕ)
    → msg.body ≡ some (data_bytes bytes ++ rest)
    → length bytes < 2 ^ 63
    → c.txcmd ≡ suc k
    → 4 ≤ length ((c.endpoint.heap a).out)
    → length ((c.endpoint.heap a).out) ≤ c.endpoint.transport.buffersize
    → Ready cs c.endpoint.transport
        (as_message (msg_reqsp bytes))
        (c.endpoint.heap a)
        (data_bytes bytes)
        (length ((c.endpoint.heap a).out) - 4)
    → (c' : Client) × (serve_request c a msg false ≡ returned (c', false))
      × (c'.txch
          ≡ c.txch
            ++ response_frame cs c a (as_message (msg_reqsp bytes)) true (data_bytes bytes) ∷ [])
unfolding serve_request
serve_request-echo cs c a k msg bytes rest came h free room small ready =
    let (c', sends, queued, pooled, taken, counted, live, kept) =
      respond-handed cs c a k (as_message (msg_reqsp bytes)) true (data_bytes bytes) free room small
        ready in
    let decoded : data_decode [] (data_bytes bytes ++ rest)
        ≡ ok (bytes, length (data_bytes bytes)) =
      data_decode-bytes [] bytes rest h
      ∙ ap (λ (l : List ℕ). ok (l, length (data_bytes bytes))) (held_nothing bytes) in
    (c', rw (came, decoded) sends, queued)

-- ===== src/Tx.antt =====
-- tx.go: the six kinds of frame and the packet that they carry. `framepkt` works in two buffers,
-- `ping`, which is the rest of `out`, and `pong`, which is `stream.tagout`.
pub mod Packet
pub mod Frames
pub mod Sends
use gofast.Base.{
  ℕ, ◌+◌, Bool, true, false, List, [], ◌∷◌, Result, ok, ◌>>=◌, pos, ◌==◌, ◌++◌, take, if◌then◌else◌,
  replicate,
}
use gofast.Bytes.{Writer, slice_to, slice_from, emit, put_byte}
use gofast.Cbor.{
  tag_msg, tag_id, tag_data, tag_cbor_prefix, tag2cbor, valuint642cbor, valbytes2cbor, array_start,
  map_start, break_stop,
}
use gofast.Types.{Message, Stats, Stream, TagFn, Transport, add_uint64}

-- The header map of a message: `tagMsg`, then id and data between map start and break.
unfoldable pub frame_header : Message → List ℕ → Writer
frame_header msg data_buf ping = do
  w ← tag2cbor tag_msg ping
  w ← emit map_start w
  w ← emit (tag2cbor tag_id) w
  w ← emit (valuint642cbor msg.id) w
  w ← emit (tag2cbor tag_data) w
  encoded ← msg.encode data_buf
  w ← emit (valbytes2cbor encoded) w
  emit break_stop w

-- One round of the loop over `t.tagenc`, on `ping`, `pong` and `n`.
unfoldable pub roll_tag : ℕ → TagFn → List ℕ × List ℕ × ℕ → Result (List ℕ × List ℕ × ℕ)
roll_tag tag fn (ping, pong, n) = do
  filled ← slice_to ping n
  (pong, m) ← fn filled pong
  if m == 0 then ok (ping, pong, n) else (do
    w ← tag2cbor tag ping
    rolled ← slice_to pong m
    (ping, n) ← emit (valbytes2cbor rolled) w
    ok (ping, pong, n))

-- Go ranges over the map `t.tagenc` in an order of its own: here it is the order of the list.
unfoldable pub roll_tags : List (ℕ × TagFn) → List ℕ × List ℕ × ℕ → Result (List ℕ × List ℕ × ℕ)
roll_tags [] st = ok st
roll_tags ((tag, fn) ∷ rest) st = roll_tag tag fn st >>= roll_tags rest

-- What `framepkt` leaves in `ping` and in `stream.tagout`, and its count.
unfoldable pub framepkt : Transport → Message → Stream → List ℕ → Result (List ℕ × List ℕ × ℕ)
framepkt t msg stream ping = do
  (ping, n) ← frame_header msg stream.data_buf ping
  (ping, pong, n) ←
      (if msg.is_whoami
        then ok (ping, stream.tagout, n)
        else roll_tags t.tagenc (ping, stream.tagout, n))
  w ← tag2cbor stream.opaque pong
  filled ← slice_to ping n
  (pong, m) ← emit (valbytes2cbor filled) w
  rolled ← slice_to pong m
  (ping, n) ← valbytes2cbor rolled ping
  ok (ping, pong, n)

-- The prefix, one byte for the kind of frame, and the packet; returns `stream.tagout` too.
unfoldable pub frame : Writer → Transport → Message → Stream → List ℕ → Result (List ℕ × List ℕ × ℕ)
frame kind t msg stream out = do
  w ← tag2cbor tag_cbor_prefix out
  (out, n) ← emit kind w
  rest ← slice_from out (pos n)
  (ping, pong, m) ← framepkt t msg stream rest
  ok (take n out ++ ping, pong, n + m)

-- What a send returns: the transport, the stream with its new `tagout`, `out`, and the count.
abbrev pub Sent : Type 0
Sent = Transport × Stream × List ℕ × ℕ

-- The counter, then the frame.
abbrev pub sending : Transport → Stats → Stream → Result (List ℕ × List ℕ × ℕ) → Result Sent
sending t stats stream r = do
  (out, pong, n) ← r
  ok (record t { stats = stats }, record stream { tagout = pong }, out, n)

unfoldable pub post : Transport → Message → Stream → List ℕ → Result Sent
post t msg stream out =
    let stats = record (t.stats) { n_txpost = add_uint64 t.n_txpost 1 } in
    sending t stats stream (frame (put_byte 0xc6) t msg stream out)

unfoldable pub request : Transport → Message → Stream → List ℕ → Result Sent
request t msg stream out =
    let stats = record (t.stats) { n_txreq = add_uint64 t.n_txreq 1 } in
    sending t stats stream (frame (put_byte 0x81) t msg stream out)

unfoldable pub response : Transport → Message → Stream → List ℕ → Result Sent
response t msg stream out =
    let stats = record (t.stats) { n_txresp = add_uint64 t.n_txresp 1 } in
    sending t stats stream (frame (put_byte 0x81) t msg stream out)

unfoldable pub start : Transport → Message → Stream → List ℕ → Result Sent
start t msg stream out =
    let stats = record (t.stats) { n_txstart = add_uint64 t.n_txstart 1 } in
    sending t stats stream (frame array_start t msg stream out)

-- `t.stream(msg, stream, out)`
unfoldable pub stream_msg : Transport → Message → Stream → List ℕ → Result Sent
stream_msg t msg stream out =
    let stats = record (t.stats) { n_txstream = add_uint64 t.n_txstream 1 } in
    sending t stats stream (frame (put_byte 0xc7) t msg stream out)

-- The end-packet is framed in a scratch array of 16 bytes.
unfoldable pub finish : Transport → Stream → List ℕ → Result Sent
finish t stream out = do
  w ← tag2cbor tag_cbor_prefix out
  (out, n) ← emit (put_byte 0xc8) w
  s ← tag2cbor stream.opaque (replicate 16 0)
  (scratch, m) ← emit (put_byte 0x40) s
  packet ← slice_to scratch m
  w ← emit (valbytes2cbor packet) (out, n)
  (out, n) ← emit (put_byte 0xff) w
  let stats = record (t.stats) { n_txfin = add_uint64 t.n_txfin 1 }
  ok (record t { stats = stats }, stream, out, n)

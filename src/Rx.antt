-- ===== src/Rx.antt =====
-- go_rx.go: frames are read from the connection, stripped of their tags and taken apart. What is
-- read is an explicit list of bytes with the error that comes behind them.
pub mod Header
pub mod Message
pub mod Layers
pub mod Frames
pub mod RoundTrip
pub mod Hang
pub mod Packets
use gofast.Base.{
  ℕ, zero, suc, ◌+◌, ◌-◌, Bool, true, false, not, ◌&&◌, ◌||◌, List, [], ◌∷◌, ◌++◌, Option, none,
  some, Result, ok, panic, stuck, ◌>>=◌, ℤ, pos, negsuc, ◌+ℤ◌, ltb_ℤ, is_pos, uint64, ltb, leb,
  ◌==◌, if◌then◌else◌, length, take, drop, codes, text_eq, contains,
}
use gofast.Bytes.{index, index_ℤ, slice, slice_from, slice_to}
use gofast.Cbor.{tag_msg, tag_id, tag_data, cbor_item_length}
use gofast.Types.{BinMessage, no_message, RxPacket, Transport, add_uint64, find_key}

-- The errors of a read; `net_op` is a `*net.OpError` with its `Op` and its text.
pub data Error : Type 0 where
  eof unexpected_eof wrong_prefix : Error
  net_op : List ℕ → List ℕ → Error
  other : List ℕ → Error

-- A connection: the bytes that are still to come, and the error behind them.
pub record Conn : Type 0 where
  pub input : List ℕ
  pub ending : Error

-- The error of a read that the input does not fill: an end of input in the middle is unexpected.
abbrev pub short_read : List ℕ → Error → Error
short_read (b ∷ bs) eof = unexpected_eof
short_read _ e = e

-- `io.ReadFull(conn, buf)` for a `buf` of `n` bytes: what was read, and the error.
unfoldable pub read_full : Conn → ℕ → List ℕ × Conn × Option Error
read_full conn n =
    if leb n (length conn.input)
    then (take n conn.input, record conn { input = drop n conn.input }, none)
    else (conn.input, record conn { input = [] }, some (short_read conn.input conn.ending))

-- `err.Error()`
abbrev pub error_text : Error → List ℕ
error_text eof = codes "EOF"
error_text unexpected_eof = codes "unexpected EOF"
error_text wrong_prefix = codes "wrong prefix"
error_text (net_op op text) = text
error_text (other text) = text

abbrev pub is_shutdown : Error → Bool
is_shutdown (net_op op text) = text_eq op (codes "close") || text_eq op (codes "shutdown")
is_shutdown _ = false

unfoldable pub is_conn_closed : Error → Bool
is_conn_closed e =
    if is_shutdown e
    then true
    else contains (error_text e) (codes "use of closed network connection")

-- The state of `doRx`: the transport, its connection, and the decoders' buffers by tag; a tag that
-- is not in the map has the nil slice.
pub record Receiver : Type 0 where
  pub transport : Transport
  pub conn : Conn
  pub tagouts : ℕ → List ℕ

pub data Unframed : Type 0 where
  received : RxPacket → Unframed
  failed : Error → Unframed

-- The tag at the front, and what it tags: a byte string's contents, or all that follows where the
-- tag is `tagMsg` or a break stands behind it.
unfoldable pub readtp : List ℕ → Result (ℕ × List ℕ)
readtp payload = do
  (tag, n) ← cbor_item_length payload
  if is_pos tag tag_msg then (slice_from payload n >>= λ rest. ok (uint64 tag, rest)) else (do
    b ← index_ℤ payload n
    rest ← slice_from payload n
    if b == 0xff then ok (uint64 tag, rest) else (do
      (ln, m) ← cbor_item_length rest
      inner ← slice payload (n +ℤ m) ln
      ok (uint64 tag, inner)))

-- What the loop of `unmessage` carries: `n`, `id`, `data`.
pub record Fields : Type 0 where
  pub n : ℤ
  pub id : ℤ
  pub body : Option (List ℕ)

-- One round of the loop, behind its test.
unfoldable pub read_field : List ℕ → Fields → Result Fields
read_field msgdata s = do
  rest ← slice_from msgdata s.n
  (tag, k) ← cbor_item_length rest
  let n = s.n +ℤ k
  if is_pos tag tag_id
      then (do
        rest ← slice_from msgdata n
        (id, v) ← cbor_item_length rest
        ok (record { n = n +ℤ v; id = id; body = s.body }))
      else if is_pos tag tag_data
      then (do
        rest ← slice_from msgdata n
        (ln, m) ← cbor_item_length rest
        body ← slice msgdata (n +ℤ m) ln
        ok (record { n = n +ℤ m +ℤ ln; id = s.id; body = some body }))
      else ok (record { n = n; id = s.id; body = s.body })

-- `(n < msglen-1) && msgdata[n] != 0xff`
unfoldable pub more_fields : List ℕ → Fields → Result Bool
more_fields msgdata s =
    if ltb_ℤ s.n (pos (length msgdata - 1))
    then (index_ℤ msgdata s.n >>= λ b. ok (not (b == 0xff)))
    else ok false

-- The loop may go on for ever, so it runs on fuel: `stuck` says that the fuel ran out.
unfoldable pub read_fields : ℕ → List ℕ → Fields → Result Fields
read_fields zero msgdata s = stuck
read_fields (suc fuel) msgdata s = do
  go_on ← more_fields msgdata s
  elim go_on [ true ↦ read_field msgdata s >>= read_fields fuel msgdata | false ↦ ok s ]

-- The end of `unmessage`: nothing is delivered for a message with no id, no data or no end.
unfoldable pub to_message : List ℕ → Fields → BinMessage
to_message msgdata s =
    if ltb_ℤ s.n (pos (length msgdata))
    then (if is_pos s.id 0 then no_message else elim s.body [
      | none ↦ no_message
      | some body ↦ record { id = uint64 s.id; body = some body }
    ])
    else no_message

unfoldable pub unmessage : ℕ → List ℕ → Result BinMessage
unmessage fuel [] = ok no_message
unmessage fuel (b ∷ bs) =
    let fields = read_fields fuel (b ∷ bs) (record { n = pos 1; id = pos 0; body = none }) in
    if b == 0xbf then (fields >>= λ s. ok (to_message (b ∷ bs) s)) else ok no_message

-- One decoder: a tag that is not configured is a call of a nil function. A decoder that would
-- read and write one buffer, for a tag that occurs twice, reads what was there before.
unfoldable pub detag : Receiver → ℕ → List ℕ → Result (Receiver × ℕ × List ℕ)
detag r tag payload = elim (find_key tag r.transport.tagdec) [
  | none ↦ panic
  | some dec ↦ (do
    (out, n) ← dec payload (r.tagouts tag)
    decoded ← slice_to out n
    (tag', payload') ← readtp decoded
    let tagouts = λ (k : ℕ). if k == tag then out else r.tagouts k
    ok (record r { tagouts = tagouts }, tag', payload'))
]

-- `for tag != tagMsg && len(payload) > 0`
unfoldable pub detag_all : ℕ → Receiver → ℕ → List ℕ → Result (Receiver × List ℕ)
detag_all zero r tag payload = stuck
detag_all (suc fuel) r tag payload = elim (not (tag == tag_msg) && ltb 0 (length payload)) [
  | false ↦ ok (r, payload)
  | true ↦ detag r tag payload >>= λ (r', tag', payload'). detag_all fuel r' tag' payload'
]

-- A read that failed: all but a plain end of input is counted as dropped bytes.
unfoldable pub read_failed : Receiver → Conn → ℕ → Error → Receiver × Unframed
read_failed r conn n eof = (record r { conn = conn }, failed eof)
read_failed r conn n e =
    let t = r.transport in
    let stats = record (t.stats) { n_dropped = add_uint64 t.n_dropped n } in
    (record r { conn = conn; transport = record t { stats = stats } }, failed e)

-- The flags of a frame by the byte of its kind.
abbrev pub rx_flags : ℕ → ℕ → BinMessage → RxPacket
rx_flags kind opaque msg = record {
  msg = msg;
  opaque = opaque;
  post = kind == 0xc6;
  request = kind == 0x81;
  start = kind == 0x9f;
  strmsg = kind == 0xc7;
  finish = kind == 0xc8;
}

-- From the packet on: the opaque tag, then for all but an end-packet the tags and the message.
unfoldable pub open_packet : ℕ → Receiver → ℕ → List ℕ → Result (Receiver × Unframed)
open_packet fuel r kind packet = do
  (opaque, payload) ← readtp packet
  if kind == 0xc8 then ok (r, received (rx_flags kind opaque no_message)) else (do
    (tag, payload) ← readtp payload
    (r, payload) ← detag_all fuel r tag payload
    msg ← unmessage fuel payload
    ok (r, received (rx_flags kind opaque msg)))

-- The rest of the packet: `packet[n:ln]` is filled, where `packet` holds `buffersize` bytes and
-- `front` is what the first read had of it.
unfoldable pub read_packet : ℕ → Receiver → ℕ → List ℕ → ℤ → Result (Receiver × Unframed)
read_packet fuel r kind front (negsuc ln) = panic
read_packet fuel r kind front (pos ln) =
    let t = r.transport in
    let n = length front in
    let (got, conn, err) = read_full r.conn (ln - n) in
    let stats = record (t.stats) { n_rxbyte = add_uint64 t.n_rxbyte (9 + length got) } in
    if leb n ln && leb ln t.buffersize
    then elim err [
      | some e ↦ ok (read_failed r conn (length got) e)
      | none ↦
          open_packet fuel (record r { conn = conn; transport = record t { stats = stats } }) kind
            (front ++ got)
    ]
    else panic

-- From the first nine bytes on.
unfoldable pub unframe_pad : ℕ → Receiver → List ℕ → Result (Receiver × Unframed)
unframe_pad fuel r pad = do
  p0 ← index pad 0
  p1 ← index pad 1
  p2 ← index pad 2
  kind ← index pad 3
  if not (p0 == 0xd9) || not (p1 == 0xd9) || not (p2 == 0xf7)
      then ok (read_failed r r.conn (length pad) wrong_prefix)
      else (do
        (ln, m) ← cbor_item_length (drop 4 pad)
        rest ← slice_from pad (pos 4 +ℤ m)
        read_packet fuel r kind (take r.transport.buffersize rest)
            (if kind == 0xc8 then ln +ℤ pos 1 else ln))

unfoldable pub unframepkt : ℕ → Receiver → Result (Receiver × Unframed)
unframepkt fuel r =
    let (pad, conn, err) = read_full r.conn 9 in
    elim err [
      | some e ↦ ok (read_failed r conn (length pad) e)
      | none ↦ unframe_pad fuel (record r { conn = conn }) pad
    ]

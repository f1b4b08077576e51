-- ===== src/DoRx/Conversation.antt =====
-- A whole conversation on the wire.
use gofast.Base.{
  ℕ, zero, suc, ◌≤◌, ◌<◌, ◌≡◌, ◌≢◌, refl, List, [], ◌∷◌, ◌++◌, some, ok, length, map, All, arith,
}
use gofast.DoRx.{do_rx}
use gofast.Rx.Frames.{behind}
use gofast.Rx.Layers.{wrap, Decodable}
use gofast.Rx.RoundTrip.{Receivable, unframepkt-framed, unframepkt-end_frame}
use gofast.Rx.{Conn, Error, eof, Receiver, received, read_full, read_failed, rx_flags, unframepkt}
use gofast.Tx.Packet.{Codec, header, framed, end_frame}
use gofast.Types.{no_message, RxPacket, Stats, TagFn}
use gofast.Cbor.{tag_msg}
use gofast.Bytes.{IsU64}

-- What a sender framed: the kind of frame, the tags from the outside in, the stream and the message.
pub record Sending : Type 0 where
  pub kind : ℕ
  pub tags : List Codec
  pub opaque : ℕ
  pub id : ℕ
  pub encoded : List ℕ

abbrev pub wire : Sending → List ℕ
wire s = framed s.kind s.opaque (wrap s.tags (header s.id s.encoded))

-- A frame with a message, or the one that ends the stream under an opaque value.
pub data Frame : Type 0 where
  sends_msg : Sending → Frame
  ends : ℕ → Frame

abbrev pub frame_wire : Frame → List ℕ
frame_wire (sends_msg s) = wire s
frame_wire (ends opaque) = end_frame opaque

abbrev pub wires : List Frame → List ℕ
wires [] = []
wires (f ∷ fs) = frame_wire f ++ wires fs

abbrev pub delivered : Sending → RxPacket
delivered s = rx_flags s.kind s.opaque (record { id = s.id; body = some s.encoded })

abbrev pub frame_delivered : Frame → RxPacket
frame_delivered (sends_msg s) = delivered s
frame_delivered (ends opaque) = rx_flags 0xc8 opaque no_message

-- A frame that the receiver can take.
abbrev pub Fit : ℕ → Receiver → Frame → Type 0
Fit fuel r (sends_msg s) = (s.kind ≢ 0xc8) × Receivable fuel r s.tags s.opaque s.id s.encoded
Fit fuel r (ends opaque) =
    (24 ≤ opaque) × (opaque ≢ tag_msg) × IsU64 opaque × (11 ≤ r.transport.buffersize)

Decodable-room :
    (tagdec : List (ℕ × TagFn)) (room room' : ℕ → ℕ) (cs : List Codec) (bs : List ℕ)
    → ((k : ℕ) → room' k ≡ room k)
    → Decodable tagdec room cs bs
    → Decodable tagdec room' cs bs
Decodable-room tagdec room room' [] bs same d = tt
Decodable-room tagdec room room' (c ∷ cs) bs same (laws, found, small, fits, rest) = (
  laws,
  found,
  small,
  omega (arith, same c.tag),
  Decodable-room tagdec room room' cs bs same rest,
)

-- A frame that could be received still can by a receiver with other input and other buffers of the
-- same sizes.
pub Fit-behind :
    (fuel : ℕ) (r : Receiver) (conn : Conn) (stats : Stats) (tagouts : ℕ → List ℕ)
    → ((k : ℕ) → length (tagouts k) ≡ length (r.tagouts k))
    → (fs : List Frame) → All (Fit fuel r) fs
    → All
        (Fit fuel (record r {
          transport = record (r.transport) { stats = stats };
          conn = conn;
          tagouts = tagouts;
        }))
        fs
Fit-behind fuel r conn stats tagouts same [] h = tt
Fit-behind fuel r conn stats tagouts same (ends opaque ∷ fs) (f, h) =
    (f, Fit-behind fuel r conn stats tagouts same fs h)
Fit-behind fuel r conn stats tagouts same (sends_msg s ∷ fs) ((other, c), h) = (
  (
    other,
    record {
      opaque_other = c.opaque_other;
      opaque_u64 = c.opaque_u64;
      id_some = c.id_some;
      id_u64 = c.id_u64;
      encoded_small = c.encoded_small;
      packet_fits = c.packet_fits;
      buffer_small = c.buffer_small;
      decodable = Decodable-room _ _ _ s.tags _ same c.decodable;
      fuel_layers = c.fuel_layers;
      fuel_header = c.fuel_header;
    },
  ),
  Fit-behind fuel r conn stats tagouts same fs h,
)

-- At the end of the input the loop ends.
do_rx_end :
    (rounds fuel : ℕ) (r : Receiver)
    → r.conn.input ≡ []
    → r.conn.ending ≡ eof
    → do_rx (suc rounds) fuel r
      ≡ ok ([], record r { conn = record { input = []; ending = eof } }, eof)
unfolding do_rx unframepkt read_full read_failed
do_rx_end rounds fuel r e ended = rw (e, ended)

do_rx_step :
    (rounds fuel : ℕ) (r r' last : Receiver) (pkt : RxPacket) (pkts : List RxPacket) (e : Error)
    → unframepkt fuel r ≡ ok (r', received pkt)
    → do_rx rounds fuel r' ≡ ok (pkts, last, e)
    → do_rx (suc rounds) fuel r ≡ ok (pkt ∷ pkts, last, e)
unfolding do_rx
do_rx_step rounds fuel r r' last pkt pkts e reads rest = rw (reads, rest)

-- One frame at the front of the input.
record Reads (fuel : ℕ) (r : Receiver) (f : Frame) (more : List ℕ) : Type 0 where
  pub stats : Stats
  pub tagouts : ℕ → List ℕ
  pub reads :
      unframepkt fuel r
      ≡ ok (
        record r {
          transport = record (r.transport) { stats = stats };
          conn = record { input = more; ending = r.conn.ending };
          tagouts = tagouts;
        },
        received (frame_delivered f),
      )
  pub same_room : (k : ℕ) → length (tagouts k) ≡ length (r.tagouts k)

unframepkt-Reads :
    (fuel : ℕ) (r : Receiver) (f : Frame) (more : List ℕ)
    → Fit fuel r f
    → r.conn.input ≡ frame_wire f ++ more
    → Reads fuel r f more
unframepkt-Reads fuel r (sends_msg s) more (other, c) input =
    let got = unframepkt-framed fuel r s.kind s.tags s.opaque s.id s.encoded more other c input in
    record {
      stats = (behind r more (length (wire s))).transport.stats;
      tagouts = got.tagouts;
      reads = got.receives;
      same_room = got.same_room;
    }
unframepkt-Reads fuel r (ends opaque) more (large, other, fits, room) input = record {
  stats = (behind r more (length (end_frame opaque))).transport.stats;
  tagouts = r.tagouts;
  reads = unframepkt-end_frame fuel r opaque more large other fits room input;
  same_room = λ k. refl;
}

-- Whatever frames stand one behind the other in the input, each of them one that the receiver has
-- the decoders and the room for, `doRx` delivers the messages and the ends of streams of all of
-- them, in order, under the flags and the opaque values that they were sent with, and ends at the
-- end of the input. One round for each frame and one more are enough.
pub do_rx-delivered :
    (rounds fuel : ℕ) (r : Receiver) (fs : List Frame)
    → length fs < rounds
    → All (Fit fuel r) fs
    → r.conn.input ≡ wires fs
    → r.conn.ending ≡ eof
    → (last : Receiver) × (do_rx rounds fuel r ≡ ok (map frame_delivered fs, last, eof))
      × (last.conn.input ≡ [])
do_rx-delivered zero fuel r fs h fit input ended = absurd (omega arith)
do_rx-delivered (suc rounds) fuel r [] h fit input ended = (
  record r { conn = record { input = []; ending = eof } },
  do_rx_end rounds fuel r input ended,
  refl,
)
do_rx-delivered (suc rounds) fuel r (f ∷ fs) h (first, fit) input ended =
    let got = unframepkt-Reads fuel r f (wires fs) first input in
    let conn : Conn = record { input = wires fs; ending = r.conn.ending } in
    let r' = record r {
      transport = record (r.transport) { stats = got.stats };
      conn = conn;
      tagouts = got.tagouts;
    } in
    let (last, rest, emptied) =
      do_rx-delivered rounds fuel r' fs (omega arith)
        (Fit-behind fuel r conn got.stats got.tagouts got.same_room fs fit) refl ended in
    (
      last,
      do_rx_step rounds fuel r r' last (frame_delivered f) (map frame_delivered fs) eof got.reads
          rest,
      emptied,
    )

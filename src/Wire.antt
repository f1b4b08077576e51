-- ===== src/Wire.antt =====
-- Both ends of a connection: a frame of tx.go, through go_rx.go of the remote.
use gofast.Base.{ℕ, ◌-◌, ◌≤◌, ◌≡◌, ◌≢◌, sym, ap, ◌∙◌, List, ◌++◌, some, ok, length, arith}
use mathlib.Core.List.{reverse}
use gofast.Rx.Frames.{behind}
use gofast.Rx.Layers.{wrap, layers-wrap}
use gofast.Rx.{Receiver, received, rx_flags, unframepkt}
use gofast.Tx.Frames.{Ready}
use gofast.Tx.Packet.{header, Codec, used, payload, framed}
use gofast.Tx.Sends.{
  Kind, posts, requests, responds, starts, streams, send, kind_byte, count_sent, Sends, send-Sends,
}
use gofast.Types.{BinMessage, RxPacket, Message, Stream, Transport}
use gofast.Rx.RoundTrip.{Receives, Receivable, unframepkt-framed}

-- The flag of each kind of frame.
abbrev pub sent_packet : Kind → ℕ → BinMessage → RxPacket
sent_packet kind opaque msg = rx_flags (kind_byte kind) opaque msg

not_finish : (kind : Kind) → kind_byte kind ≢ 0xc8
not_finish posts e = absurd (omega arith)
not_finish requests e = absurd (omega arith)
not_finish responds e = absurd (omega arith)
not_finish starts e = absurd (omega arith)
not_finish streams e = absurd (omega arith)

-- Where the message encodes, its id is not 0, the tags of the sender obey their laws and are
-- configured at the receiver too, and the buffers of both have room: by whichever of the five
-- senders the message is sent, the sender returns with bytes `bs` in `out[:n]`, and a receiver with
-- `bs` at the front of its input returns the same opaque value, id and data under the flag of that
-- sender, counts the bytes and leaves the rest of the input.
pub send-unframepkt :
    (kind : Kind) (cs : List Codec) (t : Transport) (msg : Message) (stream : Stream)
    (encoded out : List ℕ) (fuel : ℕ) (r : Receiver) (more : List ℕ)
    → 4 ≤ length out
    → Ready cs t msg stream encoded (length out - 4)
    → Receivable fuel r (reverse (used msg.is_whoami cs)) stream.opaque msg.id encoded
    → (bs : List ℕ) × Sends
        (send kind t msg stream out)
        t
        (count_sent kind t.stats)
        stream
        bs
        (length out)
      × Receives
          (unframepkt fuel (record r { conn = record (r.conn) { input = bs ++ more } }))
          r
          more
          (length bs)
          (sent_packet kind stream.opaque (record { id = msg.id; body = some encoded }))
send-unframepkt kind cs t msg stream encoded out fuel r more room ready c =
    let hdr = header msg.id encoded in
    let rs = reverse (used msg.is_whoami cs) in
    let bs = framed (kind_byte kind) stream.opaque (payload msg.is_whoami cs msg.id encoded) in
    let r' = record r { conn = record (r.conn) { input = bs ++ more } } in
    let same : bs ≡ framed (kind_byte kind) stream.opaque (wrap rs hdr) =
      ap (framed (kind_byte kind) stream.opaque) (layers-wrap (used msg.is_whoami cs) hdr) in
    let got =
      unframepkt-framed fuel r' (kind_byte kind) rs stream.opaque msg.id encoded more
        (not_finish kind)
        (record {
          opaque_other = c.opaque_other;
          opaque_u64 = c.opaque_u64;
          id_some = c.id_some;
          id_u64 = c.id_u64;
          encoded_small = c.encoded_small;
          packet_fits = c.packet_fits;
          buffer_small = c.buffer_small;
          decodable = c.decodable;
          fuel_layers = c.fuel_layers;
          fuel_header = c.fuel_header;
        })
        (ap (λ (x : List ℕ). x ++ more) same) in
    (
      bs,
      send-Sends kind cs t msg stream encoded out room ready,
      record {
        tagouts = got.tagouts;
        receives =
            got.receives
            ∙ ap
                (λ (x : List ℕ). ok (
                  record (behind r more (length x)) { tagouts = got.tagouts },
                  received (
                      sent_packet kind stream.opaque (record { id = msg.id; body = some encoded })),
                ))
                (sym same);
        same_room = got.same_room;
      },
    )

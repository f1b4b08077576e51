-- ===== src/Tx/Sends.antt =====
-- The senders of tx.go: which counter each moves, and the frame that each leaves in `out`.
use gofast.Base.{
  ℕ, suc, ◌+◌, ◌-◌, ◌≤◌, ◌≡◌, refl, sym, subst, ◌∙◌, List, [], ◌∷◌, ◌++◌, Result, ok, length,
  length-append, length-drop, drop, arith, replicate, le→leb,
}
use gofast.Bytes.{Writer, put_byte, slice_to}
use gofast.Bytes.Written.{
  overwrite, Writes, emit-Writes, put_byte-Writes, slice_to-overwrite, length-overwrite,
}
use gofast.Cbor.{tag_cbor_prefix, tag2cbor, valbytes2cbor, array_start}
use gofast.Cbor.Encode.{
  head, head_info, head_tail, item, length-head, tag2cbor-Writes, valbytes2cbor-Writes,
  array_start-Writes,
}
use gofast.Types.{Message, Stats, Stream, Transport, add_uint64}
use gofast.Tx.{Sent, sending, frame, post, request, response, start, stream_msg, finish}
use gofast.Tx.Frames.{Ready, Leaves, framepkt-Leaves}
use gofast.Tx.Packet.{Codec, payload, packet, framed, end_frame}

prefix-Writes : Writes (tag2cbor tag_cbor_prefix) (0xd9 ∷ 0xd9 ∷ 0xf7 ∷ [])
unfolding head_info head_tail
prefix-Writes = tag2cbor-Writes tag_cbor_prefix

four : (n : ℕ) → 4 + n ≡ suc (suc (suc (suc n)))
four n = omega arith

frame-Leaves :
    (kind : Writer) (k : ℕ) (cs : List Codec) (t : Transport) (msg : Message) (stream : Stream)
    (encoded out : List ℕ)
    → Writes kind (k ∷ [])
    → 4 ≤ length out
    → Ready cs t msg stream encoded (length out - 4)
    → Leaves
        (frame kind t msg stream out)
        (framed k stream.opaque (payload msg.is_whoami cs msg.id encoded))
        (length out)
        (length stream.tagout)
unfolding frame
frame-Leaves kind k cs t msg stream encoded out w room ready =
    let prefix : List ℕ = 0xd9 ∷ 0xd9 ∷ 0xf7 ∷ k ∷ [] in
    let rest = drop 4 out in
    let size : length rest ≡ length out - 4 = length-drop 4 out in
    let pkt =
      framepkt-Leaves cs t msg stream encoded rest
        (subst (Ready cs t msg stream encoded) (sym size) ready) in
    record {
      under = prefix ++ pkt.under;
      tagout = pkt.tagout;
      leaves = rw (
        prefix-Writes out (omega arith),
        emit-Writes kind (0xd9 ∷ 0xd9 ∷ 0xf7 ∷ []) (k ∷ []) out w room,
        le→leb 4 (length (overwrite prefix out)) (omega (arith, length-overwrite prefix out room)),
        pkt.leaves,
        four (length (packet stream.opaque (payload msg.is_whoami cs msg.id encoded))),
      );
      ping_room = omega (arith, pkt.ping_room, size);
      pong_room = pkt.pong_room;
    }

-- The senders that carry a message.
pub data Kind : Type 0 where
  posts requests responds starts streams : Kind

abbrev pub send : Kind → Transport → Message → Stream → List ℕ → Result Sent
send posts = post
send requests = request
send responds = response
send starts = start
send streams = stream_msg

abbrev pub kind_byte : Kind → ℕ
kind_byte posts = 0xc6
kind_byte requests = 0x81
kind_byte responds = 0x81
kind_byte starts = 0x9f
kind_byte streams = 0xc7

abbrev pub count_sent : Kind → Stats → Stats
count_sent posts s = record s { n_txpost = add_uint64 s.n_txpost 1 }
count_sent requests s = record s { n_txreq = add_uint64 s.n_txreq 1 }
count_sent responds s = record s { n_txresp = add_uint64 s.n_txresp 1 }
count_sent starts s = record s { n_txstart = add_uint64 s.n_txstart 1 }
count_sent streams s = record s { n_txstream = add_uint64 s.n_txstream 1 }

-- A send that succeeds: the bytes `out[:n]` that are then handed to the writer, and what of the
-- transport and of the stream has changed.
pub record Sends (r : Result Sent) (t : Transport) (stats : Stats) (stream : Stream) (bs : List ℕ)
    (room : ℕ) : Type 0 where
  pub out : List ℕ
  pub tagout : List ℕ
  pub sends : r ≡ ok (record t { stats = stats }, record stream { tagout = tagout }, out, length bs)
  pub wire : slice_to out (length bs) ≡ ok bs
  pub out_room : length out ≡ room
  pub tagout_room : length tagout ≡ length stream.tagout

Leaves-Sends :
    (t : Transport) (stats : Stats) (stream : Stream) (bs : List ℕ) (room : ℕ)
    (r : Result (List ℕ × List ℕ × ℕ))
    → Leaves r bs room (length stream.tagout)
    → length bs ≤ room
    → Sends (sending t stats stream r) t stats stream bs room
Leaves-Sends t stats stream bs room r l fits = record {
  out = overwrite bs l.under;
  tagout = l.tagout;
  sends = rw l.leaves;
  wire = slice_to-overwrite bs l.under (rw l.ping_room fits);
  out_room = length-overwrite bs l.under (rw l.ping_room fits) ∙ l.ping_room;
  tagout_room = l.pong_room;
}

Ready-fits :
    (k : ℕ) (cs : List Codec) (t : Transport) (msg : Message) (stream : Stream) (encoded : List ℕ)
    (room : ℕ)
    → 4 ≤ room
    → Ready cs t msg stream encoded (room - 4)
    → length (framed k stream.opaque (payload msg.is_whoami cs msg.id encoded)) ≤ room
Ready-fits k cs t msg stream encoded room h ready = omega (arith, ready.packet_fits)

-- Where the message encodes and the buffers have room, each of the five senders of a message
-- returns with the frame of its kind in `out[:n]`, counts the frame in the counter of its kind
-- and in no other, and keeps the buffers' sizes.
pub send-Sends :
    (kind : Kind) (cs : List Codec) (t : Transport) (msg : Message) (stream : Stream)
    (encoded out : List ℕ)
    → 4 ≤ length out
    → Ready cs t msg stream encoded (length out - 4)
    → Sends
        (send kind t msg stream out)
        t
        (count_sent kind t.stats)
        stream
        (framed (kind_byte kind) stream.opaque (payload msg.is_whoami cs msg.id encoded))
        (length out)
unfolding post request response start stream_msg
send-Sends posts cs t msg stream encoded out h ready =
    Leaves-Sends t _ stream _ _ _
      (frame-Leaves (put_byte 0xc6) 0xc6 cs t msg stream encoded out (put_byte-Writes 0xc6) h ready)
      (Ready-fits 0xc6 cs t msg stream encoded _ h ready)
send-Sends requests cs t msg stream encoded out h ready =
    Leaves-Sends t _ stream _ _ _
      (frame-Leaves (put_byte 0x81) 0x81 cs t msg stream encoded out (put_byte-Writes 0x81) h ready)
      (Ready-fits 0x81 cs t msg stream encoded _ h ready)
send-Sends responds cs t msg stream encoded out h ready =
    Leaves-Sends t _ stream _ _ _
      (frame-Leaves (put_byte 0x81) 0x81 cs t msg stream encoded out (put_byte-Writes 0x81) h ready)
      (Ready-fits 0x81 cs t msg stream encoded _ h ready)
send-Sends starts cs t msg stream encoded out h ready =
    Leaves-Sends t _ stream _ _ _
      (frame-Leaves array_start 0x9f cs t msg stream encoded out array_start-Writes h ready)
      (Ready-fits 0x9f cs t msg stream encoded _ h ready)
send-Sends streams cs t msg stream encoded out h ready =
    Leaves-Sends t _ stream _ _ _
      (frame-Leaves (put_byte 0xc7) 0xc7 cs t msg stream encoded out (put_byte-Writes 0xc7) h ready)
      (Ready-fits 0xc7 cs t msg stream encoded _ h ready)

-- The end-packet fits its scratch array: `finish` returns with the end-frame in `out[:n]`, for any
-- `out` with room for it, and counts it.
pub finish-Sends :
    (t : Transport) (stream : Stream) (out : List ℕ)
    → length (end_frame stream.opaque) ≤ length out
    → Sends
        (finish t stream out)
        t
        (record (t.stats) { n_txfin = add_uint64 t.n_txfin 1 })
        stream
        (end_frame stream.opaque)
        (length out)
unfolding finish
finish-Sends t stream out h =
    let opaque = head 6 stream.opaque in
    let packet = opaque ++ (0x40 ∷ []) in
    let scratch : List ℕ = replicate 16 0 in
    let prefix : List ℕ = 0xd9 ∷ 0xd9 ∷ 0xf7 ∷ 0xc8 ∷ [] in
    let size : length packet ≤ length scratch =
      omega (arith, length-append opaque (0x40 ∷ []), length-head 6 stream.opaque) in
    let whole : length (prefix ++ item 2 packet) ≤ length out =
      omega (arith, length-append (item 2 packet) (0xff ∷ [])) in
    record {
      out = overwrite (end_frame stream.opaque) out;
      tagout = stream.tagout;
      sends = rw (
        prefix-Writes out (omega arith),
        emit-Writes (put_byte 0xc8) (0xd9 ∷ 0xd9 ∷ 0xf7 ∷ []) (0xc8 ∷ []) out (put_byte-Writes 0xc8)
            (omega arith),
        tag2cbor-Writes stream.opaque scratch (omega (arith, length-head 6 stream.opaque)),
        emit-Writes (put_byte 0x40) opaque (0x40 ∷ []) scratch (put_byte-Writes 0x40) size,
        slice_to-overwrite packet scratch size,
        emit-Writes (valbytes2cbor packet) prefix (item 2 packet) out (valbytes2cbor-Writes packet)
            whole,
        emit-Writes (put_byte 0xff) (prefix ++ item 2 packet) (0xff ∷ []) out (put_byte-Writes 0xff)
            h,
      );
      wire = slice_to-overwrite (end_frame stream.opaque) out h;
      out_room = length-overwrite (end_frame stream.opaque) out h;
      tagout_room = refl;
    }

-- ===== src/Rx/RoundTrip.antt =====
-- `unframepkt` of go_rx.go on the frames of tx.go.
use gofast.Base.{
  ℕ, zero, suc, ◌+◌, ◌≤◌, ◌<◌, ◌^◌, ◌≡◌, ◌≢◌, refl, ap, ◌∙◌, List, [], ◌∷◌, ◌++◌, append_assoc,
  some, Result, ok, ◌>>=◌, ne→==, ◌==◌, if◌then◌else◌, length, length-append, arith,
}
use gofast.Bytes.{IsU64}
use gofast.Cbor.{tag_msg}
use gofast.Cbor.Encode.{head, item, length-head, length-head_byte}
use gofast.Rx.Frames.{behind, unframepkt_frame}
use gofast.Rx.Header.{readtp_end}
use gofast.Rx.Layers.{
  length-wrap-ge, wrap, Decodable, Detags, detag_all-wrap, readtp-wrap, readtp-layer,
}
use gofast.Rx.Message.{unmessage-header_map}
use gofast.Rx.{
  Receiver, Unframed, received, rx_flags, readtp, detag_all, open_packet, unframepkt, unmessage,
}
use gofast.Tx.Packet.{header, header_map, Codec, payload, body, framed, end_frame}
use gofast.Types.{no_message, RxPacket}

-- A call that receives `pkt`, takes `n` bytes off the input and leaves `more`.
pub record Receives (m : Result (Receiver × Unframed)) (r : Receiver) (more : List ℕ) (n : ℕ)
    (pkt : RxPacket) : Type 0 where
  pub tagouts : ℕ → List ℕ
  pub receives : m ≡ ok (record (behind r more n) { tagouts = tagouts }, received pkt)
  pub same_room : (k : ℕ) → length (tagouts k) ≡ length (r.tagouts k)

-- What a receiver needs for a packet on `opaque` that carries `encoded` under `id` in the layers
-- `cs`, listed from the outside in: the configured decoders, buffers with room, and the fuel that
-- its two loops take, a round for each layer and three for the header.
pub record Receivable (fuel : ℕ) (r : Receiver) (cs : List Codec) (opaque id : ℕ) (encoded : List ℕ)
    : Type 0 where
  pub opaque_other : opaque ≢ tag_msg
  pub opaque_u64 : IsU64 opaque
  pub id_some : 0 < id
  pub id_u64 : IsU64 id
  pub encoded_small : length encoded < 2 ^ 63
  pub packet_fits : length (body opaque (wrap cs (header id encoded))) ≤ r.transport.buffersize
  pub buffer_small : r.transport.buffersize < 2 ^ 32
  pub decodable : Decodable r.transport.tagdec (λ k. length (r.tagouts k)) cs (header id encoded)
  pub fuel_layers : length cs < fuel
  pub fuel_header : 3 ≤ fuel

pub length-body : (opaque : ℕ) (bs : List ℕ) → length bs + 2 ≤ length (body opaque bs)
length-body opaque bs = omega (
  arith,
  length-append (head 6 opaque) (item 2 bs),
  length-append (head 2 (length bs)) bs,
  length-head 6 opaque,
  length-head 2 (length bs),
)

fuel_message :
    (fuel id : ℕ) (encoded : List ℕ)
    → 3 ≤ fuel
    → IsU64 id
    → 0 < id
    → length encoded < 2 ^ 63
    → unmessage fuel (header_map id encoded) ≡ ok (record { id = id; body = some encoded })
fuel_message zero id encoded h a b c = absurd (omega arith)
fuel_message (suc zero) id encoded h a b c = absurd (omega arith)
fuel_message (suc (suc zero)) id encoded h a b c = absurd (omega arith)
fuel_message (suc (suc (suc fuel))) id encoded h a b c = unmessage-header_map fuel id encoded a b c

open_packet-body :
    (fuel : ℕ) (r r' : Receiver) (kind : ℕ) (cs : List Codec) (opaque id : ℕ) (encoded : List ℕ)
    → kind ≢ 0xc8
    → Receivable fuel r cs opaque id encoded
    → (tag : ℕ) (inner : List ℕ) → readtp (wrap cs (header id encoded)) ≡ ok (tag, inner)
    → Detags
        (readtp (wrap cs (header id encoded)) >>= λ (tag, payload). detag_all fuel r' tag payload)
        r'
        (header_map id encoded)
    → (tagouts : ℕ → List ℕ) × (open_packet fuel r' kind (body opaque (wrap cs (header id encoded)))
        ≡ ok (
          record r' { tagouts = tagouts },
          received (rx_flags kind opaque (record { id = id; body = some encoded })),
        ))
      × ((k : ℕ) → length (tagouts k) ≡ length (r'.tagouts k))
unfolding open_packet
open_packet-body fuel r r' kind cs opaque id encoded other c tag inner reads d = (
  d.tagouts,
  rw (
    readtp-layer opaque (wrap cs (header id encoded)) c.opaque_other c.opaque_u64 (
        omega
          (arith, length-body opaque (wrap cs (header id encoded)), c.packet_fits, c.buffer_small)),
    ne→== kind 0xc8 other,
    reads,
    (rw reads at (d.detags)),
    fuel_message fuel id encoded c.fuel_header c.id_u64 c.id_some c.encoded_small,
  ),
  d.same_room,
)

-- `unframepkt` on a frame that carries a message.
pub unframepkt-framed :
    (fuel : ℕ) (r : Receiver) (kind : ℕ) (cs : List Codec) (opaque id : ℕ) (encoded more : List ℕ)
    → kind ≢ 0xc8
    → Receivable fuel r cs opaque id encoded
    → r.conn.input ≡ framed kind opaque (wrap cs (header id encoded)) ++ more
    → Receives
        (unframepkt fuel r)
        r
        more
        (length (framed kind opaque (wrap cs (header id encoded))))
        (rx_flags kind opaque (record { id = id; body = some encoded }))
unframepkt-framed fuel r kind cs opaque id encoded more other c input =
    let bs = wrap cs (header id encoded) in
    let inner = body opaque bs in
    let n = 4 + length (head 2 (length inner)) + length inner in
    let r' = behind r more n in
    let (tag, first, reads) = readtp-wrap cs r.transport.tagdec _ id encoded c.decodable in
    let d = detag_all-wrap fuel id encoded cs r' _ c.fuel_layers (λ k. refl) c.decodable in
    let (tagouts, opens, same) =
      open_packet-body fuel r r' kind cs opaque id encoded other c tag first reads d in
    let size : n ≡ length (framed kind opaque bs) =
      omega (arith, length-append (head 2 (length inner)) inner) in
    let plain : (if kind == 0xc8 then length inner + 1 else length inner) ≡ length inner =
      rw (ne→== kind 0xc8 other) in
    record {
      tagouts = tagouts;
      receives =
          unframepkt_frame fuel r kind (length inner) inner more
            (omega (arith, c.packet_fits, c.buffer_small)) plain
            (omega (arith, length-body opaque bs, length-wrap-ge cs id encoded)) c.packet_fits input
          ∙ opens
          ∙ ap
              (λ (k : ℕ). ok (
                record (behind r more k) { tagouts = tagouts },
                received (rx_flags kind opaque (record { id = id; body = some encoded })),
              ))
              size;
      same_room = same;
    }

open_packet_end :
    (fuel : ℕ) (r : Receiver) (opaque : ℕ)
    → opaque ≢ tag_msg
    → IsU64 opaque
    → open_packet fuel r 0xc8 ((head 6 opaque ++ (0x40 ∷ [])) ++ (0xff ∷ []))
      ≡ ok (r, received (rx_flags 0xc8 opaque no_message))
unfolding open_packet
open_packet_end fuel r opaque other fits = rw (readtp_end opaque other fits)

-- An end-frame at the front of the input is read as the stream's opaque value with the finish flag
-- and no message, and its bytes are taken off the input and counted. The opaque value is a uint64
-- of 24 or more, so that the frame has the nine bytes of the first read, and not the tag of a
-- message; the packet buffer has 11 bytes or more.
pub unframepkt-end_frame :
    (fuel : ℕ) (r : Receiver) (opaque : ℕ) (more : List ℕ)
    → 24 ≤ opaque
    → opaque ≢ tag_msg
    → IsU64 opaque
    → 11 ≤ r.transport.buffersize
    → r.conn.input ≡ end_frame opaque ++ more
    → unframepkt fuel r
      ≡ ok (behind r more (length (end_frame opaque)), received (rx_flags 0xc8 opaque no_message))
unframepkt-end_frame fuel r opaque more large other fits room input =
    let named = head 6 opaque ++ (0x40 ∷ []) in
    let content = named ++ (0xff ∷ []) in
    let v = length named in
    let sizes : (length named + 1 ≡ length content) × (length named ≤ 10) × (3 ≤ length named) =
      omega (
        arith,
        length-append named (0xff ∷ []),
        length-append (head 6 opaque) (0x40 ∷ []),
        length-head 6 opaque,
        length-head_byte 6 opaque large,
      ) in
    let regroup : ((head 2 v ++ named) ++ (0xff ∷ [])) ++ more ≡ (head 2 v ++ content) ++ more =
      simp append_assoc in
    let size : 4 + length (head 2 v) + length content ≡ length (end_frame opaque) = omega (
      arith,
      ap length (append_assoc (head 2 v) named (0xff ∷ [])),
      length-append (head 2 v) content,
    ) in
    unframepkt_frame fuel r 0xc8 v content more (omega arith) sizes.0 (omega arith) (omega arith)
      (input ∙ ap (λ (x : List ℕ). 0xd9 ∷ 0xd9 ∷ 0xf7 ∷ 0xc8 ∷ x) regroup)
    ∙ open_packet_end fuel (behind r more (4 + length (head 2 v) + length content)) opaque other
        fits
    ∙ ap (λ (k : ℕ). ok (behind r more k, received (rx_flags 0xc8 opaque no_message))) size

-- ===== src/Tx/Frames.antt =====
-- `framepkt` of tx.go and the packets of the protocol.
use gofast.Base.{
  ℕ, ◌≤◌, ◌<◌, ◌≡◌, refl, subst, ◌∙◌, Bool, true, false, List, [], ◌∷◌, ◌++◌, append_assoc, Result,
  ok, if◌then◌else◌, length, length-append, map, All, ◌==◌, arith,
}
use gofast.Bytes.Written.{overwrite, Writes, emit-Writes, slice_to-overwrite, length-overwrite}
use gofast.Cbor.{
  tag_msg, tag_id, tag_data, tag2cbor, valuint642cbor, valbytes2cbor, map_start, break_stop,
}
use gofast.Cbor.Encode.{
  head, item, tag2cbor-Writes, valuint642cbor-Writes, valbytes2cbor-Writes, map_start-Writes,
  break_stop-Writes,
}
use gofast.Types.{Message, Stream, TagFn, Transport}
use gofast.Tx.{frame_header, roll_tag, roll_tags, framepkt}
use gofast.Tx.Packet.{header, Codec, IsCodec, layer, layers, used, payload, body, packet, LayersFit}

fits_front : (xs ys : List ℕ) {n : ℕ} → length (xs ++ ys) ≤ n → length xs ≤ n
fits_front xs ys h = omega (arith, length-append xs ys)

-- The header as it grows.
module _ (id : ℕ) (encoded : List ℕ) where
  abbrev opened : List ℕ
  opened = head 6 tag_msg ++ (0xbf ∷ [])

  abbrev with_id : List ℕ
  with_id = (opened ++ head 6 tag_id) ++ head 0 id

  abbrev with_data : List ℕ
  with_data = (with_id ++ head 6 tag_data) ++ item 2 encoded

  grown-header : with_data ++ (0xff ∷ []) ≡ header id encoded
  grown-header = simp append_assoc

frame_header-Writes :
    (msg : Message) (data_buf encoded : List ℕ)
    → msg.encode data_buf ≡ ok encoded
    → Writes (frame_header msg data_buf) (header msg.id encoded)
unfolding frame_header
frame_header-Writes msg data_buf encoded e =
    subst (Writes (frame_header msg data_buf)) (grown-header msg.id encoded) (λ buf h7.
      let h6 = fits_front (with_data msg.id encoded) (0xff ∷ []) h7 in
      let h5 = fits_front (with_id msg.id encoded ++ head 6 tag_data) (item 2 encoded) h6 in
      let h4 = fits_front (with_id msg.id encoded) (head 6 tag_data) h5 in
      let h3 = fits_front (opened msg.id encoded ++ head 6 tag_id) (head 0 msg.id) h4 in
      let h2 = fits_front (opened msg.id encoded) (head 6 tag_id) h3 in
      let h1 = fits_front (head 6 tag_msg) (0xbf ∷ []) h2 in
      rw (
        tag2cbor-Writes tag_msg buf h1,
        emit-Writes map_start (head 6 tag_msg) (0xbf ∷ []) buf map_start-Writes h2,
        emit-Writes (tag2cbor tag_id) _ (head 6 tag_id) buf (tag2cbor-Writes tag_id) h3,
        emit-Writes (valuint642cbor msg.id) _ (head 0 msg.id) buf (valuint642cbor-Writes msg.id) h4,
        emit-Writes (tag2cbor tag_data) _ (head 6 tag_data) buf (tag2cbor-Writes tag_data) h5,
        e,
        emit-Writes (valbytes2cbor encoded) _ (item 2 encoded) buf (valbytes2cbor-Writes encoded)
            h6,
        emit-Writes break_stop _ (0xff ∷ []) buf break_stop-Writes h7,
      ))

-- The sender's view of the configured tags.
abbrev pub encoders : List Codec → List (ℕ × TagFn)
encoders cs = map (λ c. (c.tag, c.enc)) cs

length-layer-le : (c : Codec) (bs : List ℕ) → length (head 6 c.tag) ≤ length (layer c bs)
length-layer-le c bs = omega (arith, length-append (head 6 c.tag) (item 2 (c.pack bs)))

not-zero : (n : ℕ) → 0 < n → (n == 0) ≡ false
not-zero n h = ground arith

roll_tag-layer :
    (c : Codec) (bs buf pong : List ℕ)
    → IsCodec c
    → 0 < length bs
    → length bs ≤ length buf
    → length (c.pack bs) ≤ length pong
    → length (layer c bs) ≤ length buf
    → roll_tag c.tag c.enc (overwrite bs buf, pong, length bs)
      ≡ ok (
        overwrite (layer c bs) (overwrite bs buf),
        overwrite (c.pack bs) pong,
        length (layer c bs),
      )
unfolding roll_tag
roll_tag-layer c bs buf pong laws h0 h1 h2 h3 =
    let ping = overwrite bs buf in
    let same : length ping ≡ length buf = length-overwrite bs buf h1 in
    rw (
      slice_to-overwrite bs buf h1,
      laws.encodes bs pong h0 h2,
      not-zero (length (c.pack bs)) (laws.pack_some bs h0),
      tag2cbor-Writes c.tag ping (omega (arith, length-layer-le c bs)),
      slice_to-overwrite (c.pack bs) pong h2,
      emit-Writes (valbytes2cbor (c.pack bs)) (head 6 c.tag) (item 2 (c.pack bs)) ping
          (valbytes2cbor-Writes (c.pack bs)) (omega arith),
    )

LayersFit-last :
    (cs : List Codec) (bs : List ℕ) (ping pong : ℕ)
    → LayersFit cs bs ping pong
    → length (layers cs bs) ≤ ping
LayersFit-last [] bs ping pong h = h
LayersFit-last (c ∷ cs) bs ping pong h = LayersFit-last cs (layer c bs) ping pong h.2

LayersFit-first :
    (cs : List Codec) (bs : List ℕ) (ping pong : ℕ) → LayersFit cs bs ping pong → length bs ≤ ping
LayersFit-first [] bs ping pong h = h
LayersFit-first (c ∷ cs) bs ping pong h = h.0

-- The loop over the tags leaves all the layers at the front of `ping`.
pub record Rolled (cs : List Codec) (bs buf pong : List ℕ) : Type 0 where
  pub under : List ℕ
  pub tagout : List ℕ
  pub rolls :
      roll_tags (encoders cs) (overwrite bs buf, pong, length bs)
      ≡ ok (overwrite (layers cs bs) under, tagout, length (layers cs bs))
  pub ping_room : length under ≡ length buf
  pub pong_room : length tagout ≡ length pong

pub roll_tags-layers :
    (cs : List Codec) (bs buf pong : List ℕ)
    → All IsCodec cs
    → 0 < length bs
    → LayersFit cs bs (length buf) (length pong)
    → Rolled cs bs buf pong
unfolding roll_tags
roll_tags-layers [] bs buf pong laws h0 h = record {
  under = buf;
  tagout = pong;
  rolls = refl;
  ping_room = refl;
  pong_room = refl;
}
roll_tags-layers (c ∷ cs) bs buf pong laws h0 h =
    let ping = overwrite bs buf in
    let pong' = overwrite (c.pack bs) pong in
    let same : length ping ≡ length buf = length-overwrite bs buf h.0 in
    let same' : length pong' ≡ length pong = length-overwrite (c.pack bs) pong h.1 in
    let rest =
      roll_tags-layers cs (layer c bs) ping pong' laws.1 (omega arith) (rw (same, same') h.2) in
    record {
      under = rest.under;
      tagout = rest.tagout;
      rolls =
          rw
            (roll_tag-layer c bs buf pong laws.0 h0 h.0 h.1
              (LayersFit-first cs (layer c bs) _ _ h.2))
            rest.rolls;
      ping_room = rest.ping_room ∙ same;
      pong_room = rest.pong_room ∙ same';
    }

-- What a send of `msg` on `stream` works with: the tags `cs` are configured, the message encodes
-- to `encoded`, and each of the two buffers has room for what is written to it.
pub record Ready (cs : List Codec) (t : Transport) (msg : Message) (stream : Stream)
    (encoded : List ℕ) (room : ℕ) : Type 0 where
  pub laws : All IsCodec cs
  pub tags : t.tagenc ≡ encoders cs
  pub encodes : msg.encode stream.data_buf ≡ ok encoded
  pub layers_fit :
      LayersFit (used msg.is_whoami cs) (header msg.id encoded) room (length stream.tagout)
  pub body_fits :
      length (body stream.opaque (payload msg.is_whoami cs msg.id encoded)) ≤ length stream.tagout
  pub packet_fits : length (packet stream.opaque (payload msg.is_whoami cs msg.id encoded)) ≤ room

-- The bytes that a call leaves at the front of the buffer, with what it leaves in `tagout`.
pub record Leaves (r : Result (List ℕ × List ℕ × ℕ)) (bs : List ℕ) (room pong : ℕ) : Type 0 where
  pub under : List ℕ
  pub tagout : List ℕ
  pub leaves : r ≡ ok (overwrite bs under, tagout, length bs)
  pub ping_room : length under ≡ room
  pub pong_room : length tagout ≡ pong

used-roll :
    (whoami : Bool) (cs : List Codec) (t : Transport) (st : List ℕ × List ℕ × ℕ)
    → t.tagenc ≡ encoders cs
    → (if whoami then ok st else roll_tags t.tagenc st) ≡ roll_tags (encoders (used whoami cs)) st
unfolding roll_tags
used-roll true cs t st e = refl
used-roll false cs t st e = rw e

used-IsCodec : (whoami : Bool) (cs : List Codec) → All IsCodec cs → All IsCodec (used whoami cs)
used-IsCodec true cs laws = tt
used-IsCodec false cs laws = laws

length-body-ge : (opaque : ℕ) (bs : List ℕ) → length (head 6 opaque) ≤ length (body opaque bs)
length-body-ge opaque bs = omega (arith, length-append (head 6 opaque) (item 2 bs))

-- `framepkt` leaves the packet.
pub framepkt-Leaves :
    (cs : List Codec) (t : Transport) (msg : Message) (stream : Stream) (encoded ping : List ℕ)
    → Ready cs t msg stream encoded (length ping)
    → Leaves
        (framepkt t msg stream ping)
        (packet stream.opaque (payload msg.is_whoami cs msg.id encoded))
        (length ping)
        (length stream.tagout)
unfolding framepkt
framepkt-Leaves cs t msg stream encoded ping ready =
    let whole = payload msg.is_whoami cs msg.id encoded in
    let inner = body stream.opaque whole in
    let header_fits =
      LayersFit-first (used msg.is_whoami cs) (header msg.id encoded) _ _ ready.layers_fit in
    let rolled =
      roll_tags-layers (used msg.is_whoami cs) (header msg.id encoded) ping stream.tagout
        (used-IsCodec msg.is_whoami cs ready.laws) (omega arith) ready.layers_fit in
    let filled : length whole ≤ length rolled.under =
      rw rolled.ping_room (LayersFit-last (used msg.is_whoami cs) _ _ _ ready.layers_fit) in
    let inner_fits : length inner ≤ length rolled.tagout = rw rolled.pong_room ready.body_fits in
    let under = overwrite whole rolled.under in
    let same : length under ≡ length ping =
      length-overwrite whole rolled.under filled ∙ rolled.ping_room in
    record {
      under = under;
      tagout = overwrite inner rolled.tagout;
      leaves = rw (
        frame_header-Writes msg stream.data_buf encoded ready.encodes ping header_fits,
        used-roll msg.is_whoami cs t (overwrite (header msg.id encoded) ping, stream.tagout, _)
            ready.tags,
        rolled.rolls,
        tag2cbor-Writes stream.opaque rolled.tagout
            (omega (arith, length-body-ge stream.opaque whole)),
        slice_to-overwrite whole rolled.under filled,
        emit-Writes (valbytes2cbor whole) (head 6 stream.opaque) (item 2 whole) rolled.tagout
            (valbytes2cbor-Writes whole) inner_fits,
        slice_to-overwrite inner rolled.tagout inner_fits,
        valbytes2cbor-Writes inner under (rw same ready.packet_fits),
      );
      ping_room = same;
      pong_room = length-overwrite inner rolled.tagout inner_fits ∙ rolled.pong_room;
    }

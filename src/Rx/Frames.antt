-- ===== src/Rx/Frames.antt =====
-- `unframepkt` on a whole frame at the front of the input.
use gofast.Base.{
  ℕ, ◌+◌, ◌-◌, ◌≤◌, ◌<◌, ◌^◌, ◌≡◌, refl, sym, ap, subst, ◌∙◌, List, [], ◌∷◌, ◌++◌, append_assoc,
  none, pos, le→leb, ◌==◌, if◌then◌else◌, length, length-append, length-take, length-drop, take,
  drop, take_all, take-append_length, drop-append_length, take-append-drop, arith,
}
use gofast.Bytes.{index}
use gofast.Bytes.Slices.{slice_from-second}
use gofast.Cbor.Decode.{cbor_item_length-head, int64_small}
use gofast.Cbor.Encode.{head, length-head, length-head_word}
use gofast.Rx.{Conn, Receiver, read_full, read_packet, unframe_pad, unframepkt, open_packet}
use gofast.Types.{add_uint64}

read_full-append :
    (conn : Conn) (n : ℕ) (bs more : List ℕ)
    → conn.input ≡ bs ++ more
    → length bs ≡ n
    → read_full conn n ≡ (bs, record conn { input = more }, none)
unfolding read_full
read_full-append conn n bs more e size = rw (
  e,
  ← size,
  le→leb (length bs) (length (bs ++ more)) (omega (arith, length-append bs more)),
  take-append_length bs more,
  drop-append_length bs more,
)

-- The receiver behind a frame of `n` bytes.
abbrev pub behind : Receiver → List ℕ → ℕ → Receiver
behind r more n =
    let t = r.transport in
    let stats = record (t.stats) { n_rxbyte = add_uint64 t.n_rxbyte n } in
    record r { conn = record (r.conn) { input = more }; transport = record t { stats = stats } }

-- The second read completes the packet.
read_packet-append :
    (fuel : ℕ) (r : Receiver) (kind : ℕ) (front got more : List ℕ)
    → r.conn.input ≡ got ++ more
    → length (front ++ got) ≤ r.transport.buffersize
    → read_packet fuel r kind front (pos (length (front ++ got)))
      ≡ open_packet fuel (behind r more (9 + length got)) kind (front ++ got)
unfolding read_packet
read_packet-append fuel r kind front got more e fits = rw (
  read_full-append r.conn (length (front ++ got) - length front) got more e
      (omega (arith, length-append front got)),
  le→leb (length front) (length (front ++ got)) (omega (arith, length-append front got)),
  le→leb (length (front ++ got)) r.transport.buffersize fits,
  read_full-append r.conn (length (front ++ got) - length front) got more e
      (omega (arith, length-append front got)),
)

kind_length :
    (kind v ln : ℕ)
    → (if kind == 0xc8 then v + 1 else v) ≡ ln
    → (if kind == 0xc8 then pos (v + 1) else pos v) ≡ pos ln
kind_length kind v ln e = ground arith

-- The first read has the prefix, the kind and five bytes `seen` of what follows.
unframe_pad-head :
    (fuel : ℕ) (r : Receiver) (kind v : ℕ) (seen : List ℕ) (ln : ℕ)
    → v < 2 ^ 32
    → (if kind == 0xc8 then v + 1 else v) ≡ ln
    → length seen ≤ r.transport.buffersize
    → unframe_pad fuel r (0xd9 ∷ 0xd9 ∷ 0xf7 ∷ kind ∷ (head 2 v ++ seen))
      ≡ read_packet fuel r kind seen (pos ln)
unfolding unframe_pad index
unframe_pad-head fuel r kind v seen ln h e fits =
    let rest = slice_from-second (0xd9 ∷ 0xd9 ∷ 0xf7 ∷ kind ∷ []) (head 2 v) seen in
    rw
      (
        cbor_item_length-head 2 v seen (omega arith) (omega arith),
        int64_small v (omega arith),
        rest,
        take_all r.transport.buffersize seen fits,
      )
      (ap (read_packet fuel r kind seen) (kind_length kind v ln e))

unframepkt_read :
    (fuel : ℕ) (r : Receiver) (pad : List ℕ) (conn : Conn)
    → read_full r.conn 9 ≡ (pad, conn, none)
    → unframepkt fuel r ≡ unframe_pad fuel (record r { conn = conn }) pad
unfolding unframepkt
unframepkt_read fuel r pad conn e = rw (e, unframepkt, e)

-- A frame whose packet holds `content`: the two reads take the frame off the input and count its
-- bytes, and the packet is opened.
pub unframepkt_frame :
    (fuel : ℕ) (r : Receiver) (kind v : ℕ) (content more : List ℕ)
    → v < 2 ^ 32
    → (if kind == 0xc8 then v + 1 else v) ≡ length content
    → 4 ≤ length content
    → length content ≤ r.transport.buffersize
    → r.conn.input ≡ 0xd9 ∷ 0xd9 ∷ 0xf7 ∷ kind ∷ ((head 2 v ++ content) ++ more)
    → unframepkt fuel r
      ≡ open_packet fuel (behind r more (4 + length (head 2 v) + length content)) kind content
unframepkt_frame fuel r kind v content more small e long fits input =
    let j = 5 - length (head 2 v) in
    let seen = take j content in
    let unseen = drop j content in
    let pad = 0xd9 ∷ 0xd9 ∷ 0xf7 ∷ kind ∷ (head 2 v ++ seen) in
    let both : seen ++ unseen ≡ content = take-append-drop j content in
    let seen_size : length seen ≡ j = omega (arith, length-take j content, length-head 2 v) in
    let split : r.conn.input ≡ pad ++ (unseen ++ more) =
      input
      ∙ ap (λ (x : List ℕ). 0xd9 ∷ 0xd9 ∷ 0xf7 ∷ kind ∷ x)
          (ap (λ (x : List ℕ). (head 2 v ++ x) ++ more) (sym both) ∙ simp append_assoc) in
    let r' = record r { conn = record (r.conn) { input = unseen ++ more } } in
    let total : 9 + length unseen ≡ 4 + length (head 2 v) + length content =
      omega (arith, length-drop j content, length-head_word 2 v small, length-head 2 v) in
    unframepkt_read fuel r pad r'.conn (
      read_full-append r.conn 9 pad (unseen ++ more) split
        (omega (arith, length-append (head 2 v) seen, length-head_word 2 v small)))
    ∙ unframe_pad-head fuel r' kind v seen (length content) small e
        (omega (arith, length-take j content))
    ∙ subst
        (λ (x : List ℕ).
          read_packet fuel r' kind seen (pos (length x))
          ≡ open_packet fuel (behind r more (9 + length unseen)) kind x)
        both (read_packet-append fuel r' kind seen unseen more refl (rw both fits))
    ∙ ap (λ (n : ℕ). open_packet fuel (behind r more n) kind content) total

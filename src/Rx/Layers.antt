-- ===== src/Rx/Layers.antt =====
-- The loop of `unframepkt` over the tags takes off the layers that the sender rolled up.
use gofast.Base.{
  length-append, ℕ, zero, suc, ◌≤◌, ◌<◌, ◌^◌, ◌≡◌, ◌≢◌, refl, sym, ap, subst, ◌∙◌, List, [], ◌∷◌,
  ◌++◌, append-nil, some, Result, ok, ◌>>=◌, lt→ltb, ne→==, ◌==◌, if◌then◌else◌, length, arith,
}
use mathlib.Core.List.{reverse, reverse-cons}
use gofast.Bytes.{IsU64}
use gofast.Bytes.Written.{overwrite, length-overwrite, slice_to-overwrite}
use gofast.Cbor.{tag_msg}
use gofast.Cbor.Encode.{head_tail, head, item}
use gofast.Rx.Header.{readtp-item, readtp-tag_msg}
use gofast.Rx.{Receiver, readtp, detag, detag_all}
use gofast.Tx.Packet.{header, header_map, Codec, IsCodec, layer, layers}
use gofast.Types.{TagFn, find_key}

-- The layers from the outside in, which is the order in which the receiver meets them.
abbrev pub wrap : List Codec → List ℕ → List ℕ
wrap [] bs = bs
wrap (c ∷ cs) bs = layer c (wrap cs bs)

wrap-append : (xs ys : List Codec) (bs : List ℕ) → wrap (xs ++ ys) bs ≡ wrap xs (wrap ys bs)
wrap-append [] ys bs = refl
wrap-append (x ∷ xs) ys bs = ap (layer x) (wrap-append xs ys bs)

pub layers-wrap : (cs : List Codec) (bs : List ℕ) → layers cs bs ≡ wrap (reverse cs) bs
layers-wrap [] bs = refl
layers-wrap (c ∷ cs) bs =
    layers-wrap cs (layer c bs)
    ∙ sym (wrap-append (reverse cs) (c ∷ []) bs)
    ∙ ap (λ (l : List Codec). wrap l bs) (sym (reverse-cons c cs))

pub length-wrap-ge :
    (cs : List Codec) (id : ℕ) (encoded : List ℕ) → 2 ≤ length (wrap cs (header id encoded))
length-wrap-ge [] id encoded =
    omega (arith, length-append (head_tail tag_msg) (header_map id encoded))
length-wrap-ge (c ∷ cs) id encoded =
    omega (arith, length-append (head_tail c.tag) (item 2 (c.pack (wrap cs (header id encoded)))))

-- The receiver has the decoder of each layer, and a buffer with room for what it decodes.
abbrev pub Decodable : List (ℕ × TagFn) → (ℕ → ℕ) → List Codec → List ℕ → Type 0
Decodable tagdec room [] bs = Unit {0}
Decodable tagdec room (c ∷ cs) bs =
    IsCodec c
    × (find_key c.tag tagdec ≡ some c.dec)
    × (length (c.pack (wrap cs bs)) < 2 ^ 63)
    × (length (wrap cs bs) ≤ room c.tag)
    × Decodable tagdec room cs bs

-- What `r` becomes by decoding: its decoders' buffers hold other bytes.
pub record Detags (m : Result (Receiver × List ℕ)) (r : Receiver) (bs : List ℕ) : Type 0 where
  pub tagouts : ℕ → List ℕ
  pub detags : m ≡ ok (record r { tagouts = tagouts }, bs)
  pub same_room : (k : ℕ) → length (tagouts k) ≡ length (r.tagouts k)

detag-layer :
    (r : Receiver) (c : Codec) (bs : List ℕ) (tag : ℕ) (inner : List ℕ)
    → IsCodec c
    → find_key c.tag r.transport.tagdec ≡ some c.dec
    → 0 < length bs
    → length bs ≤ length (r.tagouts c.tag)
    → readtp bs ≡ ok (tag, inner)
    → detag r c.tag (c.pack bs)
      ≡ ok (
        record r {
          tagouts = λ k. if k == c.tag then overwrite bs (r.tagouts c.tag) else r.tagouts k;
        },
        tag,
        inner,
      )
unfolding detag
detag-layer r c bs tag inner laws found some_bytes room reads = rw (
  found,
  detag,
  laws.decodes bs (r.tagouts c.tag) some_bytes room,
  slice_to-overwrite bs (r.tagouts c.tag) room,
  reads,
)

pub readtp-layer :
    (tag : ℕ) (bs : List ℕ)
    → tag ≢ tag_msg
    → IsU64 tag
    → length bs < 2 ^ 63
    → readtp (head 6 tag ++ item 2 bs) ≡ ok (tag, bs)
readtp-layer tag bs other fits small =
    subst (λ (x : List ℕ). readtp (head 6 tag ++ x) ≡ ok (tag, bs)) (append-nil (item 2 bs))
      (readtp-item tag bs [] other fits small)

-- Whatever the layers, the first tag can be read.
pub readtp-wrap :
    (cs : List Codec) (tagdec : List (ℕ × TagFn)) (room : ℕ → ℕ) (id : ℕ) (encoded : List ℕ)
    → Decodable tagdec room cs (header id encoded)
    → (tag : ℕ) × (inner : List ℕ) × (readtp (wrap cs (header id encoded)) ≡ ok (tag, inner))
readtp-wrap [] tagdec room id encoded d =
    (tag_msg, header_map id encoded, readtp-tag_msg (header_map id encoded))
readtp-wrap (c ∷ cs) tagdec room id encoded (laws, found, small, fits, rest) = (
  c.tag,
  c.pack (wrap cs (header id encoded)),
  readtp-layer c.tag _ laws.tag_other laws.tag_u64 small,
)

updated_room :
    (outs : ℕ → List ℕ) (tag : ℕ) (out : List ℕ) (k : ℕ)
    → length out ≡ length (outs tag)
    → length (if k == tag then out else outs k) ≡ length (outs k)
updated_room outs tag out k e = ground (arith, ap (λ (j : ℕ). length (outs j)))

detag_all_step :
    (fuel : ℕ) (r r' : Receiver) (tag tag' : ℕ) (payload payload' : List ℕ)
    → tag ≢ tag_msg
    → 0 < length payload
    → detag r tag payload ≡ ok (r', tag', payload')
    → detag_all (suc fuel) r tag payload ≡ detag_all fuel r' tag' payload'
unfolding detag_all
detag_all_step fuel r r' tag tag' payload payload' other some_payload e =
    rw (ne→== tag tag_msg other, lt→ltb 0 (length payload) some_payload, detag_all, e)

-- With a round of fuel for each layer and one more, with the decoder of each layer configured and
-- with room in its buffer, the loop over the tags takes off all the layers, from the outermost
-- that `readtp` reads first to the header map, and keeps the sizes of the buffers.
pub detag_all-wrap :
    (fuel id : ℕ) (encoded : List ℕ) (cs : List Codec) (r : Receiver) (room : ℕ → ℕ)
    → length cs < fuel
    → ((k : ℕ) → length (r.tagouts k) ≡ room k)
    → Decodable r.transport.tagdec room cs (header id encoded)
    → Detags
        (readtp (wrap cs (header id encoded)) >>= λ (tag, payload). detag_all fuel r tag payload)
        r
        (header_map id encoded)
unfolding detag_all
detag_all-wrap zero id encoded cs r room h same ready = absurd (omega arith)
detag_all-wrap (suc fuel) id encoded [] r room h same ready = record {
  tagouts = r.tagouts;
  detags = rw (readtp-tag_msg (header_map id encoded));
  same_room = λ k. refl;
}
detag_all-wrap (suc fuel) id encoded (c ∷ cs) r room h same (laws, found, small, fits, ready) =
    let bs = wrap cs (header id encoded) in
    let some_bytes : 0 < length bs = omega (arith, length-wrap-ge cs id encoded) in
    let out = overwrite bs (r.tagouts c.tag) in
    let fits' : length bs ≤ length (r.tagouts c.tag) = rw (same c.tag) fits in
    let r' = record r { tagouts = λ k. if k == c.tag then out else r.tagouts k } in
    let kept : (k : ℕ) → length (r'.tagouts k) ≡ length (r.tagouts k) =
      λ k. updated_room r.tagouts c.tag out k (length-overwrite bs (r.tagouts c.tag) fits') in
    let (tag, inner, reads) = readtp-wrap cs r.transport.tagdec room id encoded ready in
    let rest =
      detag_all-wrap fuel id encoded cs r' room (omega arith) (λ k. kept k ∙ same k) ready in
    record {
      tagouts = rest.tagouts;
      detags =
          rw
            (
              readtp-layer c.tag (c.pack bs) laws.tag_other laws.tag_u64 small,
              detag_all_step fuel r r' c.tag tag (c.pack bs) inner laws.tag_other
                  (laws.pack_some bs some_bytes)
                  (detag-layer r c bs tag inner laws found some_bytes fits' reads),
            )
            (rw reads at (rest.detags));
      same_room = λ k. rest.same_room k ∙ kept k;
    }

-- ===== src/Rx/Message.antt =====
-- `unmessage` reads back the header map that `framepkt` writes.
use gofast.Base.{
  ℕ, suc, ◌+◌, ◌*◌, ◌-◌, ◌<◌, ◌^◌, ◌≡◌, ◌≢◌, sym, ap, ◌∙◌, true, false, List, [], ◌∷◌, ◌++◌,
  append_assoc, Option, none, some, ok, ℤ, pos, int64, uint64-int64, lt→ltb, le→ltb, ne→==, length,
  length-append, arith,
}
use mathlib.Core.Path.{subst₂}
use gofast.Bytes.{IsU64}
use gofast.Bytes.Slices.{index-append}
use gofast.Cbor.{tag_id, tag_data}
use gofast.Cbor.Encode.{head, item, head_info, head_tail, head_info-lt}
use gofast.Rx.Header.{read_id, read_data, not-is_pos}
use gofast.Rx.{Fields, read_field, more_fields, read_fields, to_message, unmessage}
use gofast.Tx.Packet.{header_map}

pub more_fields_on :
    (front : List ℕ) (b : ℕ) (rest : List ℕ) (id : ℤ) (body : Option (List ℕ))
    → b ≢ 0xff
    → 0 < length rest
    → more_fields (front ++ b ∷ rest) (record { n = pos (length front); id = id; body = body })
      ≡ ok true
unfolding more_fields
more_fields_on front b rest id body h k = rw (
  lt→ltb (length front) (length (front ++ b ∷ rest) - 1)
      (omega (arith, length-append front (b ∷ rest))),
  index-append front b rest,
  ne→== b 0xff h,
)

more_fields_end :
    (front : List ℕ) (b : ℕ) (id : ℤ) (body : Option (List ℕ))
    → more_fields (front ++ b ∷ []) (record { n = pos (length front); id = id; body = body })
      ≡ ok false
unfolding more_fields
more_fields_end front b id body = rw (
    le→ltb (length front) (length (front ++ b ∷ []) - 1)
      (omega (arith, length-append front (b ∷ []))))

-- A tag is not taken for the break.
tag_follows :
    (front : List ℕ) (tag : ℕ) (rest : List ℕ) (id : ℤ) (body : Option (List ℕ))
    → 0 < length (head_tail tag ++ rest)
    → more_fields
        (front ++ (head 6 tag ++ rest))
        (record { n = pos (length front); id = id; body = body })
      ≡ ok true
tag_follows front tag rest id body h =
    more_fields_on front (6 * 32 + head_info tag) (head_tail tag ++ rest) id body
      (λ e. absurd (omega (arith, head_info-lt tag))) h

pub read_fields_step :
    (fuel : ℕ) (msgdata : List ℕ) (s s' : Fields)
    → more_fields msgdata s ≡ ok true
    → read_field msgdata s ≡ ok s'
    → read_fields (suc fuel) msgdata s ≡ read_fields fuel msgdata s'
unfolding read_fields
read_fields_step fuel msgdata s s' on read = rw (on, read)

read_fields_stop :
    (fuel : ℕ) (msgdata : List ℕ) (s : Fields)
    → more_fields msgdata s ≡ ok false
    → read_fields (suc fuel) msgdata s ≡ ok s
unfolding read_fields
read_fields_stop fuel msgdata s off = rw off

-- The last field, and then the break.
read_fields_data :
    (fuel : ℕ) (front encoded : List ℕ) (id : ℤ) (body : Option (List ℕ))
    → length encoded < 2 ^ 63
    → read_fields
        (suc (suc fuel))
        (front ++ (head 6 tag_data ++ (item 2 encoded ++ (0xff ∷ []))))
        (record { n = pos (length front); id = id; body = body })
      ≡ ok (record {
        n = pos (length (front ++ (head 6 tag_data ++ item 2 encoded)));
        id = id;
        body = some encoded;
      })
read_fields_data fuel front encoded id body small =
    let tail = item 2 encoded ++ (0xff ∷ []) in
    let done = front ++ (head 6 tag_data ++ item 2 encoded) in
    let whole : front ++ (head 6 tag_data ++ tail) ≡ done ++ (0xff ∷ []) = simp append_assoc in
    let size : length front
          + length (head 6 tag_data)
          + length (head 2 (length encoded))
          + length encoded
        ≡ length done =
      omega (
        arith,
        length-append front (head 6 tag_data ++ item 2 encoded),
        length-append (head 6 tag_data) (item 2 encoded),
        length-append (head 2 (length encoded)) encoded,
      ) in
    read_fields_step (suc fuel) (front ++ (head 6 tag_data ++ tail)) _ _
      (tag_follows front tag_data tail id body (
        omega (
          arith,
          length-append (head_tail tag_data) tail,
          length-append (item 2 encoded) (0xff ∷ []),
        )))
      (read_data front encoded (0xff ∷ []) id body small)
    ∙ subst₂
        (λ (m : List ℕ) (n : ℕ).
          read_fields (suc fuel) m (record { n = pos n; id = id; body = some encoded })
          ≡ ok (record { n = pos (length done); id = id; body = some encoded }))
        (sym whole) (sym size)
        (read_fields_stop fuel (done ++ (0xff ∷ [])) _
          (more_fields_end done 0xff id (some encoded)))

-- Both fields, in the order in which the sender writes them.
read_fields_all :
    (fuel : ℕ) (front encoded : List ℕ) (id : ℕ) (v : ℤ) (body : Option (List ℕ))
    → IsU64 id
    → length encoded < 2 ^ 63
    → read_fields
        (suc (suc (suc fuel)))
        (front
          ++ (head 6 tag_id ++ (head 0 id ++ (head 6 tag_data ++ (item 2 encoded ++ (0xff ∷ []))))))
        (record { n = pos (length front); id = v; body = body })
      ≡ ok (record {
        n = pos (
            length
              (front ++ (head 6 tag_id ++ (head 0 id ++ (head 6 tag_data ++ item 2 encoded)))));
        id = int64 id;
        body = some encoded;
      })
read_fields_all fuel front encoded id v body fits small =
    let tail = head 6 tag_data ++ (item 2 encoded ++ (0xff ∷ [])) in
    let front' = front ++ (head 6 tag_id ++ head 0 id) in
    let whole : front ++ (head 6 tag_id ++ (head 0 id ++ tail)) ≡ front' ++ tail =
      simp append_assoc in
    let ends : front' ++ (head 6 tag_data ++ item 2 encoded)
        ≡ front ++ (head 6 tag_id ++ (head 0 id ++ (head 6 tag_data ++ item 2 encoded))) =
      simp append_assoc in
    let size : length front + length (head 6 tag_id) + length (head 0 id) ≡ length front' = omega (
      arith,
      length-append front (head 6 tag_id ++ head 0 id),
      length-append (head 6 tag_id) (head 0 id),
    ) in
    read_fields_step (suc (suc fuel)) (front ++ (head 6 tag_id ++ (head 0 id ++ tail))) _ _
      (tag_follows front tag_id (head 0 id ++ tail) v body
        (omega (arith, length-append (head_tail tag_id) (head 0 id ++ tail))))
      (read_id front id tail v body fits)
    ∙ subst₂
        (λ (m : List ℕ) (n : ℕ).
          read_fields (suc (suc fuel)) m (record { n = pos n; id = int64 id; body = body })
          ≡ ok (record {
            n = pos (length (front' ++ (head 6 tag_data ++ item 2 encoded)));
            id = int64 id;
            body = some encoded;
          }))
        (sym whole) (sym size) (read_fields_data fuel front' encoded (int64 id) body small)
    ∙ ap (λ (m : List ℕ). ok (record { n = pos (length m); id = int64 id; body = some encoded }))
        ends

-- From the header map of a message `unmessage` gets its id and its data back, with fuel for three
-- rounds or more, where the id is a uint64 that is not 0 and the length of the data fits an int64.
pub unmessage-header_map :
    (fuel id : ℕ) (encoded : List ℕ)
    → IsU64 id
    → 0 < id
    → length encoded < 2 ^ 63
    → unmessage (suc (suc (suc fuel))) (header_map id encoded)
      ≡ ok (record { id = id; body = some encoded })
unfolding unmessage to_message
unmessage-header_map fuel id encoded fits some_id small =
    let inner = head 6 tag_id ++ (head 0 id ++ (head 6 tag_data ++ item 2 encoded)) in
    let whole : header_map id encoded ≡ (0xbf ∷ inner) ++ (0xff ∷ []) = simp append_assoc in
    rw (
      read_fields_all fuel (0xbf ∷ []) encoded id (pos 0) none fits small,
      lt→ltb (length (0xbf ∷ inner)) (length (header_map id encoded))
          (omega (arith, ap length whole, length-append (0xbf ∷ inner) (0xff ∷ []))),
      not-is_pos id 0 (λ e. absurd (omega arith)) (omega arith),
      uint64-int64 id fits,
    )

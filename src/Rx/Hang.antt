-- ===== src/Rx/Hang.antt =====
-- The loop of `unmessage` of go_rx.go where an item is cut short at the end of the header:
-- `cborItemLength` answers (-1, -1), and `n += k` steps back to the item before it.
use gofast.Base.{
  ℕ, zero, suc, ◌+◌, ◌≤◌, ◌<◌, ◌≡◌, ◌≢◌, refl, sym, ap, subst, ◌∙◌, List, [], ◌∷◌, ◌++◌,
  append_assoc, Option, none, ok, stuck, ℤ, pos, negsuc, sub_ℕ, ne→==, ◌==◌, if◌then◌else◌, length,
  length-append, arith,
}
use mathlib.Core.Path.{subst₂}
use gofast.Bytes.{IsU64}
use gofast.Bytes.Slices.{slice_from-append}
use gofast.Cbor.{tag_msg, cbor_item_length, cbor_info}
use gofast.Cbor.Encode.{head, item, head_info, head_tail, length-head}
use gofast.Cbor.Decode.{info-major}
use gofast.Rx.Frames.{unframepkt_frame}
use gofast.Rx.Header.{readtp-tag_msg}
use gofast.Rx.Layers.{readtp-layer}
use gofast.Rx.Message.{more_fields_on, read_fields_step}
use gofast.Rx.{Receiver, read_field, read_fields, unmessage, detag_all, open_packet, unframepkt}
use gofast.Tx.Packet.{body, framed}

-- A small item, and the first byte of a two-byte number with one byte left of the two.
abbrev pub cut_short : ℕ → ℕ → List ℕ
cut_short x y = x ∷ 0x19 ∷ y ∷ []

cbor_item_length-small :
    (x : ℕ) (rest : List ℕ) → x < 24 → cbor_item_length (x ∷ rest) ≡ ok (pos x, pos 1)
unfolding cbor_item_length
cbor_item_length-small x rest h = ground (arith, info-major 0 x)

cbor_item_length_cut : (y : ℕ) → cbor_item_length (0x19 ∷ y ∷ []) ≡ ok (negsuc 0, negsuc 0)
unfolding cbor_item_length cbor_info
cbor_item_length_cut y = refl

back_one : (front : List ℕ) (x : ℕ) → sub_ℕ (length (front ++ x ∷ [])) 1 ≡ pos (length front)
back_one front x = ground (arith, length-append front (x ∷ []))

module _ (front : List ℕ) (x y : ℕ) (small : x < 24) (id : ℤ) (got : Option (List ℕ)) where
  step_on :
      read_field (front ++ cut_short x y) (record { n = pos (length front); id = id; body = got })
      ≡ ok (record { n = pos (length front + 1); id = id; body = got })
  unfolding read_field
  step_on = rw (
    slice_from-append front (cut_short x y),
    cbor_item_length-small x (0x19 ∷ y ∷ []) small,
    ne→== x 44 (λ e. absurd (omega arith)),
    ne→== x 45 (λ e. absurd (omega arith)),
  )

  step_back :
      read_field
        ((front ++ x ∷ []) ++ (0x19 ∷ y ∷ []))
        (record { n = pos (length (front ++ x ∷ [])); id = id; body = got })
      ≡ ok (record { n = pos (length front); id = id; body = got })
  unfolding read_field
  step_back =
      rw (slice_from-append (front ++ x ∷ []) (0x19 ∷ y ∷ []), cbor_item_length_cut y)
        (ap (λ n. ok (record { n = n; id = id; body = got })) (back_one front x))

read_fields_hang :
    (fuel : ℕ) (front : List ℕ) (x y : ℕ) (id : ℤ) (got : Option (List ℕ))
    → x < 24
    → read_fields fuel
        (front ++ cut_short x y)
        (record { n = pos (length front); id = id; body = got })
      ≡ stuck
unfolding read_fields
read_fields_hang zero front x y id got h = refl
read_fields_hang (suc zero) front x y id got h =
    read_fields_step 0 (front ++ cut_short x y) _ _
      (more_fields_on front x (0x19 ∷ y ∷ []) id got (λ e. absurd (omega arith)) (omega arith))
      (step_on front x y h id got)
read_fields_hang (suc (suc fuel)) front x y id got h =
    let next = front ++ x ∷ [] in
    let size : length front + 1 ≡ length next = omega (arith, length-append front (x ∷ [])) in
    let whole : front ++ cut_short x y ≡ next ++ (0x19 ∷ y ∷ []) =
      sym (append_assoc front (x ∷ []) (0x19 ∷ y ∷ [])) in
    read_fields_step (suc fuel) (front ++ cut_short x y) _ _
      (more_fields_on front x (0x19 ∷ y ∷ []) id got (λ e. absurd (omega arith)) (omega arith))
      (step_on front x y h id got)
    ∙ subst₂
        (λ (m : List ℕ) (n : ℕ).
          read_fields (suc fuel) m (record { n = pos n; id = id; body = got }) ≡ stuck)
        (sym whole) (sym size)
        (read_fields_step fuel (next ++ (0x19 ∷ y ∷ [])) _ _
            (more_fields_on next 0x19 (y ∷ []) id got (λ e. absurd (omega arith)) (omega arith))
            (step_back front x y h id got)
          ∙ subst
              (λ (m : List ℕ).
                read_fields fuel m (record { n = pos (length front); id = id; body = got }) ≡ stuck)
              whole (read_fields_hang fuel front x y id got h))

-- Any header map that ends in such an item, behind a first item below 24.
pub unmessage_hang : (fuel x y : ℕ) → x < 24 → unmessage fuel (0xbf ∷ cut_short x y) ≡ stuck
unfolding unmessage
unmessage_hang fuel x y h = rw (read_fields_hang fuel (0xbf ∷ []) x y (pos 0) none h)

abbrev pub hanging : ℕ → ℕ → List ℕ
hanging x y = head 6 tag_msg ++ (0xbf ∷ cut_short x y)

open_packet_hang :
    (fuel : ℕ) (r : Receiver) (kind opaque x y : ℕ)
    → kind ≢ 0xc8
    → opaque ≢ tag_msg
    → IsU64 opaque
    → x < 24
    → open_packet fuel r kind (body opaque (hanging x y)) ≡ stuck
unfolding open_packet detag_all head_info head_tail
open_packet_hang zero r kind opaque x y other named fits h = rw (
  readtp-layer opaque (hanging x y) named fits (omega arith),
  ne→== kind 0xc8 other,
  readtp-tag_msg (0xbf ∷ cut_short x y),
)
open_packet_hang (suc fuel) r kind opaque x y other named fits h = rw (
  readtp-layer opaque (hanging x y) named fits (omega arith),
  ne→== kind 0xc8 other,
  readtp-tag_msg (0xbf ∷ cut_short x y),
  unmessage_hang (suc fuel) x y h,
)

length-hanging : (x y : ℕ) → length (item 2 (hanging x y)) ≡ 7
unfolding head_tail
length-hanging x y = refl

-- A well-formed frame of any kind but an end-frame can carry such a header, and then `unframepkt`
-- does not return: no amount of fuel is enough for its loop.
pub unframepkt_hang :
    (fuel : ℕ) (r : Receiver) (kind opaque x y : ℕ) (more : List ℕ)
    → kind ≢ 0xc8
    → opaque ≢ tag_msg
    → IsU64 opaque
    → x < 24
    → 16 ≤ r.transport.buffersize
    → r.conn.input ≡ framed kind opaque (hanging x y) ++ more
    → unframepkt fuel r ≡ stuck
unframepkt_hang fuel r kind opaque x y more other named fits h room input =
    let inner = body opaque (hanging x y) in
    let plain : (if kind == 0xc8 then length inner + 1 else length inner) ≡ length inner =
      rw (ne→== kind 0xc8 other) in
    let size : (length inner ≤ 16) × (7 ≤ length inner) = omega (
      arith,
      length-hanging x y,
      length-append (head 6 opaque) (item 2 (hanging x y)),
      length-head 6 opaque,
    ) in
    unframepkt_frame fuel r kind (length inner) inner more (omega arith) plain (omega arith)
      (omega arith) input
    ∙ open_packet_hang fuel _ kind opaque x y other named fits h

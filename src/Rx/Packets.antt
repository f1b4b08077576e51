-- ===== src/Rx/Packets.antt =====
-- What every packet has that unframepkt of go_rx.go returns, whatever the input.
use gofast.Base.{
  ◌≤◌, ◌+◌, ◌-◌, ◌&&◌, ◌||◌, not, leb, drop, ◌+ℤ◌, ℕ, ◌≡◌, refl, Bool, true, false, List, [], ◌∷◌,
  none, Result, ok, panic, stuck, ◌>>=◌, ◌==◌, Bool-cases, Option-cases, inl, inr, if◌then◌else◌,
  length, arith, ℤ, pos, negsuc,
}
use gofast.Bytes.{index, slice_from}
use gofast.Cbor.{cbor_item_length}
use gofast.Rx.{
  Receiver, Unframed, received, failed, rx_flags, readtp, open_packet, read_packet, unframe_pad,
  Fields, to_message, unmessage, read_fields, unframepkt, read_full, read_failed, Error, Conn, eof,
  unexpected_eof, wrong_prefix, net_op, other, detag_all,
}
use gofast.Types.{BinMessage, no_message, RxPacket}

-- Of the Go calls that return.
abbrev Returns {ℓ κ} : {A : Type ℓ} → (A → Type κ) → Result A → Type κ
Returns P (ok a) = P a
Returns P panic = Unit
Returns P stuck = Unit

Returns-bind {ℓ κ ι} :
    {A : Type ℓ} {B : Type κ} (P : B → Type ι) (m : Result A) (f : A → Result B)
    → ((a : A) → m ≡ ok a → Returns P (f a))
    → Returns P (m >>= f)
Returns-bind P (ok a) f h = h a refl
Returns-bind P panic f h = tt
Returns-bind P stuck f h = tt

Returns-if {ℓ κ} :
    {A : Type ℓ} (P : A → Type κ) (b : Bool) (m m' : Result A)
    → (b ≡ true → Returns P m)
    → (b ≡ false → Returns P m')
    → Returns P (if b then m else m')
Returns-if P true m m' h h' = h refl
Returns-if P false m m' h h' = h' refl

abbrev flag : Bool → ℕ
flag true = 1
flag false = 0

abbrev pub flags : RxPacket → ℕ
flags p = flag p.post + flag p.request + flag p.start + flag p.strmsg + flag p.finish

-- A packet as syncRx expects it.
pub record IsPacket (p : RxPacket) : Type 0 where
  pub one_flag : flags p ≤ 1
  pub no_more : p.finish ≡ true → p.msg ≡ no_message
  pub whole : p.msg.body ≡ none → p.msg ≡ no_message

abbrev IsFrame : Receiver × Unframed → Type 0
IsFrame (r, received p) = IsPacket p
IsFrame (r, failed e) = Unit {0}

rx_flags_one : (kind opaque : ℕ) (msg : BinMessage) → flags (rx_flags kind opaque msg) ≤ 1
rx_flags_one kind opaque msg = ground arith

to_message-whole :
    (bs : List ℕ) (s : Fields) → (to_message bs s).body ≡ none → to_message bs s ≡ no_message
unfolding to_message
to_message-whole bs s h = ground arith

unmessage-whole :
    (fuel : ℕ) (bs : List ℕ)
    → Returns (λ (msg : BinMessage). msg.body ≡ none → msg ≡ no_message) (unmessage fuel bs)
unfolding unmessage
unmessage-whole fuel [] = λ h. refl
unmessage-whole fuel (b ∷ bs) = elim (Bool-cases (b == 0xbf)) [
  | inl map ↦
      rw map (Returns-bind _ (read_fields fuel (b ∷ bs) _) _ (λ s e. to_message-whole (b ∷ bs) s))
  | inr not_map ↦ rw not_map (λ h. refl)
]

returned_whole :
    (fuel : ℕ) (bs : List ℕ) (msg : BinMessage)
    → unmessage fuel bs ≡ ok msg
    → msg.body ≡ none
    → msg ≡ no_message
returned_whole fuel bs msg e = rw e at (unmessage-whole fuel bs)

open_packet-IsFrame :
    (fuel : ℕ) (r : Receiver) (kind : ℕ) (bs : List ℕ)
    → Returns IsFrame (open_packet fuel r kind bs)
unfolding open_packet
open_packet-IsFrame fuel r kind bs = Returns-bind IsFrame (readtp bs) _ (λ (opaque, payload) e.
    Returns-if IsFrame (kind == 0xc8) _ _
      (λ last. record {
        one_flag = rx_flags_one kind opaque no_message;
        no_more = λ h. refl;
        whole = λ h. refl;
      })
      (λ more. Returns-bind IsFrame (readtp payload) _ (λ (tag, inner) e1.
        Returns-bind IsFrame (detag_all fuel r tag inner) _ (λ (r', plain) e2.
          Returns-bind IsFrame (unmessage fuel plain) _ (λ msg e3. record {
            one_flag = rx_flags_one kind opaque msg;
            no_more = λ h. absurd (cc (h, more));
            whole = returned_whole fuel plain msg e3;
          })))))

read_failed-IsFrame :
    (r : Receiver) (conn : Conn) (n : ℕ) (e : Error) → IsFrame (read_failed r conn n e)
unfolding read_failed
read_failed-IsFrame r conn n eof = tt
read_failed-IsFrame r conn n unexpected_eof = tt
read_failed-IsFrame r conn n wrong_prefix = tt
read_failed-IsFrame r conn n (net_op a b) = tt
read_failed-IsFrame r conn n (other a) = tt

read_packet-IsFrame :
    (fuel : ℕ) (r : Receiver) (kind : ℕ) (front : List ℕ) (ln : ℤ)
    → Returns IsFrame (read_packet fuel r kind front ln)
unfolding read_packet
read_packet-IsFrame fuel r kind front (negsuc ln) = tt
read_packet-IsFrame fuel r kind front (pos ln) =
    let conn = r.conn in
    let fits = leb (length front) ln && leb ln r.transport.buffersize in
    elim (Bool-cases fits) [
      | inr no_room ↦ rw no_room tt
      | inl room ↦ rw room (elim (Option-cases ((read_full conn (ln - length front)).2)) [
        | inl filled ↦ rw filled (open_packet-IsFrame fuel _ kind _)
        | inr (e, short) ↦ rw short (read_failed-IsFrame r _ _ e)
      ])
    ]

unframe_pad-IsFrame :
    (fuel : ℕ) (r : Receiver) (pad : List ℕ) → Returns IsFrame (unframe_pad fuel r pad)
unfolding unframe_pad
unframe_pad-IsFrame fuel r pad = Returns-bind IsFrame (index pad 0) _ (λ p0 e0.
    Returns-bind IsFrame (index pad 1) _ (λ p1 e1. Returns-bind IsFrame (index pad 2) _ (λ p2 e2.
      Returns-bind IsFrame (index pad 3) _ (λ kind e3.
        elim (Bool-cases (not (p0 == 0xd9) || not (p1 == 0xd9) || not (p2 == 0xf7))) [
          | inl wrong ↦ rw wrong (read_failed-IsFrame r r.conn _ wrong_prefix)
          | inr right ↦ rw right (
              Returns-bind IsFrame (cbor_item_length (drop 4 pad)) _ (λ (ln, m) e4.
                Returns-bind IsFrame (slice_from pad (pos 4 +ℤ m)) _
                  (λ rest e5. read_packet-IsFrame fuel r kind _ _)))
        ]))))

unframepkt-IsFrame : (fuel : ℕ) (r : Receiver) → Returns IsFrame (unframepkt fuel r)
unfolding unframepkt
unframepkt-IsFrame fuel r = elim (Option-cases ((read_full r.conn 9).2)) [
  | inl filled ↦ rw (filled, Returns) (unframe_pad-IsFrame fuel _ _)
  | inr (e, short) ↦ rw (short, Returns) (read_failed-IsFrame r _ _ e)
]

-- Whatever the remote sends and whatever the decoders do with it, a packet that `unframepkt`
-- returns is one that `syncRx` can tell apart: of the five flags at most one is set, an end-packet
-- carries no message, and a packet without data carries none either.
pub unframepkt-IsPacket :
    (fuel : ℕ) (r r' : Receiver) (p : RxPacket)
    → unframepkt fuel r ≡ ok (r', received p)
    → IsPacket p
unframepkt-IsPacket fuel r r' p e = rw e at (unframepkt-IsFrame fuel r)

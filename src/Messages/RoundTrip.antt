-- ===== src/Messages/RoundTrip.antt =====
-- The encoders and decoders of msg_heartbeat.go, msg_ping.go, msg_whoami.go and version64.go.
use gofast.Base.{
  ℕ, ◌+◌, ◌%◌, ◌^◌, ◌≤◌, ◌<◌, ◌≡◌, refl, sym, ap, ◌∙◌, List, [], ◌∷◌, ◌++◌, append_assoc, false, ok,
  pos, uint64-int64, ltb, ◌==◌, inl, inr, Bool-cases, length, length-append, length-replicate,
  length-take, replicate, arith,
}
use gofast.Bytes.{IsU64, index, slice, slice_from, copy_in, put_uint16, put_uint64}
use gofast.Bytes.Slices.{slice_from-append, slice-middle}
use gofast.Bytes.Words.{
  be16, be64, put_uint16-overwrite, put_uint64-overwrite, get_uint16-be16, get_uint64-be64,
}
use gofast.Bytes.Written.{
  copy_in-Writes, counted-Writes, put_byte-Writes, emit-Writes, slice_to-overwrite,
}
use gofast.Cbor.Decode.{cbor_item_length-head}
use gofast.Cbor.Encode.{head, length-head, valuint642cbor-Writes}
use gofast.Messages.{
  fixbuffer, heartbeat_encode, heartbeat_decode, ping_size, ping_encode, ping_decode, VersionOps,
  version64, version64_encode, version64_decode, Whoami, whoami_size, whoami_encode, whoami_decode,
}

-- Whatever buffer it is given, `fixbuffer` returns one of the size that is asked for.
pub length-fixbuffer : (out : List ℕ) (size : ℕ) → 0 < size → length (fixbuffer out size) ≡ size
unfolding fixbuffer
length-fixbuffer out size h = elim (Bool-cases (ltb (length out) size)) [
  | inl short ↦
      let some_size : (size == 0) ≡ false = ground arith in
      rw (some_size, short) (length-replicate size 0)
  | inr long ↦
      let some_size : (size == 0) ≡ false = ground arith in
      let fits : size ≤ length out = ground arith in
      rw (some_size, long) (omega (arith, length-take size out))
]

-- A heartbeat is the eight bytes of its count, whatever the buffer, and is decoded back.
pub heartbeat_encode-decode :
    (count : ℕ) (out rest : List ℕ)
    → IsU64 count
    → (heartbeat_encode count out ≡ ok (be64 count))
      × (heartbeat_decode (be64 count ++ rest) ≡ ok (count, 8))
unfolding heartbeat_encode heartbeat_decode
heartbeat_encode-decode count out rest h =
    let buf = fixbuffer out 8 in
    let room = length-fixbuffer out 8 (omega arith) in
    (
      rw (put_uint64-overwrite count buf (omega arith))
          (slice_to-overwrite (be64 count) buf (omega arith)),
      rw (get_uint64-be64 count rest h),
    )

abbrev pub ping_bytes : List ℕ → List ℕ
ping_bytes echo = be16 (length echo) ++ echo

-- A ping whose echo has less than 64K bytes encodes to its length and its bytes, whatever the
-- buffer, and is decoded back.
pub ping_encode-decode :
    (echo out rest : List ℕ)
    → length echo < 2 ^ 16
    → (ping_encode echo out ≡ ok (ping_bytes echo))
      × (ping_decode (ping_bytes echo ++ rest) ≡ ok (echo, length (ping_bytes echo)))
unfolding ping_encode ping_decode ping_size
ping_encode-decode echo out rest h =
    let buf = fixbuffer out (2 + length echo) in
    let room = length-fixbuffer out (2 + length echo) (omega arith) in
    let small : length echo % 2 ^ 16 ≡ length echo = omega arith in
    (
      rw
          (
            small,
            put_uint16-overwrite (length echo) buf (omega arith),
            emit-Writes (copy_in echo) (be16 (length echo)) echo buf (copy_in-Writes echo)
                (omega arith),
          )
          (slice_to-overwrite (ping_bytes echo) buf (omega arith)),
      rw
          (
            get_uint16-be16 (length echo) (echo ++ rest) h,
            slice-middle (be16 (length echo)) echo rest,
          )
          (ap (λ (k : ℕ). ok (echo, k)) (omega arith)),
    )

-- What the transport relies on of a `Version`: it encodes to `bytes`, no more than its size, which
-- is decoded back.
pub record Encodes {V : Type 0} (ops : VersionOps V) (v : V) (bytes : List ℕ) : Type 0 where
  pub sized : length bytes ≤ ops.size v
  pub encodes : ops.encode v (replicate 256 0) ≡ ok bytes
  pub decodes : (rest : List ℕ) → ops.decode (bytes ++ rest) ≡ ok (v, pos (length bytes))

-- A `Version64` encodes to the head of its number, whatever the buffer, and is decoded back, the
-- large ones by way of a negative int64.
pub version64-Encodes : (v : ℕ) → IsU64 v → Encodes version64 v (head 0 v)
unfolding version64_encode version64_decode
version64-Encodes v h =
    let out : List ℕ = replicate 256 0 in
    let buf : List ℕ = fixbuffer out 9 in
    let room : length buf ≡ 9 = length-fixbuffer out 9 (omega arith) in
    record {
      sized = (length-head 0 v).1;
      encodes =
          rw (valuint642cbor-Writes v buf (omega (arith, length-head 0 v)))
            (slice_to-overwrite (head 0 v) buf (omega (arith, length-head 0 v)));
      decodes = λ rest. rw (cbor_item_length-head 0 v rest (omega arith) h, uint64-int64 v h);
    }

-- | len | name | version | buffersize | len | tags |
abbrev pub whoami_bytes : {V : Type 0} → Whoami V → List ℕ → List ℕ
whoami_bytes msg version =
    (length msg.name ∷ msg.name)
    ++ (version ++ (be64 msg.buffersize ++ (be16 (length msg.tags) ++ msg.tags)))

length-whoami_bytes :
    {V : Type 0} (msg : Whoami V) (version : List ℕ)
    → length (whoami_bytes msg version)
      ≡ 1 + length msg.name + length version + 8 + 2 + length msg.tags
length-whoami_bytes msg version = omega (
  arith,
  length-append msg.name (version ++ (be64 msg.buffersize ++ (be16 (length msg.tags) ++ msg.tags))),
  length-append version (be64 msg.buffersize ++ (be16 (length msg.tags) ++ msg.tags)),
)

slice_from_at :
    (bs front rest : List ℕ) (n : ℕ)
    → bs ≡ front ++ rest
    → n ≡ length front
    → slice_from bs (pos n) ≡ ok rest
slice_from_at bs front rest n e size = rw (e, size) (slice_from-append front rest)

slice_at :
    (bs front middle rest : List ℕ) (n : ℕ)
    → bs ≡ front ++ (middle ++ rest)
    → n ≡ length front
    → slice bs (pos n) (pos (length middle)) ≡ ok middle
slice_at bs front middle rest n e size = rw (e, size) (slice-middle front middle rest)

module _ {V : Type 0} (ops : VersionOps V) (msg : Whoami V) (version : List ℕ) where
  whoami_encode-bytes :
      (out : List ℕ)
      → Encodes ops msg.version version
      → length msg.name < 256
      → length msg.tags < 2 ^ 16
      → whoami_encode ops msg out ≡ ok (whoami_bytes msg version)
  unfolding whoami_encode whoami_size
  whoami_encode-bytes out v named tagged =
      let size = 1 + length msg.name + ops.size msg.version + 8 + 2 + length msg.tags in
      let buf = fixbuffer out size in
      let room = length-fixbuffer out size (omega arith) in
      let first : List ℕ = length msg.name ∷ [] in
      let b1 = first ++ msg.name in
      let b2 = b1 ++ version in
      let b3 = b2 ++ be64 msg.buffersize in
      let b4 = b3 ++ be16 (length msg.tags) in
      let s2 = length-append b1 version in
      let s3 = length-append b2 (be64 msg.buffersize) in
      let s4 = length-append b3 (be16 (length msg.tags)) in
      let s5 = length-append b4 msg.tags in
      let fits : length (b4 ++ msg.tags) ≤ length buf = omega (arith, v.sized) in
      let whole : b4 ++ msg.tags ≡ whoami_bytes msg version = simp append_assoc in
      let short : length msg.name % 256 ≡ length msg.name = omega arith in
      let short' : length msg.tags % 2 ^ 16 ≡ length msg.tags = omega arith in
      rw
        (
          short,
          short',
          put_byte-Writes (length msg.name) buf (omega arith),
          emit-Writes (copy_in msg.name) first msg.name buf (copy_in-Writes msg.name) (omega arith),
          v.encodes,
          emit-Writes (copy_in version) b1 version buf (copy_in-Writes version) (omega arith),
          emit-Writes _ b2 (be64 msg.buffersize) buf
              (counted-Writes (put_uint64 msg.buffersize) (be64 msg.buffersize)
                (put_uint64-overwrite msg.buffersize))
              (omega arith),
          emit-Writes _ b3 (be16 (length msg.tags)) buf
              (counted-Writes (put_uint16 (length msg.tags)) (be16 (length msg.tags))
                (put_uint16-overwrite (length msg.tags)))
              (omega arith),
          emit-Writes (copy_in msg.tags) b4 msg.tags buf (copy_in-Writes msg.tags) fits,
        )
        (slice_to-overwrite (b4 ++ msg.tags) buf fits ∙ ap ok whole)

  whoami_decode-bytes :
      (rest : List ℕ)
      → Encodes ops msg.version version
      → IsU64 msg.buffersize
      → length msg.tags < 2 ^ 16
      → whoami_decode ops (whoami_bytes msg version ++ rest)
        ≡ ok (msg, pos (length (whoami_bytes msg version)))
  unfolding whoami_decode index
  whoami_decode-bytes rest v sized tagged =
      let f1 = length msg.name ∷ msg.name in
      let f2 = f1 ++ version in
      let f3 = f2 ++ be64 msg.buffersize in
      let f4 = f3 ++ be16 (length msg.tags) in
      let t4 = msg.tags ++ rest in
      let t3 = be16 (length msg.tags) ++ t4 in
      let t2 = be64 msg.buffersize ++ t3 in
      let t1 = version ++ t2 in
      let bs = whoami_bytes msg version ++ rest in
      let e1 : bs ≡ f1 ++ t1 = simp append_assoc in
      let e2 : bs ≡ f2 ++ t2 = simp append_assoc in
      let e3 : bs ≡ f3 ++ t3 = simp append_assoc in
      let e4 : bs ≡ f4 ++ t4 = simp append_assoc in
      let e0 : bs ≡ (length msg.name ∷ []) ++ (msg.name ++ t1) = e1 in
      let s2 = length-append f1 version in
      let s3 = length-append f2 (be64 msg.buffersize) in
      let s4 = length-append f3 (be16 (length msg.tags)) in
      rw
        (
          slice_at bs (length msg.name ∷ []) msg.name t1 1 e0 refl,
          slice_from_at bs f1 t1 (1 + length msg.name) e1 (omega arith),
          v.decodes t2,
          slice_from_at bs f2 t2 (1 + length msg.name + length version) e2 (omega arith),
          get_uint64-be64 msg.buffersize t3 sized,
          slice_from_at bs f3 t3 (1 + length msg.name + length version + 8) e3 (omega arith),
          get_uint16-be16 (length msg.tags) t4 tagged,
          slice_at bs f4 msg.tags rest (1 + length msg.name + length version + 8 + 2) e4
              (omega arith),
        )
        (ap (λ (k : ℕ). ok (msg, pos k)) (sym (length-whoami_bytes msg version)))

  -- A `whoamiMsg` with a name of less than 256 bytes and tags of less than 64K encodes into any
  -- buffer to its fields in order, and is decoded back from that, whatever follows, with the
  -- number of bytes used.
  pub whoami_encode-decode :
      (out rest : List ℕ)
      → Encodes ops msg.version version
      → length msg.name < 256
      → length msg.tags < 2 ^ 16
      → IsU64 msg.buffersize
      → (whoami_encode ops msg out ≡ ok (whoami_bytes msg version))
        × (whoami_decode ops (whoami_bytes msg version ++ rest)
            ≡ ok (msg, pos (length (whoami_bytes msg version))))
  whoami_encode-decode out rest v named tagged sized =
      (whoami_encode-bytes out v named tagged, whoami_decode-bytes rest v sized tagged)

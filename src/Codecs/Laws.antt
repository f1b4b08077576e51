-- ===== src/Codecs/Laws.antt =====
-- The codec that `makeLZW` of tag_lzw.go configures at both ends.
use gofast.Base.{ℕ, ◌≤◌, ◌<◌, ◌≡◌, List, [], ◌∷◌, Option, none, some, ok, length, arith}
use gofast.Bytes.Written.{overwrite, copy-overwrite}
use gofast.Bytes.{copied}
use gofast.Cbor.{tag_lzw}
use gofast.Codecs.ReadAll.{Yields, read_all-Yields}
use gofast.Codecs.{Reader, read_all, lzw_enc, lzw_dec}
use gofast.Tx.Packet.{Codec, IsCodec}

-- What is relied on of compress/lzw: of bytes that are not empty the writer makes `pack bs`, without
-- an error, and a reader on that yields them, given the room, within a number of calls that depends on
-- what is read.
pub record IsLzw (compress : List ℕ → Option (List ℕ)) (reader : List ℕ → Reader)
    (pack : List ℕ → List ℕ) (rounds : List ℕ → ℕ) : Type 0 where
  pub compresses : (bs : List ℕ) → 0 < length bs → compress bs ≡ some (pack bs)
  pub pack_some : (bs : List ℕ) → 0 < length bs → 0 < length (pack bs)
  pub yields :
      (bs : List ℕ) (room : ℕ)
      → 0 < length bs
      → length bs ≤ room
      → Yields (reader (pack bs)) 0 room (rounds (pack bs)) bs

lzw_dec-some :
    (fuel : ℕ) (reader : List ℕ → Reader) (packed out : List ℕ) {out' : List ℕ} {n : ℕ}
    → 0 < length packed
    → read_all fuel (reader packed) 0 out 0 ≡ ok (out', n, none)
    → lzw_dec fuel reader packed out ≡ ok (out', n)
unfolding lzw_dec
lzw_dec-some fuel reader [] out h e = absurd (omega arith)
lzw_dec-some fuel reader (b ∷ bs) out h e = rw e

lzw_enc-some :
    (compress : List ℕ → Option (List ℕ)) (bs out packed : List ℕ)
    → 0 < length bs
    → compress bs ≡ some packed
    → length packed ≤ length out
    → lzw_enc compress bs out ≡ ok (overwrite packed out, length packed)
unfolding lzw_enc
lzw_enc-some compress [] out packed h e fits = absurd (omega arith)
lzw_enc-some compress (b ∷ bs) out packed h e fits =
    let all : copied out packed ≡ length packed = omega arith in
    rw (e, lzw_enc, all, copy-overwrite packed out fits)

-- The tag that `makeLZW` returns, with fuel for the loop of `readAll` on each input.
abbrev pub lzw_codec :
    (List ℕ → Option (List ℕ)) → (List ℕ → Reader) → (List ℕ → List ℕ) → (List ℕ → ℕ) → Codec
lzw_codec compress reader pack fuel = record {
  tag = tag_lzw;
  enc = lzw_enc compress;
  dec = λ packed. lzw_dec (fuel packed) reader packed;
  pack = pack;
}

-- Where compress/lzw keeps what is relied on of it, the two functions of `makeLZW` obey the laws of
-- a tag: the encoder writes what the writer makes and the decoder undoes it, in buffers with room,
-- with as much fuel as the reader takes calls.
pub lzw_codec-IsCodec :
    (compress : List ℕ → Option (List ℕ)) (reader : List ℕ → Reader) (pack : List ℕ → List ℕ)
    (rounds fuel : List ℕ → ℕ)
    → ((packed : List ℕ) → rounds packed ≤ fuel packed)
    → IsLzw compress reader pack rounds
    → IsCodec (lzw_codec compress reader pack fuel)
lzw_codec-IsCodec compress reader pack rounds fuel enough laws = record {
  tag_other = λ e. absurd (omega arith);
  tag_u64 = omega arith;
  pack_some = laws.pack_some;
  encodes = λ bs buf h fits. lzw_enc-some compress bs buf (pack bs) h (laws.compresses bs h) fits;
  decodes = λ bs buf h fits.
      lzw_dec-some (fuel (pack bs)) reader (pack bs) buf (laws.pack_some bs h) (
        read_all-Yields (fuel (pack bs)) (reader (pack bs)) [] buf
          (laws.yields bs (length buf) h fits) (enough (pack bs)) (omega arith));
}

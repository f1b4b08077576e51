-- ===== src/Tx/Packet.antt =====
-- The frames of the protocol as lists of bytes, and the laws that a configured tag must obey.
use gofast.Base.{ℕ, ◌≤◌, ◌<◌, ◌≡◌, ◌≢◌, Bool, List, [], ◌∷◌, ◌++◌, ok, if◌then◌else◌, length}
use gofast.Bytes.{IsU64}
use gofast.Bytes.Written.{overwrite}
use gofast.Cbor.{tag_msg, tag_id, tag_data}
use gofast.Cbor.Encode.{head, item}
use gofast.Types.{TagFn}

-- | tag-43 | map | tag-44 | id | tag-45 | bytes | break |
abbrev pub header_map : ℕ → List ℕ → List ℕ
header_map id encoded =
    0xbf ∷ (head 6 tag_id ++ (head 0 id ++ (head 6 tag_data ++ (item 2 encoded ++ (0xff ∷ [])))))

abbrev pub header : ℕ → List ℕ → List ℕ
header id encoded = head 6 tag_msg ++ header_map id encoded

-- A tag as both ends have it configured: its number, its two functions, and the bytes that the
-- encoder makes of its input.
pub record Codec : Type 0 where
  pub tag : ℕ
  pub enc : TagFn
  pub dec : TagFn
  pub pack : List ℕ → List ℕ

-- Of bytes that are not empty the encoder writes `pack bs`, which is not empty, and the decoder
-- undoes it, each into a buffer with room for what it writes. The tag is not one that the receiver
-- takes for the message.
pub record IsCodec (c : Codec) : Type 0 where
  pub tag_other : c.tag ≢ tag_msg
  pub tag_u64 : IsU64 c.tag
  pub pack_some : (bs : List ℕ) → 0 < length bs → 0 < length (c.pack bs)
  pub encodes :
      (bs buf : List ℕ)
      → 0 < length bs
      → length (c.pack bs) ≤ length buf
      → c.enc bs buf ≡ ok (overwrite (c.pack bs) buf, length (c.pack bs))
  pub decodes :
      (bs buf : List ℕ)
      → 0 < length bs
      → length bs ≤ length buf
      → c.dec (c.pack bs) buf ≡ ok (overwrite bs buf, length bs)

-- One layer around what is framed so far.
abbrev pub layer : Codec → List ℕ → List ℕ
layer c bs = head 6 c.tag ++ item 2 (c.pack bs)

abbrev pub layers : List Codec → List ℕ → List ℕ
layers [] bs = bs
layers (c ∷ cs) bs = layers cs (layer c bs)

-- A `whoamiMsg` carries no tags.
abbrev pub used : Bool → List Codec → List Codec
used whoami cs = if whoami then [] else cs

abbrev pub payload : Bool → List Codec → ℕ → List ℕ → List ℕ
payload whoami cs id encoded = layers (used whoami cs) (header id encoded)

-- | opaque | payload |, and the packet around it.
abbrev pub body : ℕ → List ℕ → List ℕ
body opaque bs = head 6 opaque ++ item 2 bs

abbrev pub packet : ℕ → List ℕ → List ℕ
packet opaque bs = item 2 (body opaque bs)

-- | 0xd9 0xd9f7 | kind | packet |
abbrev pub framed : ℕ → ℕ → List ℕ → List ℕ
framed kind opaque bs = 0xd9 ∷ 0xd9 ∷ 0xf7 ∷ kind ∷ packet opaque bs

-- | 0xd9 0xd9f7 | 0xc8 | len | opaque | 0x40 | 0xff |
abbrev pub end_frame : ℕ → List ℕ
end_frame opaque =
    0xd9 ∷ 0xd9 ∷ 0xf7 ∷ 0xc8 ∷ (item 2 (head 6 opaque ++ (0x40 ∷ [])) ++ (0xff ∷ []))

-- Every layer fits the two buffers that the sender works in.
abbrev pub LayersFit : List Codec → List ℕ → ℕ → ℕ → Type 0
LayersFit [] bs ping pong = length bs ≤ ping
LayersFit (c ∷ cs) bs ping pong =
    (length bs ≤ ping) × (length (c.pack bs) ≤ pong) × LayersFit cs (layer c bs) ping pong

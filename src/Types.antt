-- ===== src/Types.antt =====
-- The types that the parts of the transport share: the structs of transport.go, stream.go, api.go
-- and go_syncrx.go. A string is the list of its bytes, and a nil slice or pointer is `none`.
pub mod Keys
use gofast.Base.{
  ℕ, ◌+◌, ◌%◌, ◌^◌, Bool, List, [], ◌∷◌, Option, none, some, Result, ◌==◌, if◌then◌else◌,
}

-- A message as the sender hands it over: `ID()`, `Encode(out)`, and whether it is a `*whoamiMsg`.
pub record Message : Type 0 where
  pub id : ℕ
  pub encode : List ℕ → Result (List ℕ)
  pub is_whoami : Bool

-- A message as the receiver gets it; the zero value has id 0 and nil data.
pub record BinMessage : Type 0 where
  pub id : ℕ
  pub body : Option (List ℕ)

abbrev pub no_message : BinMessage
no_message = record { id = 0; body = none }

-- A callback is a number that stands for the closure; nil is `none`.
pub record Stream : Type 0 where
  pub rxcallb : Option ℕ
  pub opaque : ℕ
  pub remote : Bool
  pub out : List ℕ
  pub data_buf : List ℕ
  pub tagout : List ℕ

-- `func(in, out []byte) int`: what `out` holds afterwards, and the count.
abbrev pub TagFn : Type 0
TagFn = List ℕ → List ℕ → Result (List ℕ × ℕ)

-- The counters of a transport, each a uint64.
pub record Stats : Type 0 where
  pub n_tx : ℕ
  pub n_flushes : ℕ
  pub n_txbyte : ℕ
  pub n_txpost : ℕ
  pub n_txreq : ℕ
  pub n_txresp : ℕ
  pub n_txstart : ℕ
  pub n_txstream : ℕ
  pub n_txfin : ℕ
  pub n_rx : ℕ
  pub n_rxbyte : ℕ
  pub n_rxpost : ℕ
  pub n_rxreq : ℕ
  pub n_rxresp : ℕ
  pub n_rxstart : ℕ
  pub n_rxstream : ℕ
  pub n_rxfin : ℕ
  pub n_rxbeats : ℕ
  pub n_dropped : ℕ
  pub n_mdrops : ℕ

-- `atomic.AddUint64(&counter, k)`
abbrev pub add_uint64 : ℕ → ℕ → ℕ
add_uint64 counter k = (counter + k) % 2 ^ 64

-- A handler, like a callback, is a number that stands for the closure.
pub record Transport : Type 0 where
  pub stats : Stats
  pub open stats use *
  pub tagenc : List (ℕ × TagFn)
  pub tagdec : List (ℕ × TagFn)
  pub handlers : List (ℕ × Option ℕ)
  pub defaulth : Option ℕ
  pub buffersize : ℕ
  pub batchsize : ℕ

-- A Go map as an association list: a write shadows what is further down, and a delete takes out
-- every entry of its key.
abbrev pub delete_key {ℓ} : {V : Type ℓ} → ℕ → List (ℕ × V) → List (ℕ × V)
delete_key k [] = []
delete_key k ((j, v) ∷ m) = let rest = delete_key k m in if j == k then rest else (j, v) ∷ rest

abbrev pub insert_key {ℓ} : {V : Type ℓ} → ℕ → V → List (ℕ × V) → List (ℕ × V)
insert_key k v m = (k, v) ∷ delete_key k m

-- The value under a key.
abbrev pub find_key {ℓ} : {V : Type ℓ} → ℕ → List (ℕ × V) → Option V
find_key k [] = none
find_key k ((j, v) ∷ m) = if j == k then some v else find_key k m

pub record RxPacket : Type 0 where
  pub msg : BinMessage
  pub opaque : ℕ
  pub post : Bool
  pub request : Bool
  pub start : Bool
  pub strmsg : Bool
  pub finish : Bool

-- ===== src/Tests.antt =====
-- Concrete endpoints: a tag whose encoder puts one byte in front, streams, messages and packets.
pub mod Dispatch
pub mod Frames
pub mod Streams
pub mod Messages
pub mod Calls
pub mod Tags
pub mod Delivery
pub mod Codecs
pub mod Requests
pub mod Setup
pub mod Bench
pub mod Example
pub mod Pauses
pub mod Exchange
pub mod Meeting
pub mod Stolen
pub mod Streaming
pub mod Statistics
use gofast.Base.{
  ℕ, zero, suc, ◌+◌, ◌≤◌, ◌<◌, ◌^◌, ◌≡◌, refl, Bool, true, false, List, [], ◌∷◌, Option, none, some,
  Result, ok, panic, leb, le→leb, if◌then◌else◌, length, replicate, arith,
}
use gofast.Bytes.Written.{overwrite}
use gofast.Rx.{Conn, Error, eof, Receiver}
use gofast.SyncRx.{Endpoint}
use gofast.Tx.Frames.{encoders}
use gofast.Tx.Packet.{Codec, IsCodec}
use gofast.Types.{BinMessage, Message, RxPacket, Stats, Stream, TagFn, Transport}

-- What a tag's function leaves of `bs` in a buffer.
abbrev pub into : List ℕ → List ℕ → Result (List ℕ × ℕ)
into bs buf = if leb (length bs) (length buf) then ok (overwrite bs buf, length bs) else panic

abbrev pub unmark : TagFn
unmark [] buf = panic
unmark (b ∷ bs) buf = into bs buf

abbrev pub marker : Codec
marker = record { tag = 46; enc = λ bs buf. into (1 ∷ bs) buf; dec = unmark; pack = λ bs. 1 ∷ bs }

pub marker-IsCodec : IsCodec marker
marker-IsCodec = record {
  tag_other = λ e. absurd (omega arith);
  tag_u64 = omega arith;
  pack_some = λ bs h. omega arith;
  encodes = λ bs buf some_bytes h. rw (le→leb (length (1 ∷ bs)) (length buf) h);
  decodes = λ bs buf some_bytes h. rw (le→leb (length bs) (length buf) h);
}

abbrev pub no_stats : Stats
no_stats = record {
  n_tx = 0;
  n_flushes = 0;
  n_txbyte = 0;
  n_txpost = 0;
  n_txreq = 0;
  n_txresp = 0;
  n_txstart = 0;
  n_txstream = 0;
  n_txfin = 0;
  n_rx = 0;
  n_rxbyte = 0;
  n_rxpost = 0;
  n_rxreq = 0;
  n_rxresp = 0;
  n_rxstart = 0;
  n_rxstream = 0;
  n_rxfin = 0;
  n_rxbeats = 0;
  n_dropped = 0;
  n_mdrops = 0;
}

abbrev pub marking : Transport
marking = record {
  stats = no_stats;
  tagenc = encoders (marker ∷ []);
  tagdec = (46, unmark) ∷ [];
  handlers = (7, some 1) ∷ [];
  defaulth = none;
  buffersize = 64;
  batchsize = 2;
}

abbrev pub hello : Message
hello = record { id = 7; encode = λ buf. ok (104 ∷ 105 ∷ []); is_whoami = false }

abbrev pub a_stream : ℕ → Bool → Stream
a_stream opaque remote = record {
  rxcallb = some 5;
  opaque = opaque;
  remote = remote;
  out = replicate 64 0;
  data_buf = replicate 64 0;
  tagout = replicate 64 0;
}

abbrev pub listening : List ℕ → Receiver
listening input = record {
  transport = marking;
  conn = record { input = input; ending = eof };
  tagouts = λ k. replicate 64 0;
}

-- Streams 0 and 1 are local, of which 1 is pooled, and 2 is a remote one that is live.
abbrev pub streams_at : ℕ → Stream
streams_at zero = a_stream 300 false
streams_at (suc zero) = a_stream 301 false
streams_at (suc (suc k)) = a_stream 600 true

abbrev pub endpoint : Endpoint
endpoint = record {
  transport = marking;
  heap = streams_at;
  fresh = 3;
  rx_pool = [];
  pool = 1 ∷ [];
  live = (600, 2) ∷ [];
  events = [];
}

abbrev pub packet_on : ℕ → Bool → RxPacket
packet_on opaque finish = record {
  msg = record { id = 7; body = some (104 ∷ []) };
  opaque = opaque;
  post = false;
  request = false;
  start = true;
  strmsg = false;
  finish = finish;
}

-- ===== src/Setup.antt =====
-- The life of a transport: NewTransport, SubscribeMessage, DefaultHandler, Handshake, Close and
-- IsClosed of transport.go, DefaultSettings of config.go and newWhoami of msg_whoami.go.
pub mod Addresses
pub mod Started
pub mod Failed
pub mod Agreed
use gofast.Base.{
  ℕ, zero, suc, ◌+◌, ◌%◌, ◌^◌, Bool, true, false, ◌||◌, List, [], ◌∷◌, Option, none, some, Result,
  ok, panic, stuck, ltb, leb, ◌==◌, if◌then◌else◌, length, ℤ, pos,
}
use gofast.Calls.{Call, returned, panicked, blocked, call_then, run, Client, respond}
use gofast.Messages.{
  VersionOps, Whoami, msg_ping, msg_whoami, msg_heartbeat, is_reserved_msg, heartbeat_encode,
  ping_encode, ping_decode, whoami_encode, whoami_decode,
}
use gofast.Opaque.{Pools, set_opaque_range}
use gofast.Registry.{Named, find_name, add_attempt, del_attempt}
use gofast.SyncRx.{Endpoint}
use gofast.Tags.{get_tags}
use gofast.Types.{BinMessage, Message, Stats, Stream, TagFn, Transport, add_uint64, insert_key}

-- The settings of a transport, as their accessors return them.
pub record Settings : Type 0 where
  pub buffersize : ℕ
  pub batchsize : ℕ
  pub chansize : ℕ
  pub tags : List ℕ
  pub opaque_start : ℕ
  pub opaque_end : ℕ
  pub gzip_level : ℤ

unfoldable pub default_settings : ℕ → ℕ → Settings
default_settings start stop = record {
  buffersize = 512;
  batchsize = 1;
  chansize = 100000;
  tags = [];
  opaque_start = start;
  opaque_end = stop;
  gzip_level = pos 1;
}

-- What a factory of `tagFactory` returns: `tagid, enc, dec`.
pub record TagFns : Type 0 where
  pub tagid : ℕ
  pub enc : TagFn
  pub dec : TagFn

-- `tagFactory`, by the name of the tag. No factory looks at the transport.
abbrev pub Factories : Type 0
Factories = Named (Settings → TagFns)

-- A transport with what it keeps beside its channels and pools. `closed` is whether `t.killch` is
-- closed, and `hung_up` whether the connection is.
pub record Host (V : Type 0) : Type 0 where
  pub client : Client
  pub name : List ℕ
  pub version : V
  pub settings : Settings
  pub messages : List (ℕ × Message)
  pub peerver : Option V
  pub aliveat : ℕ
  pub xchngok : ℕ
  pub closed : Bool
  pub hung_up : Bool

abbrev pub transport_of : {V : Type 0} → Host V → Transport
transport_of h = h.client.endpoint.transport

abbrev pub with_transport : {V : Type 0} → Host V → Transport → Host V
with_transport h t = record h {
  client = record (h.client) { endpoint = record (h.client.endpoint) { transport = t } };
}

-- `t.subscribeMessage(m, h)`
unfoldable pub subscribe_any : {V : Type 0} → Host V → Message → Option ℕ → Host V
subscribe_any h msg handler =
    let t = transport_of h in
    with_transport (record h { messages = insert_key msg.id msg h.messages })
      (record t { handlers = insert_key msg.id handler t.handlers })

-- `t.SubscribeMessage(msg, handler)`
unfoldable pub subscribe_message : {V : Type 0} → Host V → Message → Option ℕ → Result (Host V)
unfolding subscribe_any
subscribe_message h msg handler =
    if is_reserved_msg msg.id then panic else ok (subscribe_any h msg handler)

-- `t.DefaultHandler(handler)`
unfoldable pub default_handler : {V : Type 0} → Host V → Option ℕ → Host V
default_handler h handler = with_transport h (record (transport_of h) { defaulth = handler })

-- The predefined messages as they are subscribed. A nil version has no size.
abbrev pub whoami_msg : Message
whoami_msg = record { id = msg_whoami; encode = λ out. panic; is_whoami = true }

abbrev pub ping_msg : List ℕ → Message
ping_msg echo = record { id = msg_ping; encode = ping_encode echo; is_whoami = false }

abbrev pub heartbeat_msg : ℕ → Message
heartbeat_msg count = record {
  id = msg_heartbeat;
  encode = heartbeat_encode count;
  is_whoami = false;
}

-- The streams of the pool stand at the first addresses.
abbrev pub stream_at : List Stream → ℕ → Stream
stream_at [] a = record {
  rxcallb = none;
  opaque = 0;
  remote = false;
  out = [];
  data_buf = [];
  tagout = [];
}
stream_at (s ∷ ss) zero = s
stream_at (s ∷ ss) (suc a) = stream_at ss a

abbrev pub addresses : ℕ → List Stream → List ℕ
addresses a [] = []
addresses a (s ∷ ss) = a ∷ addresses (a + 1) ss

abbrev pub zero_stats : Stats
zero_stats = record {
  n_tx = 0;
  n_flushes = 0;
  n_txbyte = 0;
  n_txpost = 0;
  n_txreq = 0;
  n_txresp = 0;
  n_txstart = 0;
  n_txstream = 0;
  n_txfin = 0;
  n_rx = 0;
  n_rxbyte = 0;
  n_rxpost = 0;
  n_rxreq = 0;
  n_rxresp = 0;
  n_rxstart = 0;
  n_rxstream = 0;
  n_rxfin = 0;
  n_rxbeats = 0;
  n_dropped = 0;
  n_mdrops = 0;
}

abbrev pub first_transport : Settings → Transport
first_transport s = record {
  stats = zero_stats;
  tagenc = [];
  tagdec = [];
  handlers = [];
  defaulth = none;
  buffersize = s.buffersize;
  batchsize = s.batchsize;
}

abbrev pub first_endpoint : Settings → List Stream → Endpoint
first_endpoint s strms = record {
  transport = first_transport s;
  heap = stream_at strms;
  fresh = length strms;
  rx_pool = [];
  pool = addresses 0 strms;
  live = [];
  events = [];
}

abbrev pub first_host : {V : Type 0} → List ℕ → V → Settings → Pools → Host V
first_host name version s pools = record {
  client = record {
    endpoint = first_endpoint s pools.strms;
    rxch = [];
    txch = [];
    txcmd = length pools.txcmd;
  };
  name = name;
  version = version;
  settings = s;
  messages = [];
  peerver = none;
  aliveat = 0;
  xchngok = 0;
  closed = false;
  hung_up = false;
}

-- What `NewTransport` comes to.
pub data Creation (V : Type 0) : Type 0 where
  started : Host V → Creation V
  invalid_tag : Creation V
  start_panicked : Creation V

module _ (factories : Factories) where
  -- The loop over the configured tags; an unknown one is an error.
  unfoldable pub learn_decoders :
      Settings → List (List ℕ) → List (ℕ × TagFn) → Option (List (ℕ × TagFn))
  unfolding find_name
  learn_decoders s [] tagdec = some tagdec
  learn_decoders s (tag ∷ tags) tagdec = elim (find_name tag factories) [
    | none ↦ none
    | some factory ↦
        let fns = factory s in learn_decoders s tags (insert_key fns.tagid fns.dec tagdec)
  ]

  -- The loop over the tags that the peer asks for; an unknown one is left out.
  unfoldable pub learn_encoders : Settings → List (List ℕ) → List (ℕ × TagFn) → List (ℕ × TagFn)
  unfolding find_name
  learn_encoders s [] tagenc = tagenc
  learn_encoders s (tag ∷ tags) tagenc = learn_encoders s tags (elim (find_name tag factories) [
    | none ↦ tagenc
    | some factory ↦ let fns = factory s in insert_key fns.tagid fns.enc tagenc
  ])

  -- `t.Handshake()`, with what `t.Whoami()` returned, up to the wait for the peer: whether there is
  -- no error.
  unfoldable pub handshake : {V : Type 0} → Host V → Option (Whoami V) → Host V × Bool
  unfolding learn_encoders
  handshake h none = (h, false)
  handshake h (some wai) =
      let t = transport_of h in
      let tagenc = learn_encoders h.settings (get_tags wai.tags []) t.tagenc in
      (
        with_transport (record h { peerver = some wai.version; xchngok = add_uint64 h.xchngok 1 })
            (record t { tagenc = tagenc }),
        true,
      )

  -- The transport with its pools: `own`, for `t.msghandler`, is subscribed to the predefined
  -- messages, then the tags are looked up.
  unfoldable pub prepare : {V : Type 0} → ℕ → List ℕ → V → Settings → Pools → Creation V
  unfolding subscribe_any learn_decoders
  prepare own name version s pools =
      let h = first_host name version s pools in
      let h = subscribe_any h whoami_msg (some own) in
      let h = subscribe_any h (ping_msg []) (some own) in
      let h = subscribe_any h (heartbeat_msg 0) (some own) in
      elim (learn_decoders s (get_tags s.tags []) (transport_of h).tagdec) [
        | none ↦ invalid_tag
        | some tagdec ↦ started (with_transport h (record (transport_of h) { tagdec = tagdec }))
      ]

  -- `own` is `t.msghandler`. The limits are those of `make` for a channel of pointers and for one of
  -- packets.
  module _ (own chan_limit packet_limit : ℕ) where
    -- `NewTransport(name, conn, version, setts)` at an address, and the registry behind it.
    unfoldable pub new_transport :
        {V : Type 0} → List ℕ → V → Option Settings → ℕ → Named ℕ → Named ℕ × Creation V
    unfolding prepare
    new_transport name version setts a transports =
        let s : Settings = elim setts [ none ↦ default_settings 1000 5000 | some s ↦ s ] in
        if ltb chan_limit ((s.chansize + s.batchsize) % 2 ^ 64)
        then (transports, start_panicked)
        else if ltb packet_limit s.chansize
        then (transports, start_panicked)
        else elim (add_attempt name a transports) [
          | panic ↦ (transports, start_panicked)
          | stuck ↦ (transports, start_panicked)
          | ok added ↦ (
            added,
            elim (set_opaque_range chan_limit s.buffersize s.batchsize s.opaque_start
                s.opaque_end) [
                  | panic ↦ start_panicked
                  | stuck ↦ start_panicked
                  | ok pools ↦ prepare own name version s pools
                ],
          )
        ]

-- Whether `Handshake` still waits: `t.xchngok`, an int64, is less than 2.
unfoldable pub handshake_waits : {V : Type 0} → Host V → Bool
handshake_waits h = ltb h.xchngok 2 || leb (2 ^ 63) h.xchngok

-- `t.Close()`, where `conn.Close()` returns an error if `fails`: whether an error is returned. A
-- panic, of closing `t.killch` twice or of a name that is not there, is recovered from.
unfoldable pub close_transport : {V : Type 0} → Host V → Named ℕ → Bool → (Host V × Named ℕ) × Bool
close_transport h transports fails =
    if h.closed
    then ((h, transports), false)
    else (let h' = record h { closed = true } in
        elim (del_attempt h.name transports) [
          | panic ↦ ((h', transports), false)
          | stuck ↦ ((h', transports), false)
          | ok (a, rest) ↦ ((record h' { hung_up = true }, rest), fails)
        ])

-- `t.IsClosed()`
unfoldable pub is_closed : {V : Type 0} → Host V → Bool
is_closed h = h.closed

-- `newWhoami(t)`
unfoldable pub new_whoami : {V : Type 0} → Host V → Whoami V
new_whoami h = record {
  name = h.name;
  version = h.version;
  buffersize = (transport_of h).buffersize;
  tags = h.settings.tags;
}

-- ===== src/Setup/Started.antt =====
-- What `NewTransport` of transport.go leaves behind, where it returns a transport.
use gofast.Base.{
  ℕ, ◌+◌, ◌-◌, ◌%◌, ◌^◌, ◌≤◌, ◌<◌, ◌≡◌, ◌≢◌, refl, ap, ◌∙◌, true, false, List, [], ◌∷◌, ◌++◌,
  replicate, length-replicate, none, some, le→ltb, length, ◌||◌, ◌==◌, if◌then◌else◌, All, All-map,
  inl, inr, Option-cases, arith,
}
use gofast.Messages.{msg_ping, msg_whoami, msg_heartbeat}
use gofast.Opaque.Range.{InRange, Pooled, set_opaque_range-Pooled}
use gofast.Opaque.{istagok, Pools}
use gofast.Registry.Names.{add_free}
use gofast.Registry.{Named, find_name}
use gofast.Setup.{
  Settings, Factories, Host, Creation, started, first_host, with_transport, whoami_msg, ping_msg,
  heartbeat_msg, transport_of, subscribe_any, handshake_waits, is_closed, learn_decoders, prepare,
  new_transport,
}
use gofast.SyncRx.Pool.{Inv}
use gofast.Tags.{get_tags}
use gofast.Types.{Stream, TagFn, find_key, insert_key}
use gofast.Setup.Addresses.{
  first_endpoint-Inv, stream_at-All, stream_at-Rising, stream_at-has_opaque,
}

-- What makes settings usable: the limits of `make` and of the protocol's opaque values.
pub record Usable (chan_limit packet_limit : ℕ) (s : Settings) : Type 0 where
  pub low : 266 ≤ s.opaque_start
  pub some_range : s.opaque_start ≤ s.opaque_end
  pub high : s.opaque_end ≤ 15309735
  pub batch : s.batchsize < 2 ^ 62
  pub txch : s.chansize + s.batchsize ≤ chan_limit
  pub rxch : s.chansize ≤ packet_limit
  pub cmds : s.opaque_end - s.opaque_start + 1 + s.batchsize ≤ chan_limit
  pub limit : chan_limit < 2 ^ 63

module _ (own : ℕ) where
  predefined :
      (id : ℕ)
      → find_key id ((msg_heartbeat, some own) ∷ (msg_ping, some own) ∷ (msg_whoami, some own) ∷ [])
        ≡ (if id == msg_heartbeat || (id == msg_ping || id == msg_whoami)
            then some (some own)
            else none)
  predefined id = ground arith

module _ {V : Type 0} (own : ℕ) where
  -- What a transport has when it is new.
  pub record Fresh (factories : Factories) (s : Settings) (h : Host V) : Type 0 where
    pub inv : Inv h.client.endpoint
    pub in_range :
        (a : ℕ)
        → a < h.client.endpoint.fresh
        → InRange s.buffersize s.opaque_start s.opaque_end (h.client.endpoint.heap a)
    pub distinct :
        (a b : ℕ)
        → a < b
        → b < h.client.endpoint.fresh
        → (h.client.endpoint.heap a).opaque < (h.client.endpoint.heap b).opaque
    pub none_live : h.client.endpoint.live ≡ []
    pub pooled :
        (v : ℕ)
        → istagok v ≡ true
        → s.opaque_start ≤ v
        → v ≤ s.opaque_end
        → (a : ℕ) × (before after : List ℕ) × ((h.client.endpoint.heap a).opaque ≡ v)
          × (h.client.endpoint.pool ≡ before ++ a ∷ after)
    pub commands : h.client.txcmd ≡ s.opaque_end - s.opaque_start + 1 + s.batchsize
    pub quiet : (h.client.rxch ≡ []) × (h.client.txch ≡ [])
    pub handlers :
        (id : ℕ)
        → find_key id (transport_of h).handlers ≡ (
            if id == msg_heartbeat || (id == msg_ping || id == msg_whoami)
            then some (some own)
            else none)
    pub settings : h.settings ≡ s
    pub no_encoders : (transport_of h).tagenc ≡ []
    pub learned : learn_decoders factories s (get_tags s.tags []) [] ≡ some (transport_of h).tagdec
    pub waits : handshake_waits h ≡ true
    pub not_closed : is_closed h ≡ false

  abbrev subscribed : List ℕ → V → Settings → Pools → Host V
  unfolding subscribe_any
  subscribed name version s p =
      subscribe_any
        (subscribe_any (subscribe_any (first_host name version s p) whoami_msg (some own))
          (ping_msg []) (some own))
        (heartbeat_msg 0) (some own)

module _ (factories : Factories) where
  learn_decoders-known :
      (s : Settings) (tags : List (List ℕ)) (tagdec : List (ℕ × TagFn))
      → All (λ (tag : List ℕ). find_name tag factories ≢ none) tags
      → (learned : List (ℕ × TagFn)) × (learn_decoders factories s tags tagdec ≡ some learned)
  unfolding learn_decoders
  learn_decoders-known s [] tagdec known = (tagdec, refl)
  learn_decoders-known s (tag ∷ tags) tagdec known = elim (Option-cases (find_name tag factories)) [
    | inl n ↦ absurd (known.0 n)
    | inr (factory, f) ↦
        let fns = factory s in
        let (learned, e) =
          learn_decoders-known s tags (insert_key fns.tagid fns.dec tagdec) known.1 in
        (learned, rw (f, learn_decoders) e)
  ]

module _ {V : Type 0} (factories : Factories) (own chan_limit packet_limit : ℕ) where
  -- Behind the name's registration `NewTransport` goes on with the pools.
  pub new_transport-prepare :
      (name : List ℕ) (version : V) (s : Settings) (a : ℕ) (transports : Named ℕ)
      → Usable chan_limit packet_limit s
      → find_name name transports ≡ none
      → (p : Pools) × Pooled s.buffersize s.batchsize s.opaque_start s.opaque_end p
        × (new_transport factories own chan_limit packet_limit name version (some s) a transports
            ≡ ((name, a) ∷ transports, prepare factories own name version s p))
  unfolding new_transport
  new_transport-prepare name version s a transports u free =
      let (p, made, pooled) =
        set_opaque_range-Pooled chan_limit s.buffersize s.batchsize s.opaque_start s.opaque_end
          u.low u.some_range u.high (omega (arith, u.batch)) u.cmds in
      let size : (s.chansize + s.batchsize) % 2 ^ 64 ≡ s.chansize + s.batchsize =
        omega (arith, u.txch, u.limit) in
      (
        p,
        pooled,
        rw (
          size,
          le→ltb chan_limit (s.chansize + s.batchsize) u.txch,
          le→ltb packet_limit s.chansize u.rxch,
          add_free name a transports free,
          made,
        ),
      )

  prepare-Fresh :
      (name : List ℕ) (version : V) (s : Settings) (p : Pools)
      → Pooled s.buffersize s.batchsize s.opaque_start s.opaque_end p
      → All (λ (tag : List ℕ). find_name tag factories ≢ none) (get_tags s.tags [])
      → (h : Host V) × (prepare factories own name version s p ≡ started h)
        × Fresh own factories s h
  unfolding prepare subscribe_any handshake_waits is_closed
  prepare-Fresh name version s p pooled known =
      let (tagdec, e) = learn_decoders-known factories s (get_tags s.tags []) [] known in
      let locals : All (λ (u : Stream). u.remote ≡ false) p.strms =
        All-map (InRange s.buffersize s.opaque_start s.opaque_end)
          (λ (u : Stream). u.remote ≡ false) p.strms (λ u r. ap (λ (x : Stream). x.remote) r.0)
          pooled.in_range in
      let h = subscribed own name version s p in
      let h = with_transport h (record (transport_of h) { tagdec = tagdec }) in
      (
        h,
        rw (e, prepare) refl,
        record {
          inv = first_endpoint-Inv s p.strms locals;
          in_range = λ a below.
              stream_at-All (InRange s.buffersize s.opaque_start s.opaque_end) p.strms a
                pooled.in_range below;
          distinct = λ a b less below. stream_at-Rising p.strms a b pooled.rising less below;
          none_live = refl;
          pooled = λ v y lo hi.
              let (i, before, after, named, there) =
                stream_at-has_opaque v 0 p.strms (pooled.complete v y lo hi) in
              let same : 0 + i ≡ i = omega arith in
              (i, before, after, named, there ∙ ap (λ j. before ++ j ∷ after) same);
          commands = ap length pooled.txcmd ∙ length-replicate _ (replicate s.buffersize 0);
          quiet = (refl, refl);
          handlers = predefined own;
          settings = refl;
          no_encoders = refl;
          learned = e;
          waits = refl;
          not_closed = refl;
        },
      )

  -- With usable settings of which all tags have a factory, and a name that is not taken,
  -- `NewTransport` returns a transport and has registered it under the name. Its streams stand
  -- each in one place and no stream is live; each value of the configured range that the protocol
  -- does not reserve has a stream in the pool, all of the streams are local ones with such a value,
  -- and no two have the same; there is a command for each value of the range and a batch more, and
  -- none is queued; exactly the three predefined messages have a handler, which is the transport's
  -- own; and the transport is neither closed nor through its handshake.
  pub new_transport-Fresh :
      (name : List ℕ) (version : V) (s : Settings) (a : ℕ) (transports : Named ℕ)
      → Usable chan_limit packet_limit s
      → find_name name transports ≡ none
      → All (λ (tag : List ℕ). find_name tag factories ≢ none) (get_tags s.tags [])
      → (h : Host V) × (new_transport factories own chan_limit packet_limit name version
            (some s)
            a
            transports
          ≡ ((name, a) ∷ transports, started h))
        × Fresh own factories s h
  new_transport-Fresh name version s a transports u free known =
      let (p, pooled, made) = new_transport-prepare name version s a transports u free in
      let (h, ready, fresh) = prepare-Fresh name version s p pooled known in
      (h, made ∙ ap (λ (c : Creation V). ((name, a) ∷ transports, c)) ready, fresh)

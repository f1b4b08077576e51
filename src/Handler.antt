-- ===== src/Handler.antt =====
-- The handler of the predefined messages: msghandler of msg.go.
pub mod Answers
pub mod Dispatch
pub mod Pooled
use gofast.Base.{
  ℕ, zero, suc, ◌+◌, ◌%◌, ◌^◌, Bool, true, false, ◌||◌, List, [], ◌∷◌, Option, none, some, Result,
  ok, panic, stuck, ltb, leb, ◌==◌, if◌then◌else◌, length, ℤ, pos,
}
use gofast.Calls.{Call, returned, panicked, blocked, call_then, run, Client, respond}
use gofast.Messages.{
  VersionOps, Whoami, msg_ping, msg_whoami, msg_heartbeat, is_reserved_msg, heartbeat_encode,
  ping_encode, ping_decode, whoami_encode, whoami_decode,
}
use gofast.Opaque.{Pools, set_opaque_range}
use gofast.Registry.{Named, find_name, add_attempt, del_attempt}
use gofast.SyncRx.{Endpoint}
use gofast.Tags.{get_tags}
use gofast.Types.{BinMessage, Message, Stats, Stream, TagFn, Transport, add_uint64, insert_key}
use gofast.Setup.{Host, transport_of, with_transport, ping_msg, new_whoami}

-- `msg.Data`, of which nil has no bytes.
abbrev pub data_of : BinMessage → List ℕ
data_of msg = elim msg.body [ none ↦ [] | some bytes ↦ bytes ]

-- `stream.Response(msg, flush)`, whose error is logged: the host, and whether there is none. A
-- nil stream has no transport.
unfoldable pub answer :
    {V : Type 0} → Host V → Option ℕ → Message → Bool → Bool → Call (Host V × Bool)
answer h none msg flush killed = panicked
answer h (some a) msg flush killed =
    call_then (respond h.client a msg flush killed)
      (λ (client, err). returned (record h { client = client }, if err then false else true))

module _ {V : Type 0} (ops : VersionOps V) where
  abbrev pub sent_whoami : Host V → Message
  sent_whoami h = record {
    id = msg_whoami;
    encode = whoami_encode ops (new_whoami h);
    is_whoami = true;
  }

  -- `t.msghandler(stream, msg)` at the time `now`. It returns a nil callback.
  unfoldable pub msghandler : ℕ → Host V → Option ℕ → BinMessage → Bool → Call (Host V)
  unfolding answer new_whoami
  msghandler now h stream msg killed =
      if msg.id == msg_heartbeat
      then (let t = transport_of h in
          let stats = record (t.stats) { n_rxbeats = add_uint64 t.n_rxbeats 1 } in
          returned (with_transport (record h { aliveat = now }) (record t { stats = stats })))
      else if msg.id == msg_ping
      then call_then (run (ping_decode (data_of msg))) (λ (echo, n).
        call_then (answer h stream (ping_msg echo) false killed) (λ (h', fine). returned h'))
      else if msg.id == msg_whoami
      then call_then (run (whoami_decode ops (data_of msg))) (λ (wai, n).
        let known = record h { peerver = some wai.version } in
        call_then (answer known stream (sent_whoami known) true killed) (λ (h', fine).
          returned (record h' { xchngok = if fine then add_uint64 h'.xchngok 1 else h'.xchngok })))
      else returned h

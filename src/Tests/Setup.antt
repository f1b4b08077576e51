-- ===== src/Tests/Setup.antt =====
-- Transports that are made, shake hands, answer and are closed.
use gofast.Base.{
  ℕ, ◌≡◌, ◌≢◌, refl, inl, inr, Bool-cases, true, false, List, [], ◌∷◌, ◌++◌, Option, none, some, ok,
  pos, text_eq, length, replicate, All, arith,
}
use gofast.Calls.Respond.{response_frame}
use gofast.Calls.{returned}
use gofast.Cbor.Encode.{head, head_info, head_tail}
use gofast.Messages.RoundTrip.{
  ping_bytes, ping_encode-decode, whoami_bytes, whoami_encode-decode, version64-Encodes,
}
use gofast.Messages.{version64, msg_ping, msg_whoami, whoami_encode, whoami_decode}
use gofast.Registry.{Named, find_name}
use gofast.Setup.Agreed.{Stable, Paired, handshake-Paired}
use gofast.Handler.{sent_whoami, msghandler}
use gofast.Handler.Answers.{Answerable, msghandler-ping, msghandler-whoami}
use gofast.Setup.Failed.{new_transport-retry}
use gofast.Setup.Started.{Usable, Fresh, new_transport-Fresh}
use gofast.Setup.{
  Settings, TagFns, Factories, Host, first_host, transport_of, started, invalid_tag, start_panicked,
  new_transport, handshake, new_whoami, ping_msg,
}
use gofast.Tags.{split, trim, trim_left, get_tags}
use gofast.Tests.Calls.{caller}
use gofast.Tests.{marker, marker-IsCodec, unmark}
use gofast.Types.{BinMessage}

abbrev tagging : List ℕ → Settings
tagging tags = record {
  buffersize = 64;
  batchsize = 1;
  chansize = 4;
  tags = tags;
  opaque_start = 1000;
  opaque_end = 1001;
  gzip_level = pos 1;
}

-- One tag, of the name m.
abbrev marked : Settings → TagFns
marked s = record { tagid = 46; enc = marker.enc; dec = unmark }

abbrev factories : Factories
factories = (109 ∷ [], marked) ∷ []

abbrev first_version : ℕ
first_version = 1

tagging-Usable : (tags : List ℕ) → Usable 1000 1000 (tagging tags)
tagging-Usable tags = record {
  low = omega arith;
  some_range = omega arith;
  high = omega arith;
  batch = omega arith;
  txch = omega arith;
  rxch = omega arith;
  cmds = omega arith;
  limit = omega arith;
}

tags_known : All (λ (tag : List ℕ). find_name tag factories ≢ none) (get_tags (109 ∷ []) [])
unfolding get_tags split trim trim_left find_name text_eq
tags_known = ((λ e. cc), tt)

new_transport-Fresh_example :
    (h : Host ℕ) × (new_transport factories 3 1000 1000
        (97 ∷ [])
        first_version
        (some (tagging (109 ∷ [])))
        5
        []
      ≡ ((97 ∷ [], 5) ∷ [], started h))
    × Fresh 3 factories (tagging (109 ∷ [])) h
unfolding find_name
new_transport-Fresh_example =
    new_transport-Fresh factories 3 1000 1000 (97 ∷ []) first_version (tagging (109 ∷ [])) 5 []
      (tagging-Usable (109 ∷ [])) refl tags_known

unknown_tag : get_tags (120 ∷ []) [] ≡ [] ++ (120 ∷ []) ∷ []
unfolding get_tags split trim trim_left
unknown_tag = refl

new_transport-retry_example :
    (left : Named ℕ) × (new_transport factories 3 1000 1000
        (97 ∷ [])
        first_version
        (some (tagging (120 ∷ [])))
        5
        []
      ≡ (left, invalid_tag))
    × ((again : Option Settings) (b : ℕ)
        → new_transport factories 3 1000 1000 (97 ∷ []) first_version again b left
          ≡ (left, start_panicked))
unfolding find_name text_eq
new_transport-retry_example =
    new_transport-retry factories 3 1000 1000 (97 ∷ []) first_version (tagging (120 ∷ [])) 5 [] []
      (120 ∷ []) [] (tagging-Usable (120 ∷ [])) refl unknown_tag refl

abbrev caller_host : Host ℕ
caller_host =
    first_host (98 ∷ []) 300 (tagging []) (record { strms = []; strms_cap = 2; txcmd = [] })

number_of :
    (factory : Settings → TagFns)
    → some marked ≡ some factory
    → (factory (tagging (109 ∷ []))).tagid ≡ (factory (tagging [])).tagid
number_of factory e = rw (← some_inj e) refl
  where
    some_inj : some marked ≡ some factory → marked ≡ factory
    some_inj e = cc

same_number : Stable factories (tagging []) (tagging (109 ∷ []))
unfolding find_name
same_number name factory f = elim (Bool-cases (text_eq (109 ∷ []) name)) [
  | inl t ↦ number_of factory (rw t at f)
  | inr e ↦ absurd (some_none (rw e at f))
]
  where
    some_none : none ≢ some factory
    some_none e = cc

handshake-Paired_example :
    (peer : Host ℕ) × (new_transport factories 3 1000 1000
        (97 ∷ [])
        first_version
        (some (tagging (109 ∷ [])))
        5
        []
      ≡ ((97 ∷ [], 5) ∷ [], started peer))
    × Paired factories
        (tagging [])
        (tagging (109 ∷ []))
        (transport_of (handshake factories caller_host (some (new_whoami peer))).0).tagenc
        (transport_of peer).tagdec
unfolding find_name
handshake-Paired_example =
    handshake-Paired factories 3 1000 1000 caller_host (97 ∷ []) first_version (tagging (109 ∷ []))
      5 [] (tagging-Usable (109 ∷ [])) refl tags_known same_number refl

-- The client of the other tests as a transport.
abbrev pub answering : Host ℕ
answering = record caller_host { client = caller }

ping-Answerable :
    Answerable version64 9 (marker ∷ []) answering 1 (ping_msg (104 ∷ [])) (ping_bytes (104 ∷ [])) 1
unfolding head_info head_tail
ping-Answerable = record {
  free = refl;
  room = omega arith;
  small = omega arith;
  ready = record {
    laws = (marker-IsCodec, tt);
    tags = refl;
    encodes = (ping_encode-decode (104 ∷ []) (replicate 64 0) [] (omega arith)).0;
    layers_fit = (omega arith, omega arith, omega arith);
    body_fits = omega arith;
    packet_fits = omega arith;
  };
}

abbrev pub pinging : BinMessage
pinging = record { id = msg_ping; body = some (ping_bytes (104 ∷ [])) }

msghandler-ping_example :
    (h : Host ℕ) × (msghandler version64 9 answering (some 1) pinging false ≡ returned h)
    × (h.client.txch
        ≡ response_frame (marker ∷ []) caller 1 (ping_msg (104 ∷ [])) false (ping_bytes (104 ∷ []))
          ∷ [])
msghandler-ping_example =
    msghandler-ping version64 9 (marker ∷ []) answering 1 1 pinging (104 ∷ []) [] refl refl
      (omega arith) ping-Answerable

abbrev pub own_bytes : List ℕ
own_bytes = whoami_bytes (new_whoami answering) (head 0 300)

pub own_round_trip :
    (out rest : List ℕ)
    → (whoami_encode version64 (new_whoami answering) out ≡ ok own_bytes)
      × (whoami_decode version64 (own_bytes ++ rest)
          ≡ ok (new_whoami answering, pos (length own_bytes)))
unfolding new_whoami
own_round_trip out rest =
    whoami_encode-decode version64 (new_whoami answering) (head 0 300) out rest
      (version64-Encodes 300 (omega arith)) (omega arith) (omega arith) (omega arith)

whoami-Answerable :
    Answerable version64 9 (marker ∷ []) answering 1 (sent_whoami version64 answering) own_bytes 1
unfolding head_info head_tail new_whoami
whoami-Answerable = record {
  free = refl;
  room = omega arith;
  small = omega arith;
  ready = record {
    laws = (marker-IsCodec, tt);
    tags = refl;
    encodes = (own_round_trip (replicate 64 0) []).0;
    layers_fit = omega arith;
    body_fits = omega arith;
    packet_fits = omega arith;
  };
}

-- The whoami of a peer that is set up as this transport is.
abbrev introducing : BinMessage
introducing = record { id = msg_whoami; body = some (own_bytes ++ 0 ∷ []) }

msghandler-whoami_example :
    (h : Host ℕ) × (msghandler version64 9 answering (some 1) introducing false ≡ returned h)
    × (h.client.txch
        ≡ response_frame (marker ∷ []) caller 1 (sent_whoami version64 answering) true own_bytes
          ∷ [])
    × (h.peerver ≡ some 300)
    × (h.xchngok ≡ 1)
unfolding new_whoami
msghandler-whoami_example =
    msghandler-whoami version64 9 (marker ∷ []) answering 1 1 introducing (new_whoami answering)
      (pos (length own_bytes)) own_bytes refl (own_round_trip [] (0 ∷ [])).1 whoami-Answerable

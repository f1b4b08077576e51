-- ===== src/Setup/Agreed.antt =====
-- The tags that two ends agree on: NewTransport and Handshake of transport.go.
use gofast.Base.{
  ℕ, ◌≡◌, ◌≢◌, ap, sym, ◌∙◌, List, [], ◌∷◌, none, some, inl, inr, Option-cases, Bool-cases, ◌==◌,
  ==_iff, ==→ne, All,
}
use gofast.Registry.{Named, find_name}
use gofast.Setup.{
  Settings, TagFns, Factories, Host, transport_of, learn_decoders, learn_encoders, handshake,
  new_whoami, new_transport, started,
}
use gofast.Setup.Started.{Usable, new_transport-Fresh}
use gofast.Tags.{get_tags}
use gofast.Types.Keys.{find-insert_same, find-insert_other}
use gofast.Types.{TagFn, find_key, insert_key}

some_inj : {A : Type 0} {x y : A} → some x ≡ some y → x ≡ y
some_inj e = cc

some-none : {A : Type 0} {x : A} → none ≢ some x
some-none e = cc

module _ (factories : Factories) (mine theirs : Settings) where
  -- A factory's number for its tag does not hang on the settings.
  abbrev pub Stable : Type 0
  Stable =
      (name : List ℕ) (factory : Settings → TagFns)
      → find_name name factories ≡ some factory
      → (factory theirs).tagid ≡ (factory mine).tagid

  -- What one end encodes with is of the factory whose decoder the other end has under the number.
  pub record Opens (k : ℕ) (enc : TagFn) (decs : List (ℕ × TagFn)) : Type 0 where
    pub name : List ℕ
    pub factory : Settings → TagFns
    pub known : find_name name factories ≡ some factory
    pub tagid : (factory mine).tagid ≡ k
    pub mine_enc : enc ≡ (factory mine).enc
    pub their_dec : find_key k decs ≡ some (factory theirs).dec

  abbrev pub Paired : List (ℕ × TagFn) → List (ℕ × TagFn) → Type 0
  Paired encs decs = (k : ℕ) (enc : TagFn) → find_key k encs ≡ some enc → Opens k enc decs

  Paired-insert :
      (encs decs : List (ℕ × TagFn)) (name : List ℕ) (factory : Settings → TagFns)
      → Stable
      → find_name name factories ≡ some factory
      → Paired encs decs
      → Paired
          (insert_key (factory mine).tagid (factory mine).enc encs)
          (insert_key (factory theirs).tagid (factory theirs).dec decs)
  Paired-insert encs decs name factory stable f paired k enc found =
      let j = (factory mine).tagid in
      let same_id = stable name factory f in
      elim (Bool-cases (j == k)) [
        | inl t ↦
            let same = (==_iff j k).0 t in
            record {
              name = name;
              factory = factory;
              known = f;
              tagid = same;
              mine_enc = some_inj (
                  sym found
                  ∙ ap (λ i. find_key k (insert_key i (factory mine).enc encs)) same
                  ∙ find-insert_same k (factory mine).enc encs);
              their_dec =
                  ap (λ i. find_key k (insert_key i (factory theirs).dec decs)) (same_id ∙ same)
                  ∙ find-insert_same k (factory theirs).dec decs;
            }
        | inr ne ↦
            let other = ==→ne j k ne in
            let o =
              paired k enc (sym (find-insert_other k j (factory mine).enc encs other) ∙ found) in
            record {
              name = o.name;
              factory = o.factory;
              known = o.known;
              tagid = o.tagid;
              mine_enc = o.mine_enc;
              their_dec =
                  find-insert_other k _ (factory theirs).dec decs (λ e. other (sym same_id ∙ e))
                  ∙ o.their_dec;
            }
      ]

  learn-Paired :
      (tags : List (List ℕ)) (encs decs learned : List (ℕ × TagFn))
      → Stable
      → learn_decoders factories theirs tags decs ≡ some learned
      → Paired encs decs
      → Paired (learn_encoders factories mine tags encs) learned
  unfolding learn_decoders learn_encoders
  learn-Paired [] encs decs learned stable e paired =
      λ k enc found. rw (← some_inj e) (paired k enc found)
  learn-Paired (tag ∷ tags) encs decs learned stable e paired =
      elim (Option-cases (find_name tag factories)) [
        | inl n ↦ absurd (some-none (rw (n, learn_decoders) at e))
        | inr (factory, f) ↦
            rw (f, learn_encoders)
              (learn-Paired tags _ _ learned stable (rw (f, learn_decoders) at e)
                (Paired-insert encs decs tag factory stable f paired))
      ]

handshake-tagenc :
    {V : Type 0} (factories : Factories) (h peer : Host V) (theirs : Settings)
    → peer.settings ≡ theirs
    → (transport_of h).tagenc ≡ []
    → (transport_of (handshake factories h (some (new_whoami peer))).0).tagenc
      ≡ learn_encoders factories h.settings (get_tags theirs.tags []) []
unfolding handshake new_whoami
handshake-tagenc factories h peer theirs same none_yet =
    ap (learn_encoders factories h.settings (get_tags peer.settings.tags [])) none_yet
    ∙ ap (λ (s : Settings). learn_encoders factories h.settings (get_tags s.tags []) []) same

-- A handshake makes what one end encodes with decodable at the other: where `NewTransport` at the
-- peer finds a factory for each tag of its settings, which are usable, under a name that is not
-- taken there, it returns a transport, and after a handshake with what that says of itself each
-- tag encoder of a transport that had none is of a factory whose decoder the peer has under the
-- same tag. The two ends share their factories, whose tag numbers do not hang on the settings.
pub handshake-Paired :
    {V : Type 0} (factories : Factories) (own chan_limit packet_limit : ℕ) (h : Host V)
    (name : List ℕ) (version : V) (theirs : Settings) (a : ℕ) (transports : Named ℕ)
    → Usable chan_limit packet_limit theirs
    → find_name name transports ≡ none
    → All (λ (tag : List ℕ). find_name tag factories ≢ none) (get_tags theirs.tags [])
    → Stable factories h.settings theirs
    → (transport_of h).tagenc ≡ []
    → (peer : Host V) × (new_transport factories own chan_limit packet_limit name version
          (some theirs)
          a
          transports
        ≡ ((name, a) ∷ transports, started peer))
      × Paired factories h.settings theirs
          (transport_of (handshake factories h (some (new_whoami peer))).0).tagenc
          (transport_of peer).tagdec
handshake-Paired factories own chan_limit packet_limit h name version theirs a transports usable
      free known stable none_yet =
    let (peer, made, fresh) =
      new_transport-Fresh factories own chan_limit packet_limit name version theirs a transports
        usable free known in
    let tags = get_tags theirs.tags [] in
    let paired =
      learn-Paired factories h.settings theirs tags [] [] (transport_of peer).tagdec stable
        fresh.learned (λ k enc found. absurd (some-none found)) in
    (peer, made, rw (handshake-tagenc factories h peer theirs fresh.settings none_yet) paired)

-- ===== src/Setup/Failed.antt =====
-- The errors of `NewTransport` of transport.go: what is left behind where it returns no transport.
use gofast.Base.{
  ℕ, ◌≡◌, refl, ap, ◌∙◌, List, [], ◌∷◌, ◌++◌, Option, none, some, inl, inr, Option-cases, arith,
}
use gofast.Registry.{Named, find_name, add_attempt}
use gofast.Registry.Names.{text_eq_refl}
use gofast.Setup.Started.{Usable, new_transport-prepare}
use gofast.Setup.{
  Settings, Factories, Creation, invalid_tag, start_panicked, learn_decoders, prepare,
  new_transport,
}
use gofast.Tags.{get_tags}
use gofast.Types.{TagFn, insert_key}

module _ (factories : Factories) where
  learn_decoders-unknown :
      (s : Settings) (front : List (List ℕ)) (tag : List ℕ) (back : List (List ℕ))
      (tagdec : List (ℕ × TagFn))
      → find_name tag factories ≡ none
      → learn_decoders factories s (front ++ tag ∷ back) tagdec ≡ none
  unfolding learn_decoders
  learn_decoders-unknown s [] tag back tagdec n = rw (n, learn_decoders)
  learn_decoders-unknown s (t ∷ front) tag back tagdec n =
      elim (Option-cases (find_name t factories)) [
        | inl m ↦ rw (m, learn_decoders)
        | inr (factory, f) ↦
            let fns = factory s in
            rw (f, learn_decoders)
              (learn_decoders-unknown s front tag back (insert_key fns.tagid fns.dec tagdec) n)
      ]

module _ {V : Type 0} (factories : Factories) (own chan_limit packet_limit : ℕ) where
  prepare-invalid_tag :
      (name : List ℕ) (version : V) (s : Settings) (front : List (List ℕ)) (tag : List ℕ)
      (back : List (List ℕ))
      → get_tags s.tags [] ≡ front ++ tag ∷ back
      → find_name tag factories ≡ none
      → (p : _) → prepare factories own name version s p ≡ invalid_tag
  unfolding prepare
  prepare-invalid_tag name version s front tag back tags n p =
      rw (tags, learn_decoders-unknown factories s front tag back [] n, prepare) refl

  -- A name that is taken is refused before anything is made.
  new_transport_taken :
      (name : List ℕ) (version : V) (setts : Option Settings) (a b : ℕ) (transports : Named ℕ)
      → find_name name transports ≡ some b
      → new_transport factories own chan_limit packet_limit name version setts a transports
        ≡ (transports, start_panicked)
  unfolding new_transport add_attempt
  new_transport_taken name version setts a b transports taken = ground arith

  -- Where a tag of the settings has no factory, `NewTransport` returns the error, but the name stays
  -- registered: a further call with the name, whatever its settings, panics and leaves the registry
  -- as it is. The settings are usable otherwise, and the name was not taken before.
  pub new_transport-retry :
      (name : List ℕ) (version : V) (s : Settings) (a : ℕ) (transports : Named ℕ)
      (front : List (List ℕ)) (tag : List ℕ) (back : List (List ℕ))
      → Usable chan_limit packet_limit s
      → find_name name transports ≡ none
      → get_tags s.tags [] ≡ front ++ tag ∷ back
      → find_name tag factories ≡ none
      → (left : Named ℕ) × (new_transport factories own chan_limit packet_limit name version
            (some s)
            a
            transports
          ≡ (left, invalid_tag))
        × ((again : Option Settings) (b : ℕ)
            → new_transport factories own chan_limit packet_limit name version again b left
              ≡ (left, start_panicked))
  unfolding find_name
  new_transport-retry name version s a transports front tag back u free tags unknown =
      let left = (name, a) ∷ transports in
      let (p, pooled, made) =
        new_transport-prepare factories own chan_limit packet_limit name version s a transports u
          free in
      let failed = prepare-invalid_tag name version s front tag back tags unknown p in
      (
        left,
        made ∙ ap (λ (c : Creation V). (left, c)) failed,
        λ again b. new_transport_taken name version again b a left (rw (text_eq_refl name)),
      )

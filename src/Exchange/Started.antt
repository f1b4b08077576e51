-- ===== src/Exchange/Started.antt =====
-- The start of a stream at the remote: handlepkt of go_syncrx.go.
use gofast.Base.{ℕ, ◌≡◌, ap, ◌∙◌, true, false, List, [], ◌∷◌, ◌++◌, append-nil, Option, none, some}
use gofast.Exchange.Served.{given_at, new_transport, callback_found}
use gofast.SyncRx.Aside.{told_to, told_to-append}
use gofast.SyncRx.Delivery.{new_events, new_opaque}
use gofast.SyncRx.Order.{Held}
use gofast.SyncRx.Loose.{write_same}
use gofast.SyncRx.Ownership.{sync_step-Inv}
use gofast.SyncRx.Pool.{Inv}
use gofast.SyncRx.{
  Endpoint, Event, handled, packet, log, write, with_stats, newremotestream, handler_of, handle_new,
  handlepkt, sync_step,
}
use gofast.Types.Keys.{find-insert_same}
use gofast.Types.{BinMessage, RxPacket, Stream, Transport, find_key, insert_key, add_uint64}

-- A packet that starts a stream.
pub record IsStart (pkt : RxPacket) : Type 0 where
  pub starts : pkt.start ≡ true
  pub post : pkt.post ≡ false
  pub request : pkt.request ≡ false
  pub finish : pkt.finish ≡ false

module _ (reply : ℕ → Option ℕ → BinMessage → Option ℕ) where
  handle_new-starts :
      (e : Endpoint) (pkt : RxPacket) (h : ℕ)
      → IsStart pkt
      → handler_of reply e.transport pkt.msg ≡ some h
      → let new = newremotestream e pkt.opaque in
        let callb = reply h (some new.1) pkt.msg in
        handle_new reply e pkt
        ≡ with_stats
            (record (log new.0 (handled h (some new.1) pkt.msg)) {
              heap = write new.0.heap new.1 (record (new.0.heap new.1) { rxcallb = callb });
              live = insert_key ((new.0.heap new.1).opaque) new.1 new.0.live;
            })
            (record (e.transport.stats) { n_rxstart = add_uint64 e.transport.n_rxstart 1 })
  unfolding handle_new
  handle_new-starts e pkt h is handler =
      let new = newremotestream e pkt.opaque in
      let found : handler_of reply new.0.transport pkt.msg ≡ some h =
        ap (λ (t : Transport). handler_of reply t pkt.msg) (new_transport e pkt.opaque) ∙ handler in
      simp (
        is.post,
        is.request,
        is.starts,
        handle_new,
        callback_found reply new.0 (some new.1) pkt.msg h found,
      )

  -- What it leaves.
  pub record Starts (e e' : Endpoint) (pkt : RxPacket) (h c : ℕ) : Type 0 where
    pub held : Held pkt.opaque (given_at e pkt.opaque) c e'
    pub events : e'.events ≡ e.events ++ handled h (some (given_at e pkt.opaque)) pkt.msg ∷ []
    pub quiet : told_to (given_at e pkt.opaque) e'.events ≡ told_to (given_at e pkt.opaque) e.events

  pub sync_step-Starts :
      (e : Endpoint) (pkt : RxPacket) (h c : ℕ)
      → Inv e
      → IsStart pkt
      → find_key pkt.opaque e.live ≡ none
      → handler_of reply e.transport pkt.msg ≡ some h
      → reply h (some (given_at e pkt.opaque)) pkt.msg ≡ some c
      → Starts e (sync_step reply e (packet pkt)) pkt h c
  unfolding sync_step handlepkt
  sync_step-Starts e pkt h c inv is unknown handler callb =
      let new = newremotestream e pkt.opaque in
      let b = new.1 in
      let s = record (new.0.heap b) { rxcallb = reply h (some b) pkt.msg } in
      let opens : handlepkt reply e pkt ≡ handle_new reply e pkt =
        simp (is.finish, unknown, handlepkt) in
      let eq = opens ∙ handle_new-starts e pkt h is handler in
      let key : (new.0.heap b).opaque ≡ pkt.opaque = new_opaque e pkt.opaque in
      let events =
        ap (λ (l : List Event). l ++ handled h (some b) pkt.msg ∷ []) (new_events e pkt.opaque) in
      let ok' = sync_step-Inv reply e (packet pkt) tt inv in
      record {
        held = record {
          inv = ok';
          live =
              ap (λ (x : Endpoint). find_key pkt.opaque x.live) eq
              ∙ ap (λ (j : ℕ). find_key pkt.opaque (insert_key j b new.0.live)) key
              ∙ find-insert_same pkt.opaque b new.0.live;
          callb =
              ap (λ (x : Endpoint). (x.heap b).rxcallb) eq
              ∙ ap (λ (x : Stream). x.rxcallb) (write_same new.0.heap b s)
              ∙ callb;
        };
        events = ap (λ (x : Endpoint). x.events) eq ∙ events;
        quiet =
            ap (λ (x : Endpoint). told_to b x.events) eq
            ∙ ap (told_to b) events
            ∙ told_to-append b e.events (handled h (some b) pkt.msg ∷ [])
            ∙ append-nil (told_to b e.events);
      }

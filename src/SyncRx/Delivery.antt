-- ===== src/SyncRx/Delivery.antt =====
-- A packet of another stream, by what it leaves alone of a live one: handlepkt of go_syncrx.go.
use gofast.Base.{
  ℕ, ◌≡◌, ◌≢◌, refl, sym, ap, ◌∙◌, true, false, Option, none, some, inl, inr, Bool-cases,
  Option-cases, arith,
}
use gofast.SyncRx.Loose.{newremotestream-Loose, write_other, write_same}
use gofast.SyncRx.Ownership.{handler_cases}
use gofast.SyncRx.Pool.{Inv, All-find_key}
use gofast.SyncRx.{
  Endpoint, handled, log, write, get_rxstrm, buffer, with_stats, fromrxstrm, newremotestream,
  handle_finish, handle_new, handlepkt,
}
use gofast.Types.Keys.{find-insert_other}
use gofast.Types.{BinMessage, RxPacket, Stream, Transport, add_uint64, find_key, insert_key}
use gofast.SyncRx.Aside.{
  told_to, Aside, Aside-refl, handled-Aside, live_other, Aside-trans, finish_some-Aside,
  handle_live-Aside,
}

-- What `newremotestream` makes is another stream than those that there are.
module _ (e : Endpoint) (opaque : ℕ) where
  pub new_live : (newremotestream e opaque).0.live ≡ e.live
  unfolding newremotestream fromrxstrm
  new_live = ground arith

  pub new_events : (newremotestream e opaque).0.events ≡ e.events
  unfolding newremotestream fromrxstrm
  new_events = ground arith

  get_heap : (get_rxstrm e).0.heap ≡ e.heap
  get_heap = ground arith

  from_heap : (b : ℕ) → b ≢ (fromrxstrm e).1 → (fromrxstrm e).0.heap b ≡ e.heap b
  unfolding fromrxstrm
  from_heap b apart =
      write_other ((get_rxstrm e).0.heap) ((get_rxstrm e).1)
        (record ((get_rxstrm e).0.heap (get_rxstrm e).1) {
          rxcallb = none;
          opaque = 0;
          remote = false;
          out = buffer e.transport.buffersize ((get_rxstrm e).0.heap (get_rxstrm e).1).out;
          data_buf =
              buffer e.transport.buffersize ((get_rxstrm e).0.heap (get_rxstrm e).1).data_buf;
          tagout = buffer e.transport.buffersize ((get_rxstrm e).0.heap (get_rxstrm e).1).tagout;
        })
        b apart
      ∙ ap (λ (h : ℕ → Stream). h b) get_heap

  abbrev remote_stream : Stream
  remote_stream = record ((fromrxstrm e).0.heap (fromrxstrm e).1) {
    remote = true;
    opaque = opaque;
    rxcallb = none;
  }

  new_heap :
      (b : ℕ) → b ≢ (newremotestream e opaque).1 → (newremotestream e opaque).0.heap b ≡ e.heap b
  unfolding newremotestream
  new_heap b apart =
      write_other ((fromrxstrm e).0.heap) ((fromrxstrm e).1) remote_stream b apart
      ∙ from_heap b apart

  pub new_opaque :
      ((newremotestream e opaque).0.heap ((newremotestream e opaque).1)).opaque ≡ opaque
  unfolding newremotestream
  new_opaque =
      ap (λ (s : Stream). s.opaque)
        (write_same ((fromrxstrm e).0.heap) ((fromrxstrm e).1) remote_stream)

  module _ (k a : ℕ) (o : Inv e) (mine : find_key k e.live ≡ some a) where
    new_apart : a ≢ (newremotestream e opaque).1
    new_apart =
        All-find_key (λ (p : ℕ × ℕ). p.1 ≢ (newremotestream e opaque).1) k a _
          (newremotestream-Loose e opaque o).idle (ap (find_key k) new_live ∙ mine)

    pub newremotestream-Aside : Aside k a e (newremotestream e opaque).0
    newremotestream-Aside = record {
      live = ap (find_key k) new_live;
      stream = new_heap a new_apart;
      told = ap (told_to a) new_events;
    }

    -- and stays so where it is written to and made live under another key.
    started-Aside :
        (e' : Endpoint) (s : Stream) (j : ℕ) (t : Transport)
        → j ≢ k
        → Aside k a e e'
        → Aside k a e (record e' {
          heap = write e'.heap ((newremotestream e opaque).1) s;
          live = insert_key j ((newremotestream e opaque).1) e'.live;
          transport = t;
        })
    started-Aside e' s j t other p = record {
      live = find-insert_other k j ((newremotestream e opaque).1) e'.live other ∙ p.live;
      stream = write_other e'.heap ((newremotestream e opaque).1) s a new_apart ∙ p.stream;
      told = p.told;
    }

module _ (reply : ℕ → Option ℕ → BinMessage → Option ℕ) (k a : ℕ) where
  counted-Aside :
      {e e' : Endpoint} {t : Transport} → Aside k a e e' → Aside k a e (record e' { transport = t })
  counted-Aside p = record { live = p.live; stream = p.stream; told = p.told }

  handle_new-Aside :
      (e : Endpoint) (pkt : RxPacket)
      → Inv e
      → find_key k e.live ≡ some a
      → pkt.opaque ≢ k
      → Aside k a e (handle_new reply e pkt)
  unfolding handle_new
  handle_new-Aside e pkt o mine other = elim (Bool-cases pkt.post) [
    | inl p ↦
        rw (p, handle_new)
          (counted-Aside (
            handler_cases reply (λ r. Aside k a e r.0) e none pkt.msg (Aside-refl k a e)
              (λ h. handled-Aside k a e h none pkt.msg)))
    | inr p ↦
        let new = newremotestream e pkt.opaque in
        let made = newremotestream-Aside e pkt.opaque k a o mine in
        let seen =
          λ (h : ℕ). Aside-trans k a made (handled-Aside k a new.0 h (some new.1) pkt.msg) in
        elim (Bool-cases pkt.request) [
          | inl r ↦
              rw (p, r, handle_new)
                (counted-Aside
                  (handler_cases reply (λ r. Aside k a e r.0) new.0 (some new.1) pkt.msg made seen))
          | inr r ↦ elim (Bool-cases pkt.start) [
            | inl s ↦
                let key : (new.0.heap new.1).opaque ≢ k =
                  λ same. other (sym (new_opaque e pkt.opaque) ∙ same) in
                rw (p, r, s, handle_new)
                  (handler_cases reply
                    (λ r. Aside k a e (
                      with_stats
                        (record (r.0) {
                          heap = write (r.0.heap) new.1 (record (r.0.heap new.1) { rxcallb = r.1 });
                          live = insert_key ((r.0.heap new.1).opaque) new.1 r.0.live;
                        })
                        (record (e.transport.stats) {
                          n_rxstart = add_uint64 e.transport.n_rxstart 1;
                        })))
                    new.0 (some new.1) pkt.msg
                    (started-Aside e pkt.opaque k a o mine new.0 _ _ _ key made)
                    (λ h.
                      started-Aside e pkt.opaque k a o mine
                        (log new.0 (handled h (some new.1) pkt.msg)) _ _ _ key (seen h)))
            | inr s ↦ rw (p, r, s, handle_new) (counted-Aside (Aside-refl k a e))
          ]
        ]
  ]

  finish_none-Aside : (e : Endpoint) (j : ℕ) → Aside k a e (handle_finish e j none)
  unfolding handle_finish
  finish_none-Aside e j = record { live = refl; stream = refl; told = refl }

  -- A packet under another opaque value leaves the stream alone.
  pub handlepkt-Aside :
      (e : Endpoint) (pkt : RxPacket)
      → Inv e
      → find_key k e.live ≡ some a
      → pkt.opaque ≢ k
      → Aside k a e (handlepkt reply e pkt)
  unfolding handlepkt
  handlepkt-Aside e pkt o mine other = elim (Bool-cases pkt.finish) [
    | inl f ↦ elim (Option-cases (find_key pkt.opaque e.live)) [
      | inl n ↦ rw (f, n, handlepkt) (finish_none-Aside e pkt.opaque)
      | inr (b, l) ↦
          rw (f, l, handlepkt)
            (finish_some-Aside k a e pkt.opaque b other
              (live_other k a e pkt.opaque b o mine l other))
    ]
    | inr f ↦ elim (Option-cases (find_key pkt.opaque e.live)) [
      | inl n ↦ rw (f, n, handlepkt) (handle_new-Aside e pkt o mine other)
      | inr (b, l) ↦
          rw (f, l, handlepkt)
            (handle_live-Aside k a e pkt b (live_other k a e pkt.opaque b o mine l other))
    ]
  ]

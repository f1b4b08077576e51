-- ===== src/Tests/Delivery.antt =====
-- What the callback of a live stream is told.
use gofast.Base.{
  ℕ, suc, ok, panic, replicate, arith, ◌≡◌, refl, Bool, true, false, List, [], ◌∷◌, ◌++◌, none,
  some, map, All,
}
use gofast.SyncRx.Aside.{told_to}
use gofast.SyncRx.Order.{Held, stream_msgs, sync_run-told_to, sync_run-closes}
use gofast.Messages.{Whoami, version64}
use gofast.Responses.Unanswered.{the_end, sync_rx_unanswered}
use gofast.Responses.{waiting_for, on_responses, ping_into, whoami_into}
use gofast.SyncRx.{told, packet, sync_run, sync_rx}
use gofast.Tests.Streams.{always, endpoint-Inv}
use gofast.Tests.{endpoint, packet_on}
use gofast.Types.{BinMessage, no_message, RxPacket, find_key}

endpoint-Held : Held 600 2 5 endpoint
endpoint-Held = record { inv = endpoint-Inv; live = refl; callb = refl }

-- Two packets of the stream under 600, with one that starts another stream between them.
abbrev mixed : List RxPacket
mixed = packet_on 600 false ∷ packet_on 700 false ∷ packet_on 600 false ∷ []

mixed_go_on : All (λ (p : RxPacket). p.opaque ≡ 600 → p.finish ≡ false) mixed
mixed_go_on = ((λ e. refl), ((λ e. refl), ((λ e. refl), tt)))

abbrev said : BinMessage × Bool
said = (record { id = 7; body = some (104 ∷ []) }, true)

mixed_msgs : stream_msgs 600 mixed ≡ said ∷ said ∷ []
mixed_msgs = refl

sync_run-told_to_example :
    Held 600 2 5 (sync_run always endpoint (map packet mixed))
    × (told_to 2 (sync_run always endpoint (map packet mixed)).events ≡ said ∷ said ∷ [])
    × ((sync_run always endpoint (map packet mixed)).heap 2 ≡ endpoint.heap 2)
sync_run-told_to_example = sync_run-told_to 600 2 5 always endpoint mixed endpoint-Held mixed_go_on

sync_run-closes_example :
    let e = sync_run always endpoint (map packet mixed ++ packet (packet_on 600 true) ∷ []) in
    (find_key 600 e.live ≡ none) × (told_to 2 e.events ≡ said ∷ said ∷ (no_message, false) ∷ [])
sync_run-closes_example =
    sync_run-closes 600 2 5 always endpoint mixed (packet_on 600 true) endpoint-Held mixed_go_on
      refl refl

abbrev nobody : Whoami ℕ
nobody = record { name = []; version = 0; buffersize = 0; tags = [] }

-- The transport is closed with a stream to be opened left.
sync_rx_unanswered_example :
    (n : ℕ) × (told_to 2
        (sync_rx always endpoint (packet (packet_on 700 false) ∷ []) (told 0 ∷ [])).events
      ≡ replicate (suc n) the_end)
    × (on_responses ping_into (waiting_for (some (104 ∷ []))) (replicate (suc n) the_end) ≡ panic)
    × (on_responses (whoami_into version64) (waiting_for (some nobody)) (replicate (suc n) the_end)
        ≡ panic)
    × (on_responses ping_into (waiting_for none) (replicate (suc n) the_end)
        ≡ ok (record { resp = none; done = true }))
sync_rx_unanswered_example =
    sync_rx_unanswered version64 always 600 2 5 endpoint (packet_on 700 false ∷ []) (told 0 ∷ [])
      (104 ∷ []) nobody endpoint-Held ((λ e. absurd (omega arith)), tt)

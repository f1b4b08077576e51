-- ===== src/SyncRx/Loose.antt =====
-- A stream object that the receiver holds outside its pools and its table.
use gofast.Base.{
  ℕ, ◌<◌, ◌≡◌, ◌≢◌, refl, sym, ap, subst, false, List, [], ◌∷◌, ==_refl, ne→==, All-map, arith,
}
use gofast.SyncRx.{Endpoint, write, get_rxstrm, newremotestream}
use gofast.SyncRx.Pool.{NotIn, NotLive, Owned, Inv, Owned-write, Owned-grow}
use gofast.Types.{Stream}

pub write_other :
    (heap : ℕ → Stream) (a : ℕ) (s : Stream) (b : ℕ) → b ≢ a → write heap a s b ≡ heap b
write_other heap a s b ne = rw (ne→== a b (λ e. ne (sym e)))

pub write_same : (heap : ℕ → Stream) (a : ℕ) (s : Stream) → write heap a s a ≡ s
write_same heap a s = rw (==_refl a)

-- A stream outside both pools and the live streams.
pub record Loose (e : Endpoint) (a : ℕ) : Type 0 where
  pub inv : Inv e
  pub below : a < e.fresh
  pub out : NotIn a e.pool
  pub rx_out : NotIn a e.rx_pool
  pub idle : NotLive e.live a

get_rxstrm-Loose :
    (e : Endpoint) (rx : List ℕ) → e.rx_pool ≡ rx → Inv e → Loose (get_rxstrm e).0 (get_rxstrm e).1
get_rxstrm-Loose e [] q o =
    rw (q, get_rxstrm)
      (record {
        inv = Owned-grow e.heap e.fresh e.rx_pool e.pool e.live o;
        below = omega arith;
        out =
            All-map (λ b. b < e.fresh) (λ b. b ≢ e.fresh) e.pool (λ b h. omega arith) o.pool_below;
        rx_out =
            All-map (λ b. b < e.fresh) (λ b. b ≢ e.fresh) e.rx_pool (λ b h. omega arith) o.rx_below;
        idle =
            All-map (λ (p : ℕ × ℕ). p.1 < e.fresh) (λ (p : ℕ × ℕ). p.1 ≢ e.fresh) e.live
              (λ p h. omega arith) o.live_below;
      })
get_rxstrm-Loose e (a ∷ rx) q o =
    let o' : Owned e.heap e.fresh (a ∷ rx) e.pool e.live =
      subst (λ (x : List ℕ). Owned e.heap e.fresh x e.pool e.live) q o in
    rw (q, get_rxstrm)
      (record {
        inv = record {
          live_opaque = o.live_opaque;
          live_below = o.live_below;
          pool_local = o.pool_local;
          pool_below = o.pool_below;
          pool_once = o.pool_once;
          pool_idle = o.pool_idle;
          rx_remote = o'.rx_remote.1;
          rx_below = o'.rx_below.1;
          rx_once = o'.rx_once.1;
          rx_idle = o'.rx_idle.1;
        };
        below = o'.rx_below.0;
        out =
            All-map (λ b. (e.heap b).remote ≡ false) (λ b. b ≢ a) e.pool
              (λ b local same. cc (o'.rx_remote.0, ap (λ (x : ℕ). (e.heap x).remote) same))
              o.pool_local;
        rx_out = o'.rx_once.0;
        idle = o'.rx_idle.0;
      })

pub Loose-write :
    (e : Endpoint) (a : ℕ) (s : Stream) → Loose e a → Loose (record e { heap = write e.heap a s }) a
Loose-write e a s l = record {
  inv =
      Owned-write e.heap e.fresh e.rx_pool e.pool e.live (write e.heap a s) a
        (write_other e.heap a s) l.out l.rx_out l.idle l.inv;
  below = l.below;
  out = l.out;
  rx_out = l.rx_out;
  idle = l.idle;
}

pub newremotestream-Loose :
    (e : Endpoint) (opaque : ℕ)
    → Inv e
    → Loose (newremotestream e opaque).0 (newremotestream e opaque).1
unfolding newremotestream
newremotestream-Loose e opaque o =
    Loose-write _ _ _ (Loose-write _ _ _ (get_rxstrm-Loose e e.rx_pool refl o))

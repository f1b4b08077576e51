-- ===== src/Opaque.antt =====
-- The opaque values of streams: `istagok` and `setOpaqueRange` of transport.go, which fills the
-- pools of a new transport.
pub mod Range
use gofast.Base.{
  ℕ, zero, suc, ◌+◌, ◌-◌, ◌%◌, ◌^◌, Bool, true, false, List, [], ◌∷◌, none, Result, ok, panic, ltb,
  leb, ◌==◌, if◌then◌else◌, replicate,
}
use gofast.Types.{Stream}

abbrev pub tag_opaque_start : ℕ
tag_opaque_start = 266

abbrev pub tag_opaque_end : ℕ
tag_opaque_end = 15309735

unfoldable pub istagok : ℕ → Bool
istagok tag =
    if ltb tag 266
    then false
    else if leb tag 1000
    then true
    else if ltb tag 1004
    then false
    else if leb tag 22097
    then true
    else if tag == 22098
    then false
    else if leb tag 55798
    then true
    else if tag == 55799
    then false
    else leb tag 15309735

-- A local stream as it is made, with the buffers that it keeps.
abbrev pub new_stream : ℕ → ℕ → Stream
new_stream buffersize opaque = record {
  rxcallb = none;
  opaque = opaque;
  remote = false;
  out = replicate buffersize 0;
  data_buf = replicate buffersize 0;
  tagout = replicate buffersize 0;
}

-- The loop over the range, from `opaque` on for `count` rounds.
unfoldable pub new_streams : ℕ → ℕ → ℕ → List Stream
new_streams buffersize opaque zero = []
new_streams buffersize opaque (suc count) =
    let rest = new_streams buffersize (opaque + 1) count in
    if istagok opaque then new_stream buffersize opaque ∷ rest else rest

-- `t.pStrms` with its capacity, and `t.pTxcmd`, which is filled to its capacity.
pub record Pools : Type 0 where
  pub strms : List Stream
  pub strms_cap : ℕ
  pub txcmd : List (List ℕ)

-- `make(chan T, n)` panics where `n` is over the limit of the runtime, which is `chan_limit`. The
-- capacities are computed in uint64.
unfoldable pub set_opaque_range : ℕ → ℕ → ℕ → ℕ → ℕ → Result Pools
unfolding new_streams
set_opaque_range chan_limit buffersize batchsize start stop =
    let cap = (stop + 2 ^ 64 - start + 1) % 2 ^ 64 in
    let cmds = (cap + batchsize) % 2 ^ 64 in
    if ltb start tag_opaque_start
    then panic
    else if ltb tag_opaque_end stop
    then panic
    else if ltb chan_limit cap
    then panic
    else if ltb chan_limit cmds
    then panic
    else ok (record {
      strms = new_streams buffersize start (stop + 1 - start);
      strms_cap = cap;
      txcmd = replicate cmds (replicate buffersize 0);
    })

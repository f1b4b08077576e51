-- ===== src/Pauses.antt =====
-- `newPauseNs` of http/handlers.go, which reads the last pauses of the garbage collector out of a ring.
pub mod Recent
use gofast.Base.{
  ℕ, zero, suc, ◌+◌, ◌-◌, ◌%◌, ◌^◌, List, Result, ok, stuck, ◌>>=◌, ltb, leb, if◌then◌else◌,
}
use gofast.Bytes.{index, set_byte, slice_to}

-- The loop on `i` and `j`, of which `j` and `newcount` are uint32. It takes fuel, since it does not
-- end by `j` where `newcount` is the greatest uint32.
unfoldable pub pause_loop : ℕ → List ℕ → List ℕ → ℕ → ℕ → ℕ → Result (List ℕ)
pause_loop zero pad pause_ns i j newcount = stuck
pause_loop (suc fuel) pad pause_ns i j newcount = if ltb newcount j then ok pad else (do
  pause ← index pause_ns ((j + 255) % 2 ^ 32 % 256)
  pad ← set_byte pad i pause
  pause_loop fuel pad pause_ns (i + 1) ((j + 1) % 2 ^ 32) newcount)

unfoldable pub new_pause_ns : ℕ → List ℕ → List ℕ → ℕ → ℕ → Result (List ℕ)
unfolding pause_loop
new_pause_ns fuel pad pause_ns oldcount newcount =
    let diff = (newcount + 2 ^ 32 - oldcount) % 2 ^ 32 in
    if leb 256 diff
    then ok pause_ns
    else (pause_loop fuel pad pause_ns 0 ((oldcount + 1) % 2 ^ 32) newcount >>= λ pad.
        slice_to pad diff)

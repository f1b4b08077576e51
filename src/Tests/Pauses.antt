-- ===== src/Tests/Pauses.antt =====
-- Three collections since the last call.
use gofast.Base.{ℕ, ◌≡◌, refl, List, [], ◌∷◌, ok, replicate, arith}
use gofast.Pauses.Recent.{new_pause_ns-recent}
use gofast.Pauses.{new_pause_ns}

-- The ring with the pauses 7, 8 and 9 of collections 1, 2 and 3.
abbrev ring : List ℕ
ring = 7 ∷ 8 ∷ 9 ∷ replicate 253 0

new_pause_ns-recent_example : new_pause_ns 4 (replicate 256 0) ring 0 3 ≡ ok (7 ∷ 8 ∷ 9 ∷ [])
new_pause_ns-recent_example =
    new_pause_ns-recent 4 (replicate 256 0) ring 0 3 (omega arith) (omega arith) (omega arith) refl
      refl (omega arith)

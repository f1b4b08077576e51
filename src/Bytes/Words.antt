-- ===== src/Bytes/Words.antt =====
-- The fixed-width accessors: what is put is got back, and what a writer leaves behind.
use gofast.Base.{
  ℕ, ◌/◌, ◌%◌, ◌^◌, ◌≤◌, ◌<◌, ◌≡◌, List, [], ◌∷◌, ◌++◌, ok, length, le→ltb, arith, ap,
}
use gofast.Bytes.{IsU64, put_uint16, put_uint32, put_uint64, get_uint16, get_uint32, get_uint64}
use gofast.Bytes.Written.{overwrite}

-- The big-endian bytes of a number.
abbrev pub be16 : ℕ → List ℕ
be16 v = (v / 2 ^ 8 % 256) ∷ (v % 256) ∷ []

abbrev pub be32 : ℕ → List ℕ
be32 v = (v / 2 ^ 24 % 256) ∷ (v / 2 ^ 16 % 256) ∷ (v / 2 ^ 8 % 256) ∷ (v % 256) ∷ []

abbrev pub be64 : ℕ → List ℕ
be64 v =
    (v / 2 ^ 56 % 256)
    ∷ (v / 2 ^ 48 % 256)
    ∷ (v / 2 ^ 40 % 256)
    ∷ (v / 2 ^ 32 % 256)
    ∷ (v / 2 ^ 24 % 256)
    ∷ (v / 2 ^ 16 % 256)
    ∷ (v / 2 ^ 8 % 256)
    ∷ (v % 256)
    ∷ []

pub put_uint16-overwrite :
    (v : ℕ) (buf : List ℕ) → 2 ≤ length buf → put_uint16 v buf ≡ ok (overwrite (be16 v) buf)
unfolding put_uint16
put_uint16-overwrite v buf h = rw (le→ltb (length buf) 2 h)

pub put_uint32-overwrite :
    (v : ℕ) (buf : List ℕ) → 4 ≤ length buf → put_uint32 v buf ≡ ok (overwrite (be32 v) buf)
unfolding put_uint32
put_uint32-overwrite v buf h = rw (le→ltb (length buf) 4 h)

pub put_uint64-overwrite :
    (v : ℕ) (buf : List ℕ) → 8 ≤ length buf → put_uint64 v buf ≡ ok (overwrite (be64 v) buf)
unfolding put_uint64
put_uint64-overwrite v buf h = rw (le→ltb (length buf) 8 h)

pub get_uint16-be16 : (v : ℕ) (rest : List ℕ) → v < 2 ^ 16 → get_uint16 (be16 v ++ rest) ≡ ok v
unfolding get_uint16
get_uint16-be16 v rest h = ap ok (omega arith)

pub get_uint32-be32 : (v : ℕ) (rest : List ℕ) → v < 2 ^ 32 → get_uint32 (be32 v ++ rest) ≡ ok v
unfolding get_uint32
get_uint32-be32 v rest h = ap ok (omega arith)

pub get_uint64-be64 : (v : ℕ) (rest : List ℕ) → IsU64 v → get_uint64 (be64 v ++ rest) ≡ ok v
unfolding get_uint64
get_uint64-be64 v rest h = ap ok (omega arith)

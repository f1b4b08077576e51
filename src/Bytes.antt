-- ===== src/Bytes.antt =====
-- Go byte slices as lists of numbers: indexing, slicing, `copy`, and the fixed-width accessors of
-- encoding/binary's BigEndian. Every slice that the code writes comes from `make([]byte, n)`, so
-- its capacity is its length. A call that writes into `buf[n:]` writes into the slice it is cut
-- from: `within` is that write-through, and a `Writer` returns the buffer with the call's count.
pub mod Written
pub mod Words
pub mod Slices
use gofast.Base.{
  ℕ, zero, suc, ◌+◌, ◌*◌, ◌/◌, ◌%◌, ◌^◌, ◌<◌, List, [], ◌∷◌, ◌++◌, Option, none, some, Result, ok,
  panic, ◌>>=◌, ℤ, pos, negsuc, ◌+ℤ◌, ltb, leb, ◌||◌, if◌then◌else◌, length, take, drop, get_elem?,
}
use Prim.Native.Nat.{min}

abbrev pub IsByte : ℕ → Type 0
IsByte b = b < 256

abbrev pub IsU64 : ℕ → Type 0
IsU64 v = v < 2 ^ 64

-- `buf[i]`
unfoldable pub index : List ℕ → ℕ → Result ℕ
index buf i = elim (get_elem? buf i) [ none ↦ panic | some b ↦ ok b ]

-- `buf[n:]`, at an int that may be negative.
abbrev pub slice_from : List ℕ → ℤ → Result (List ℕ)
slice_from buf (pos n) = if leb n (length buf) then ok (drop n buf) else panic
slice_from buf (negsuc n) = panic

-- `buf[n:n+m]`, at ints that may be negative.
abbrev pub slice : List ℕ → ℤ → ℤ → Result (List ℕ)
slice buf (pos n) (pos m) = if leb (n + m) (length buf) then ok (take m (drop n buf)) else panic
slice buf (pos n) (negsuc m) = panic
slice buf (negsuc n) m = panic

-- `buf[:n]`
abbrev pub slice_to : List ℕ → ℕ → Result (List ℕ)
slice_to buf n = if leb n (length buf) then ok (take n buf) else panic

-- `buf[i] = b`
abbrev pub set_byte : List ℕ → ℕ → ℕ → Result (List ℕ)
set_byte [] i b = panic
set_byte (x ∷ xs) zero b = ok (b ∷ xs)
set_byte (x ∷ xs) (suc i) b = set_byte xs i b >>= λ ys. ok (x ∷ ys)

-- `copy(dst, src)`: what `dst` holds afterwards, and how many bytes were copied.
abbrev pub copy : List ℕ → List ℕ → List ℕ
copy dst src = take (length dst) src ++ drop (length src) dst

abbrev pub copied : List ℕ → List ℕ → ℕ
copied dst src = min (length dst) (length src)

-- `buf[i]`, at an int that may be negative.
abbrev pub index_ℤ : List ℕ → ℤ → Result ℕ
index_ℤ buf (pos i) = index buf i
index_ℤ buf (negsuc i) = panic

-- A function that fills a buffer from its start and returns a count.
abbrev pub Writer : Type 0
Writer = List ℕ → Result (List ℕ × ℕ)

-- `copy(buf, src)` as a writer: the count is what was copied.
unfoldable pub copy_in : List ℕ → Writer
copy_in src buf = ok (copy buf src, copied buf src)

-- A function that returns no count, with the count `n` that its caller adds for it.
abbrev pub counted : (List ℕ → Result (List ℕ)) → ℕ → Writer
counted put n buf = put buf >>= λ buf'. ok (buf', n)

-- `f(buf[n:])`
unfoldable pub within : ℕ → Writer → Writer
within n f buf =
    if leb n (length buf) then (f (drop n buf) >>= λ (sub, m). ok (take n buf ++ sub, m)) else panic

-- `n += f(buf[n:])`
unfoldable pub emit : Writer → List ℕ × ℕ → Result (List ℕ × ℕ)
unfolding within
emit f (buf, n) = within n f buf >>= λ (buf', m). ok (buf', n + m)

-- `buf[n] = b; n++`
unfoldable pub put_byte : ℕ → Writer
put_byte b [] = panic
put_byte b (x ∷ xs) = ok (b ∷ xs, 1)

-- `binary.BigEndian.PutUint16(buf, v)` and its wider forms.
unfoldable pub put_uint16 : ℕ → List ℕ → Result (List ℕ)
put_uint16 v buf =
    if ltb (length buf) 2 then panic else ok ((v / 2 ^ 8 % 256) ∷ (v % 256) ∷ drop 2 buf)

unfoldable pub put_uint32 : ℕ → List ℕ → Result (List ℕ)
put_uint32 v buf =
    if ltb (length buf) 4
    then panic
    else ok ((v / 2 ^ 24 % 256) ∷ (v / 2 ^ 16 % 256) ∷ (v / 2 ^ 8 % 256) ∷ (v % 256) ∷ drop 4 buf)

unfoldable pub put_uint64 : ℕ → List ℕ → Result (List ℕ)
put_uint64 v buf =
    if ltb (length buf) 8
    then panic
    else ok (
        (v / 2 ^ 56 % 256)
        ∷ (v / 2 ^ 48 % 256)
        ∷ (v / 2 ^ 40 % 256)
        ∷ (v / 2 ^ 32 % 256)
        ∷ (v / 2 ^ 24 % 256)
        ∷ (v / 2 ^ 16 % 256)
        ∷ (v / 2 ^ 8 % 256)
        ∷ (v % 256)
        ∷ drop 8 buf)

-- `binary.BigEndian.Uint16(buf)` and its wider forms: they panic on a shorter slice.
unfoldable pub get_uint16 : List ℕ → Result ℕ
get_uint16 (a ∷ b ∷ rest) = ok (a * 2 ^ 8 + b)
get_uint16 _ = panic

unfoldable pub get_uint32 : List ℕ → Result ℕ
get_uint32 (a ∷ b ∷ c ∷ d ∷ rest) = ok (a * 2 ^ 24 + b * 2 ^ 16 + c * 2 ^ 8 + d)
get_uint32 _ = panic

unfoldable pub get_uint64 : List ℕ → Result ℕ
get_uint64 (a ∷ b ∷ c ∷ d ∷ e ∷ f ∷ g ∷ h ∷ rest) =
    ok (a * 2 ^ 56 + b * 2 ^ 48 + c * 2 ^ 40 + d * 2 ^ 32 + e * 2 ^ 24 + f * 2 ^ 16 + g * 2 ^ 8 + h)
get_uint64 _ = panic

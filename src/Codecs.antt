-- ===== src/Codecs.antt =====
-- The compression tags: tag_lzw.go with its `readAll`, and tag_gzip.go. The packages compress/lzw
-- and compress/gzip are parameters: what a writer makes of its input, where `none` is an error, and
-- what the calls of a reader's `Read` return.
pub mod ReadAll
pub mod Laws
pub mod Cut
use gofast.Base.{
  ℕ, zero, suc, ◌+◌, ◌-◌, List, [], ◌∷◌, ◌++◌, Option, none, some, Result, ok, panic, stuck, ◌>>=◌,
  length, take, drop,
}
use gofast.Bytes.{copy, copied}
use gofast.Bytes.Written.{overwrite}
use gofast.Types.{TagFn}

-- The error of a `Read`: `io.EOF`, or another.
pub data ReadError : Type 0 where
  eof broken : ReadError

-- An `io.Reader`: the bytes and the error of its k-th call, on a slice with that much room. It is
-- documented to return no more bytes than there is room for.
abbrev pub Reader : Type 0
Reader = ℕ → ℕ → List ℕ × Option ReadError

-- `readAll(r, out)`: the loop from the k-th call on, with `n` bytes read. A reader that never
-- returns an error makes it run for ever, so it takes fuel.
unfoldable pub read_all : ℕ → Reader → ℕ → List ℕ → ℕ → Result (List ℕ × ℕ × Option ReadError)
read_all zero read k out n = stuck
read_all (suc fuel) read k out n =
    let (c, err) = read k (length out - n) in
    let out' = take n out ++ copy (drop n out) c in
    let n' = n + length c in
    elim err [
      | none ↦ read_all fuel read (suc k) out' n'
      | some eof ↦ ok (out', n', none)
      | some broken ↦ ok (out', n', some broken)
    ]

module _ (compress : List ℕ → Option (List ℕ)) where
  -- `enc` of `makeLZW`: what does not fit into `out` is lost.
  unfoldable pub lzw_enc : TagFn
  lzw_enc [] out = ok (out, 0)
  lzw_enc (b ∷ bs) out = elim (compress (b ∷ bs)) [
    | none ↦ panic
    | some packed ↦ ok (copy out packed, copied out packed)
  ]

module _ (fuel : ℕ) (reader : List ℕ → Reader) where
  -- `dec` of `makeLZW`
  unfoldable pub lzw_dec : TagFn
  unfolding read_all
  lzw_dec [] out = ok (out, 0)
  lzw_dec (b ∷ bs) out = do
    (out, n, err) ← read_all fuel (reader (b ∷ bs)) 0 out 0
    elim err [ none ↦ ok (out, n) | some e ↦ panic ]

-- `spill` is what `out` holds where a buffer that starts on it outgrows it.
module _ (compress : List ℕ → Option (List ℕ)) (spill : List ℕ → List ℕ → List ℕ) where
  -- `bytes.NewBuffer(out[:0])` with the bytes written to it.
  abbrev pub buffered : List ℕ → List ℕ → List ℕ
  buffered out packed = elim (length packed - length out) [
    | zero ↦ overwrite packed out
    | suc k ↦ spill out packed
  ]

  -- `enc` of `makeGzip`: the count is that of the bytes written, whether they fit or not.
  unfoldable pub gzip_enc : TagFn
  gzip_enc [] out = ok (out, 0)
  gzip_enc (b ∷ bs) out = elim (compress (b ∷ bs)) [
    | none ↦ panic
    | some packed ↦ ok (buffered out packed, length packed)
  ]

-- A reader, unless `gzip.NewReader` returns an error.
module _ (reader : List ℕ → Option Reader) where
  -- `dec` of `makeGzip`: one call of `Read`.
  unfoldable pub gzip_dec : TagFn
  gzip_dec [] out = ok (out, 0)
  gzip_dec (b ∷ bs) out = elim (reader (b ∷ bs)) [
    | none ↦ panic
    | some read ↦
        (let (c, err) = read 0 (length out) in
          elim err [ some e ↦ panic | none ↦ ok (copy out c, length c) ])
  ]

-- ===== src/Tests/Codecs.antt =====
-- A compression that puts one byte in front, for the tags that compress.
use gofast.Base.{
  ℕ, ◌≡◌, refl, List, [], ◌∷◌, Option, none, some, stuck, ◌+◌, length, drop, replicate, arith,
}
use gofast.Codecs.Laws.{IsLzw, lzw_codec, lzw_codec-IsCodec}
use gofast.Codecs.ReadAll.{last, read_all_hang}
use gofast.Codecs.{ReadError, eof, Reader, read_all}
use gofast.Tx.Packet.{IsCodec}

abbrev one_more : List ℕ → List ℕ
one_more bs = 1 ∷ bs

abbrev compressing : List ℕ → Option (List ℕ)
compressing bs = some (1 ∷ bs)

-- Its reader returns all at once: with the end of the input, or with the end left for later.
abbrev at_once : Option ReadError → List ℕ → Reader
at_once err [] k room = ([], some eof)
at_once err (b ∷ bs) k room = (bs, err)

one_more-IsLzw : IsLzw compressing (at_once (some eof)) one_more (λ packed. 1)
one_more-IsLzw = record {
  compresses = λ bs h. refl;
  pack_some = λ bs h. omega arith;
  yields = λ bs room h fits. last refl fits;
}

lzw_codec-IsCodec_example :
    IsCodec (lzw_codec compressing (at_once (some eof)) one_more (λ packed. length packed + 3))
lzw_codec-IsCodec_example =
    lzw_codec-IsCodec compressing (at_once (some eof)) one_more (λ packed. 1)
      (λ packed. length packed + 3) (λ packed. omega arith) one_more-IsLzw

-- As many bytes as there is room for, with no end.
abbrev endless : Reader
endless k room = (replicate room 7, none)

read_all_hang_example : read_all 1000 endless 0 (0 ∷ 0 ∷ []) 0 ≡ stuck
read_all_hang_example = read_all_hang 1000 endless (0 ∷ 0 ∷ []) (7 ∷ 7 ∷ []) refl refl (λ j. refl)

-- A reader that returns one byte a call.
abbrev one_byte : List ℕ → Reader
one_byte bs k room = elim (drop k bs) [ [] ↦ ([], some eof) | b ∷ rest ↦ (b ∷ [], none) ]

abbrev opened : List ℕ → Option Reader
opened packed = some (one_byte (drop 1 packed))

abbrev no_spill : List ℕ → List ℕ → List ℕ
no_spill out packed = out

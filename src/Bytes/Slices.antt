-- ===== src/Bytes/Slices.antt =====
-- Slicing and indexing at a place that is known as the length of what stands before it.
use gofast.Base.{
  ℕ, ◌+◌, ◌≡◌, refl, List, [], ◌∷◌, ◌++◌, append_assoc, ok, pos, le→leb, length, length-append,
  drop-append_length, take-append_length, arith,
}
use gofast.Bytes.{index, slice, slice_from}

pub slice_from-append :
    (front rest : List ℕ) → slice_from (front ++ rest) (pos (length front)) ≡ ok rest
slice_from-append front rest = rw (
  le→leb (length front) (length (front ++ rest)) (omega (arith, length-append front rest)),
  drop-append_length front rest,
)

pub index-append :
    (front : List ℕ) (b : ℕ) (rest : List ℕ) → index (front ++ b ∷ rest) (length front) ≡ ok b
unfolding index
index-append [] b rest = refl
index-append (x ∷ front) b rest = index-append front b rest

-- The middle of three parts.
pub slice-middle :
    (front middle rest : List ℕ)
    → slice (front ++ (middle ++ rest)) (pos (length front)) (pos (length middle)) ≡ ok middle
slice-middle front middle rest = rw (
  le→leb (length front + length middle) (length (front ++ (middle ++ rest)))
      (omega (arith, length-append front (middle ++ rest), length-append middle rest)),
  drop-append_length front (middle ++ rest),
  take-append_length middle rest,
)

-- The contents of a string behind its head, where the head stands behind `front`.
pub slice-string :
    (front head bs rest : List ℕ)
    → slice (front ++ ((head ++ bs) ++ rest)) (pos (length front + length head)) (pos (length bs))
      ≡ ok bs
slice-string front head bs rest =
    rw
      (
        append_assoc head bs rest,
        ← append_assoc front head (bs ++ rest),
        ← length-append front head,
      )
      (slice-middle (front ++ head) bs rest)

pub slice_from-second :
    (front second rest : List ℕ)
    → slice_from (front ++ (second ++ rest)) (pos (length front + length second)) ≡ ok rest
slice_from-second front second rest =
    rw (← append_assoc front second rest, ← length-append front second)
      (slice_from-append (front ++ second) rest)

pub slice-string_second :
    (front second head bs rest : List ℕ)
    → slice
        (front ++ (second ++ ((head ++ bs) ++ rest)))
        (pos (length front + length second + length head))
        (pos (length bs))
      ≡ ok bs
slice-string_second front second head bs rest =
    rw (← append_assoc front second ((head ++ bs) ++ rest), ← length-append front second)
      (slice-string (front ++ second) head bs rest)

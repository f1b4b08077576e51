-- ===== src/Tags/Trimmed.antt =====
-- How the two ways to read a list of tags differ.
use gofast.Base.{
  ℕ, ◌≡◌, refl, sym, ap, ◌∙◌, append_assoc, append-nil, if◌then◌else◌, List, [], ◌∷◌, ◌++◌, inl,
  inr, Bool-cases, map,
}
use gofast.Tags.{split, trim, is_empty, keep_tags, get_tags, keep_strings, csv2strings}

map-append_trim : (xs ys : List (List ℕ)) → map trim (xs ++ ys) ≡ map trim xs ++ map trim ys
map-append_trim [] ys = refl
map-append_trim (x ∷ xs) ys = ap (λ (l : List (List ℕ)). trim x ∷ l) (map-append_trim xs ys)

keep_tags-strings :
    (pieces tags : List (List ℕ))
    → map trim (keep_tags pieces tags) ≡ keep_strings pieces (map trim tags)
keep_tags-strings [] tags = refl
keep_tags-strings (p ∷ pieces) tags = elim (Bool-cases (is_empty (trim p))) [
  | inl e ↦ rw e (keep_tags-strings pieces tags)
  | inr e ↦ rw e (
      keep_tags-strings pieces (tags ++ p ∷ [])
      ∙ ap (keep_strings pieces) (map-append_trim tags (p ∷ [])))
]

-- The pieces in which something is left behind the trimming, as they stand.
abbrev pub full_pieces : List (List ℕ) → List (List ℕ)
full_pieces [] = []
full_pieces (p ∷ pieces) =
    let rest = full_pieces pieces in if is_empty (trim p) then rest else p ∷ rest

keep_tags-pieces :
    (pieces tags : List (List ℕ)) → keep_tags pieces tags ≡ tags ++ full_pieces pieces
keep_tags-pieces [] tags = sym (append-nil tags)
keep_tags-pieces (p ∷ pieces) tags = elim (Bool-cases (is_empty (trim p))) [
  | inl e ↦ rw e (keep_tags-pieces pieces tags)
  | inr e ↦
      rw e
        (keep_tags-pieces pieces (tags ++ p ∷ []) ∙ append_assoc tags (p ∷ []) (full_pieces pieces))
]

-- On every line, and whatever there is at first, `getTags` finds as many tags as `csv2strings` and
-- in the same order, but leaves the blanks around them: behind those that there are it appends the
-- pieces between the commas that are not blank, as they stand, and trimmed the tags are those of
-- `csv2strings`.
pub get_tags-csv2strings :
    (line : List ℕ) (tags : List (List ℕ))
    → (get_tags line tags ≡ tags ++ full_pieces (split 44 line))
      × (map trim (get_tags line tags) ≡ csv2strings line (map trim tags))
unfolding get_tags csv2strings
get_tags-csv2strings line tags =
    (keep_tags-pieces (split 44 line) tags, keep_tags-strings (split 44 line) tags)

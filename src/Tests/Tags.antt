-- ===== src/Tests/Tags.antt =====
-- A list of tags with a blank in it.
use gofast.Base.{◌≡◌, refl, [], ◌∷◌, map, codes}
use gofast.Tags.{split, trim, trim_left, get_tags, csv2strings}
use gofast.Tags.Trimmed.{full_pieces, get_tags-csv2strings}

get_tags-csv2strings_example :
    (get_tags (codes "gzip, lzw") [] ≡ full_pieces (split 44 (codes "gzip, lzw")))
    × (map trim (get_tags (codes "gzip, lzw") []) ≡ csv2strings (codes "gzip, lzw") [])
get_tags-csv2strings_example = get_tags-csv2strings (codes "gzip, lzw") []

-- The blank stays with the second tag.
get_tags_blank : get_tags (codes "gzip, lzw") [] ≡ codes "gzip" ∷ codes " lzw" ∷ []
unfolding get_tags split trim trim_left
get_tags_blank = refl

csv2strings_blank : csv2strings (codes "gzip, lzw") [] ≡ codes "gzip" ∷ codes "lzw" ∷ []
unfolding csv2strings split trim trim_left
csv2strings_blank = refl

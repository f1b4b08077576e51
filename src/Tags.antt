-- ===== src/Tags.antt =====
-- The list of tags of a transport: getTags of transport.go, and csv2strings and hasString of util.go.
pub mod Trimmed
use gofast.Base.{ℕ, Bool, true, false, ◌||◌, List, [], ◌∷◌, ◌++◌, ◌==◌, if◌then◌else◌, text_eq}
use mathlib.Core.List.{reverse}

-- `strings.Split(s, sep)` for one byte.
abbrev pub prepend : ℕ → List (List ℕ) → List (List ℕ)
prepend c [] = (c ∷ []) ∷ []
prepend c (piece ∷ pieces) = (c ∷ piece) ∷ pieces

unfoldable pub split : ℕ → List ℕ → List (List ℕ)
split sep [] = [] ∷ []
split sep (c ∷ s) = let pieces = split sep s in if c == sep then [] ∷ pieces else prepend c pieces

-- A blank, a newline, a tab or a carriage return.
abbrev pub is_blank : ℕ → Bool
is_blank c = c == 32 || (c == 10 || (c == 9 || c == 13))

unfoldable pub trim_left : List ℕ → List ℕ
trim_left [] = []
trim_left (c ∷ s) = let rest = trim_left s in if is_blank c then rest else c ∷ s

-- `strings.Trim(s, " \n\t\r")`
unfoldable pub trim : List ℕ → List ℕ
unfolding trim_left
trim s = reverse (trim_left (reverse (trim_left s)))

abbrev pub is_empty : List ℕ → Bool
is_empty [] = true
is_empty (c ∷ s) = false

abbrev pub keep_tags : List (List ℕ) → List (List ℕ) → List (List ℕ)
keep_tags [] tags = tags
keep_tags (tag ∷ pieces) tags =
    keep_tags pieces (if is_empty (trim tag) then tags else tags ++ tag ∷ [])

-- The tag is tested trimmed, and appended as it is.
unfoldable pub get_tags : List ℕ → List (List ℕ) → List (List ℕ)
unfolding split
get_tags line tags = keep_tags (split 44 line) tags

abbrev pub keep_strings : List (List ℕ) → List (List ℕ) → List (List ℕ)
keep_strings [] out = out
keep_strings (str ∷ pieces) out =
    keep_strings pieces (if is_empty (trim str) then out else out ++ trim str ∷ [])

unfoldable pub csv2strings : List ℕ → List (List ℕ) → List (List ℕ)
unfolding split
csv2strings line out = keep_strings (split 44 line) out

unfoldable pub has_string : List ℕ → List (List ℕ) → Bool
has_string str [] = false
has_string str (s ∷ strs) = if text_eq s str then true else has_string str strs

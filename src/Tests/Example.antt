-- ===== src/Tests/Example.antt =====
-- A message of the example programs.
use gofast.Base.{◌≡◌, refl, [], ◌∷◌, ok, arith}
use gofast.Example.Lost.{key_value_bytes, key_value_encode-decode}
use gofast.Example.{KeyValue, key_value_encode, key_value_decode}

abbrev pair : KeyValue
pair = record { key = 1 ∷ 2 ∷ []; value = 3 ∷ 4 ∷ [] }

abbrev blank : KeyValue
blank = record { key = []; value = [] }

key_value_encode-decode_example :
    (key_value_encode pair [] ≡ ok (key_value_bytes pair))
    × (key_value_decode blank (key_value_bytes pair)
        ≡ ok (record { key = 1 ∷ 2 ∷ []; value = [] }, 18))
key_value_encode-decode_example = key_value_encode-decode pair blank refl (omega arith)

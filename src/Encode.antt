-- ===== src/Encode.antt =====
-- src/grilio_encode.c: writing the payload of a packet. A GByteArray* is an optional list of bytes,
-- `none` for NULL; the first write allocates.
pub mod Text
use libgrilio.Base.{ℕ, zero, suc, ◌+◌, ◌%◌, Option, none, some, List, [], ◌∷◌, ◌++◌}
use libgrilio.Wire.{bytes_of_word}

abbrev pub bytes_in : Option (List ℕ) → List ℕ
bytes_in none = []
bytes_in (some b) = b

unfoldable pub encode_byte : Option (List ℕ) → ℕ → Option (List ℕ)
encode_byte dest value = some (bytes_in dest ++ (value ∷ []))

-- Nothing is done for no bytes: NULL stays NULL.
unfoldable pub encode_bytes : Option (List ℕ) → List ℕ → Option (List ℕ)
encode_bytes dest [] = dest
encode_bytes dest (b ∷ body) = some (bytes_in dest ++ (b ∷ body))

unfoldable pub encode_int32 : Option (List ℕ) → ℕ → Option (List ℕ)
encode_int32 dest value = some (bytes_in dest ++ bytes_of_word value)

abbrev pub words : List ℕ → List ℕ
words [] = []
words (v ∷ values) = bytes_of_word v ++ words values

-- `grilio_encode_uint32_values`; `grilio_encode_int32_values` is a cast away.
unfoldable pub encode_uint32_values : Option (List ℕ) → List ℕ → Option (List ℕ)
encode_uint32_values dest [] = dest
encode_uint32_values dest (v ∷ values) = some (bytes_in dest ++ words (v ∷ values))

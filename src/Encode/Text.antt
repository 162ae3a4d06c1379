-- ===== src/Encode/Text.antt =====
-- src/grilio_encode.c, grilio_encode_utf8 and grilio_encode_utf8_chars: a string goes out as its
-- length in UTF-16 units, the units, a 0 unit and zeros up to a multiple of four.
-- GLib's conversions and G_ALIGN4 of libglibutil are parameters.
use libgrilio.Base.{
  ℕ, ◌+◌, ◌-◌, ◌*◌, ◌/◌, ◌%◌, Option, none, some, List, [], ◌∷◌, ◌++◌, leb, ◌==◌, if◌then◌else◌,
  length, take, replicate,
}
use libgrilio.Wire.{bytes_of_word}

-- The bytes of UTF-16 units in memory.
abbrev pub unit_bytes : List ℕ → List ℕ
unit_bytes [] = []
unit_bytes (u ∷ us) = u % 256 ∷ u / 256 % 256 ∷ unit_bytes us

-- What the code takes from libraries: `g_utf8_validate` as the length of the valid prefix,
-- `g_utf8_strlen`, `g_utf8_to_utf16` on a valid string, and G_ALIGN4.
pub record Glib : Type 0 where
  pub valid_prefix : List ℕ → ℕ
  pub utf8_strlen : List ℕ → ℕ
  pub utf8_to_utf16 : List ℕ → List ℕ
  pub align4 : ℕ → ℕ

-- What is written after the old contents.
abbrev pub string_bytes : Glib → List ℕ → List ℕ
string_bytes g units =
    let end = (length units + 1) * 2 in
    bytes_of_word (length units) ++ (unit_bytes units ++ (0 ∷ 0 ∷ replicate (g.align4 end - end) 0))

-- The array is sized for the number of characters, and the units are copied into it before it is sized
-- for their own number: the copy has to fit. `none` is a write past the end of the array.
unfoldable pub encode_valid : Glib → List ℕ → List ℕ → Option (List ℕ)
encode_valid g old text =
    let units = g.utf8_to_utf16 text in
    if leb ((length units + 1) * 2) (g.align4 ((g.utf8_strlen text + 1) * 2))
    then some (old ++ string_bytes g units)
    else none

abbrev pub old_bytes : Option (List ℕ) → List ℕ
old_bytes none = []
old_bytes (some b) = b

-- By the valid prefix: the empty string has a form of its own.
abbrev pub encode_prefix : Glib → List ℕ → List ℕ → Option (List ℕ)
encode_prefix g old [] = some (old ++ (0 ∷ 0 ∷ 0 ∷ 0 ∷ 0 ∷ 0 ∷ 255 ∷ 255 ∷ []))
encode_prefix g old (b ∷ text) = encode_valid g old (b ∷ text)

-- `grilio_encode_utf8_chars`; the second argument is the text up to `num_bytes`, or NULL, which is
-- written as the length -1.
unfoldable pub encode_utf8_chars : Glib → Option (List ℕ) → Option (List ℕ) → Option (List ℕ)
encode_utf8_chars g dest none = some (old_bytes dest ++ bytes_of_word 0xffff_ffff)
encode_utf8_chars g dest (some utf8) =
    encode_prefix g (old_bytes dest) (take (g.valid_prefix utf8) utf8)

-- The bytes in front of the first 0: what strlen counts.
abbrev pub c_string : List ℕ → List ℕ
c_string [] = []
c_string (b ∷ l) = if b == 0 then [] else b ∷ c_string l

abbrev pub c_string? : Option (List ℕ) → Option (List ℕ)
c_string? none = none
c_string? (some l) = some (c_string l)

-- `grilio_encode_utf8`
unfoldable pub encode_utf8 : Glib → Option (List ℕ) → Option (List ℕ) → Option (List ℕ)
encode_utf8 g dest utf8 = encode_utf8_chars g dest (c_string? utf8)

-- `grilio_encode_format_va`, of the text that g_strdup_vprintf makes.
unfoldable pub encode_format : Glib → Option (List ℕ) → List ℕ → Option (List ℕ)
unfolding encode_utf8
encode_format g dest text = encode_utf8 g dest (some text)

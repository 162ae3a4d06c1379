-- ===== src/Payload/Text.antt =====
-- Strings: grilio_encode_utf8_chars and grilio_parser_get_nullable_utf8.
use libgrilio.Base.{
  ℕ, ◌+◌, ◌-◌, ◌*◌, ◌%◌, ◌^◌, ◌≤◌, ◌<◌, ◌≡◌, refl, ◌∙◌, Option, none, some, List, [], ◌∷◌, ◌++◌,
  arith, le→leb, length, take, replicate, All, length-append, length-replicate,
}
use libgrilio.Wire.{bytes_of_word}
use libgrilio.Encode.Text.{
  Glib, unit_bytes, string_bytes, encode_valid, encode_utf8_chars, old_bytes,
}
use libgrilio.Parser.{Parser}
use libgrilio.Parser.Text.{padded_len, units_at, string_of_length, get_nullable_utf8}
use libgrilio.Parser.Text.Skip.{IsAlign4}
use libgrilio.Payload.{Holds, Holds-left, Holds-right}
use libgrilio.Payload.Words.{load32-Holds}

units_at-unit_bytes :
    (mem : ℕ → ℕ) (us : List ℕ) (a : ℕ)
    → All (λ u. u < 65536) us
    → Holds mem a (unit_bytes us)
    → units_at mem a (length us) ≡ us
units_at-unit_bytes mem [] a small h = refl
units_at-unit_bytes mem (u ∷ us) a small h =
    let same : a + 2 ≡ a + 1 + 1 = omega arith in
    let first : mem a + 256 * mem (a + 1) ≡ u = omega (arith, h.0, h.1.0, small.0) in
    let rest : units_at mem (a + 2) (length us) ≡ us =
      rw same (units_at-unit_bytes mem us (a + 1 + 1) small.1 h.1.1) in
    cc (first, rest)

pub length-unit_bytes : (us : List ℕ) → length (unit_bytes us) ≡ 2 * length us
length-unit_bytes [] = refl
length-unit_bytes (u ∷ us) = omega (arith, length-unit_bytes us)

module _ (g : Glib) (a : IsAlign4 g.align4) where
  length-string_bytes :
      (units : List ℕ) → length (string_bytes g units) ≡ g.align4 ((length units + 1) * 2) + 4
  length-string_bytes units =
      let end = (length units + 1) * 2 in
      let nought : ℕ = 0 in
      let zeros : List ℕ = replicate (g.align4 end - end) nought in
      omega (
        arith,
        length-append (unit_bytes units) (0 ∷ 0 ∷ zeros),
        length-replicate (g.align4 end - end) nought,
        length-unit_bytes units,
        a.above end,
      )

  padded_len-short : (n : ℕ) → n < 2 ^ 30 → padded_len g.align4 n ≡ g.align4 ((n + 1) * 2)
  padded_len-short n h =
      let e : (n + 1) * 2 % 2 ^ 32 ≡ (n + 1) * 2 = omega arith in
      rw e (omega (arith, a.below ((n + 1) * 2)))

  string_of_length-short :
      (utf16_to_utf8 : List ℕ → Option (List ℕ)) (mem : ℕ → ℕ) (p : Parser) (n size : ℕ)
      → n < 2 ^ 30
      → size ≡ g.align4 ((n + 1) * 2) + 4
      → p.ptr + size ≤ p.end
      → string_of_length g.align4 utf16_to_utf8 mem p n
        ≡ (some (utf16_to_utf8 (units_at mem (p.ptr + 4) n)), record p { ptr = p.ptr + size })
  unfolding string_of_length
  string_of_length-short conv mem p n size short whole room =
      ground (arith, padded_len-short n short, a.below ((n + 1) * 2))

  -- A string of units that stands in the packet is read, and the parser stands behind its zeros.
  pub get_nullable_utf8-string_bytes :
      (utf16_to_utf8 : List ℕ → Option (List ℕ)) (mem : ℕ → ℕ) (units : List ℕ) (p : Parser)
      → All (λ u. u < 65536) units
      → length units < 2 ^ 30
      → Holds mem p.ptr (string_bytes g units)
      → p.ptr + length (string_bytes g units) ≤ p.end
      → get_nullable_utf8 g.align4 utf16_to_utf8 mem p
        ≡ (some (utf16_to_utf8 units), record p { ptr = p.ptr + length (string_bytes g units) })
  unfolding get_nullable_utf8
  get_nullable_utf8-string_bytes conv mem units p small short h room =
      let n = length units in
      let len =
        load32-Holds mem p.ptr n (omega arith) (Holds-left mem p.ptr (bytes_of_word n) _ h) in
      let body = units_at-unit_bytes mem units (p.ptr + 4) small (
        Holds-left mem (p.ptr + 4) (unit_bytes units) _
          (Holds-right mem p.ptr (bytes_of_word n) _ h)) in
      let size = length-string_bytes units in
      let read =
        string_of_length-short conv mem p n (length (string_bytes g units)) short size room in
      let inside : p.ptr + 4 ≤ p.end = omega (arith, size, room) in
      rw (len, le→leb _ _ inside) (read ∙ rw body)

-- What the conversions of GLib are relied on for, on one text.
pub record IsUtf16 (g : Glib) (conv : List ℕ → Option (List ℕ)) (text : List ℕ) : Type 0 where
  pub units : All (λ u. u < 65536) (g.utf8_to_utf16 text)
  pub back : conv (g.utf8_to_utf16 text) ≡ some text
  pub empty : conv [] ≡ some []

-- Two characters or more outside the basic plane need room for two units or more that the array does
-- not have yet: the copy of the units runs past its end.
pub encode_utf8_chars_overrun :
    (g : Glib) (dest : Option (List ℕ)) (utf8 : List ℕ) (b : ℕ) (text : List ℕ)
    → IsAlign4 g.align4
    → take (g.valid_prefix utf8) utf8 ≡ b ∷ text
    → g.utf8_strlen (b ∷ text) + 2 ≤ length (g.utf8_to_utf16 (b ∷ text))
    → encode_utf8_chars g dest (some utf8) ≡ none
unfolding encode_utf8_chars encode_valid
encode_utf8_chars_overrun g dest utf8 b text a valid wide =
    rw valid (ground (arith, a.below ((g.utf8_strlen (b ∷ text) + 1) * 2)))

-- With no such character the copy fits, and the contents before it are kept.
pub encode_utf8_chars_fits :
    (g : Glib) (dest : Option (List ℕ)) (utf8 : List ℕ) (b : ℕ) (text : List ℕ)
    → IsAlign4 g.align4
    → take (g.valid_prefix utf8) utf8 ≡ b ∷ text
    → g.utf8_strlen (b ∷ text) ≡ length (g.utf8_to_utf16 (b ∷ text))
    → encode_utf8_chars g dest (some utf8)
      ≡ some (old_bytes dest ++ string_bytes g (g.utf8_to_utf16 (b ∷ text)))
unfolding encode_utf8_chars encode_valid
encode_utf8_chars_fits g dest utf8 b text a valid plain =
    rw (valid, plain) (ground (arith, a.above ((length (g.utf8_to_utf16 (b ∷ text)) + 1) * 2)))

-- A text that is not empty, has one UTF-16 unit for each character and fewer than 2 ^ 30 of them, the
-- valid start of what was to be written, is read back when it was written behind the old contents: the
-- parser that stands behind those finds the text and then stands at the end of the array.
pub get_nullable_utf8-encode_utf8_chars :
    (g : Glib) (conv : List ℕ → Option (List ℕ)) (mem : ℕ → ℕ) (start : ℕ) (dest : Option (List ℕ))
    (utf8 : List ℕ) (b : ℕ) (text out : List ℕ)
    → IsAlign4 g.align4
    → IsUtf16 g conv (b ∷ text)
    → take (g.valid_prefix utf8) utf8 ≡ b ∷ text
    → g.utf8_strlen (b ∷ text) ≡ length (g.utf8_to_utf16 (b ∷ text))
    → length (g.utf8_to_utf16 (b ∷ text)) < 2 ^ 30
    → encode_utf8_chars g dest (some utf8) ≡ some out
    → Holds mem start out
    → get_nullable_utf8 g.align4 conv mem
        (record { ptr = start + length (old_bytes dest); end = start + length out })
      ≡ (some (some (b ∷ text)), record { ptr = start + length out; end = start + length out })
get_nullable_utf8-encode_utf8_chars g conv mem start dest utf8 b text out a u valid plain short e
      h =
    let us = g.utf8_to_utf16 (b ∷ text) in
    let whole : old_bytes dest ++ string_bytes g us ≡ out =
      cc (encode_utf8_chars_fits g dest utf8 b text a valid plain, e) in
    let size : length out ≡ length (old_bytes dest) + length (string_bytes g us) =
      rw (← whole) (length-append (old_bytes dest) (string_bytes g us)) in
    let held : Holds mem (start + length (old_bytes dest)) (string_bytes g us) =
      Holds-right mem start (old_bytes dest) (string_bytes g us) (rw (← whole) at h) in
    let p : Parser = record { ptr = start + length (old_bytes dest); end = start + length out } in
    let ends : p.ptr + length (string_bytes g us) ≡ start + length out = omega (arith, size) in
    get_nullable_utf8-string_bytes g a conv mem us p u.units short held (omega (arith, ends))
    ∙ rw (u.back, ends)

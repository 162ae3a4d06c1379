-- ===== src/Examples/Payloads.antt =====
-- src/grilio_encode.c and src/grilio_parser.c, with conversions of texts that stand for GLib's.
use libgrilio.Base.{
  ℕ, zero, suc, map, ◌++◌, ◌+◌, ◌-◌, ◌*◌, ◌/◌, ◌%◌, ◌≤◌, ◌<◌, ◌≡◌, refl, inl, inr, true, false,
  Option, none, some, List, [], ◌∷◌, ltb, leb, if◌then◌else◌, ◌&&◌, arith, length, lt→ltb,
}
use libgrilio.Encode.{words, bytes_in, encode_int32}
use libgrilio.Payload.Bytes.{IsPayload}
use libgrilio.Request.Strings.{IsPlain, read_strings, array_utf8_new-read_strings}
use libgrilio.Request.Contents.{Filled, Filled-IsPayload}
use libgrilio.Request.{Request, sized_new}
use libgrilio.Request.Append.{
  append_each, append_int32, append_utf8, append_each_utf8, array_int32_new, array_utf8_new,
}
use libgrilio.Request.Arrays.{array_int32_new-get_uint32_array}
use libgrilio.Encode.Text.{Glib, encode_utf8, encode_utf8_chars, encode_valid}
use libgrilio.Parser.{Parser, load32, get_uint32, get_uint32_array}
use libgrilio.Parser.Text.{skip_string, get_nullable_utf8, padded_len}
use libgrilio.Parser.Text.Skip.{
  IsAlign4, HugeLength, is_some, skip_string-get_nullable_utf8, padded_len_room, skip_string_wraps,
}
use libgrilio.Parser.Text.Bounds.{Agree, get_nullable_utf8_bounds}
use libgrilio.Payload.{Holds}
use libgrilio.Payload.Words.{get_uint32_array-encode}
use libgrilio.Payload.Text.{IsUtf16, encode_utf8_chars_overrun, get_nullable_utf8-encode_utf8_chars}

abbrev align : ℕ → ℕ
align n = (n + 3) / 4 * 4

align-IsAlign4 : IsAlign4 align
align-IsAlign4 = record {
  above = λ n. omega arith;
  below = λ n. omega arith;
  aligned = λ n. omega arith;
}

-- The characters of a valid text: the bytes that are no continuation.
abbrev count : List ℕ → ℕ
count [] = 0
count (b ∷ l) = let rest = count l in if leb 128 b && ltb b 192 then rest else rest + 1

abbrev tail_bits : List ℕ → ℕ
tail_bits (b ∷ c ∷ d ∷ l) = (b - 128) * 4096 + (c - 128) * 64 + (d - 128)
tail_bits _ = 0

-- ASCII, and four bytes as a surrogate pair.
abbrev utf16 : List ℕ → List ℕ
utf16 [] = []
utf16 (b ∷ l) =
    let rest = utf16 l in
    let x = (b - 240) * 262144 + tail_bits l - 65536 in
    if ltb b 128
    then b ∷ rest
    else if leb 240 b
    then (55296 + x / 1024) ∷ (56320 + x % 1024) ∷ rest
    else rest

abbrev glib : Glib
glib = record { valid_prefix = length; utf8_strlen = count; utf8_to_utf16 = utf16; align4 = align }

-- The way back for ASCII.
abbrev utf8 : List ℕ → Option (List ℕ)
utf8 l = some l

-- "ab"
abbrev ab : List ℕ
ab = 97 ∷ 98 ∷ []

abbrev ab_bytes : List ℕ
ab_bytes = 2 ∷ 0 ∷ 0 ∷ 0 ∷ 97 ∷ 0 ∷ 98 ∷ 0 ∷ 0 ∷ 0 ∷ 0 ∷ 0 ∷ []

abbrev memory : List ℕ → ℕ → ℕ
memory [] a = 0
memory (b ∷ l) zero = b
memory (b ∷ l) (suc a) = memory l a

-- Two characters outside the basic plane.
abbrev smileys : List ℕ
smileys = 240 ∷ 159 ∷ 152 ∷ 128 ∷ 240 ∷ 159 ∷ 152 ∷ 129 ∷ []

encode_utf8_chars_overrun_example : encode_utf8_chars glib none (some smileys) ≡ none
encode_utf8_chars_overrun_example =
    encode_utf8_chars_overrun glib none smileys 240 (159 ∷ 152 ∷ 128 ∷ 240 ∷ 159 ∷ 152 ∷ 129 ∷ [])
      align-IsAlign4 refl (omega arith)

ab-IsUtf16 : IsUtf16 glib utf8 ab
ab-IsUtf16 = record { units = (omega arith, (omega arith, tt)); back = refl; empty = refl }

ab_encoded : encode_utf8_chars glib none (some ab) ≡ some ab_bytes
unfolding encode_utf8_chars encode_valid
ab_encoded = refl

ab_held : Holds (memory ab_bytes) 0 ab_bytes
ab_held = ground arith

get_nullable_utf8-encode_utf8_chars_example :
    get_nullable_utf8 align utf8 (memory ab_bytes) (record { ptr = 0; end = 12 })
    ≡ (some (some ab), record { ptr = 12; end = 12 })
get_nullable_utf8-encode_utf8_chars_example =
    get_nullable_utf8-encode_utf8_chars glib utf8 (memory ab_bytes) 0 none ab 97 (98 ∷ []) ab_bytes
      align-IsAlign4 ab-IsUtf16 refl refl (omega arith) ab_encoded ab_held

abbrev two_words : List ℕ
two_words = 1 ∷ 0 ∷ 0 ∷ 0 ∷ 44 ∷ 1 ∷ 0 ∷ 0 ∷ []

two_words_held : Holds (memory two_words) 0 (words (1 ∷ 300 ∷ []))
two_words_held = ground arith

abbrev whole : List ℕ → Parser
whole l = record { ptr = 0; end = length l }

get_uint32_array-encode_example :
    get_uint32_array (memory two_words) 2 (whole two_words)
    ≡ (some (1 ∷ 300 ∷ []), record { ptr = 8; end = 8 })
get_uint32_array-encode_example =
    get_uint32_array-encode (memory two_words) (1 ∷ 300 ∷ []) (whole two_words)
      (omega arith, (omega arith, tt)) two_words_held (omega arith)

skip_string-get_nullable_utf8_example :
    ((skip_string align (memory ab_bytes) (whole ab_bytes)).0
      ≡ is_some (get_nullable_utf8 align utf8 (memory ab_bytes) (whole ab_bytes)).0)
    × ((skip_string align (memory ab_bytes) (whole ab_bytes)).1
        ≡ (get_nullable_utf8 align utf8 (memory ab_bytes) (whole ab_bytes)).1)
skip_string-get_nullable_utf8_example =
    skip_string-get_nullable_utf8 align utf8 (memory ab_bytes) (whole ab_bytes)

padded_len_room_example :
    ((2 + 1) * 2 ≤ padded_len align 2)
    × (padded_len align 2 < (2 + 1) * 2 + 4)
    × (padded_len align 2 % 4 ≡ 0)
padded_len_room_example = padded_len_room align align-IsAlign4 2 (omega arith)

-- The length 0x7fffffff, and nothing behind it.
abbrev huge : List ℕ
huge = 255 ∷ 255 ∷ 255 ∷ 127 ∷ []

huge_length : HugeLength (load32 (memory huge) 0)
unfolding load32
huge_length = inr refl

skip_string_wraps_example :
    skip_string align (memory huge) (whole huge) ≡ (true, record { ptr = 4; end = 4 })
skip_string_wraps_example =
    skip_string_wraps align align-IsAlign4 (memory huge) (whole huge) huge_length (omega arith)

-- Behind the text, the second memory holds something else.
abbrev longer : ℕ → ℕ
longer a = if ltb a 12 then memory ab_bytes a else 77

ab-Agree : Agree (memory ab_bytes) longer 0 12
ab-Agree a lo hi = rw (lt→ltb a 12 hi)

ab_small : ¬ HugeLength (load32 (memory ab_bytes) 0)
unfolding load32
ab_small (inl e) = omega arith
ab_small (inr e) = omega arith

get_nullable_utf8_bounds_example :
    get_nullable_utf8 align utf8 (memory ab_bytes) (whole ab_bytes)
    ≡ get_nullable_utf8 align utf8 longer (whole ab_bytes)
get_nullable_utf8_bounds_example =
    get_nullable_utf8_bounds align align-IsAlign4 utf8 (memory ab_bytes) longer (whole ab_bytes)
      ab-Agree ab_small

-- An array request of the word 300.
array_int32_new_300 : (array_int32_new (300 ∷ [])).bytes ≡ some two_words
unfolding array_int32_new append_each append_int32 encode_int32 sized_new
array_int32_new_300 = refl

two_words_payload : Holds (memory two_words) 0 two_words
two_words_payload = ground arith

array_int32_new-get_uint32_array_example :
    get_uint32_array (memory two_words) 2 (whole two_words)
    ≡ (some (1 ∷ 300 ∷ []), record { ptr = 8; end = 8 })
array_int32_new-get_uint32_array_example =
    array_int32_new-get_uint32_array (memory two_words) 0 (300 ∷ []) two_words (omega arith, tt)
      (omega arith) array_int32_new_300 two_words_payload

-- A word and a text, in a request of their own.
abbrev word_and_text : Request
word_and_text = record (sized_new none) {
  bytes = some (7 ∷ 0 ∷ 0 ∷ 0 ∷ 2 ∷ 0 ∷ 0 ∷ 0 ∷ 97 ∷ 0 ∷ 98 ∷ 0 ∷ 0 ∷ 0 ∷ 0 ∷ 0 ∷ []);
}

word_and_text-Filled : Filled glib true word_and_text
unfolding append_utf8 append_int32 encode_int32 encode_utf8 encode_utf8_chars encode_valid sized_new
word_and_text-Filled = Filled.text (some ab) refl (Filled.word 7 (Filled.new false))

Filled-IsPayload_example : IsPayload true (bytes_in word_and_text.bytes)
Filled-IsPayload_example = Filled-IsPayload glib align-IsAlign4 word_and_text-Filled

-- An array request of two strings, "ab" and "ba".
abbrev two_texts : List (List ℕ)
two_texts = ab ∷ (98 ∷ 97 ∷ []) ∷ []

ab-IsPlain : IsPlain glib utf8 ab
ab-IsPlain = record {
  first = 97;
  others = 98 ∷ [];
  some_text = refl;
  whole = refl;
  valid = refl;
  plain = refl;
  short = omega arith;
  converts = ab-IsUtf16;
}

ba-IsPlain : IsPlain glib utf8 (98 ∷ 97 ∷ [])
ba-IsPlain = record {
  first = 98;
  others = 97 ∷ [];
  some_text = refl;
  whole = refl;
  valid = refl;
  plain = refl;
  short = omega arith;
  converts = record { units = (omega arith, (omega arith, tt)); back = refl; empty = refl };
}

abbrev two_texts_bytes : List ℕ
two_texts_bytes = 2 ∷ 0 ∷ 0 ∷ 0 ∷ ab_bytes ++ (2 ∷ 0 ∷ 0 ∷ 0 ∷ 98 ∷ 0 ∷ 97 ∷ 0 ∷ 0 ∷ 0 ∷ 0 ∷ 0 ∷ [])

abbrev two_texts_request : Request
two_texts_request = record (sized_new none) { bytes = some two_texts_bytes }

two_texts_made : array_utf8_new glib (map (λ t. some t) two_texts) ≡ some two_texts_request
unfolding array_utf8_new append_each_utf8 append_int32 append_utf8 encode_int32 encode_utf8
    encode_utf8_chars encode_valid sized_new
two_texts_made = refl

two_texts_held : Holds (memory two_texts_bytes) 0 two_texts_bytes
two_texts_held = ground arith

array_utf8_new-read_strings_example :
    (get_uint32 (memory two_texts_bytes) (record { ptr = 0; end = 28 })
      ≡ (some 2, record { ptr = 4; end = 28 }))
    × (read_strings align utf8 (memory two_texts_bytes) 2 (record { ptr = 4; end = 28 })
        ≡ (some two_texts, record { ptr = 28; end = 28 }))
array_utf8_new-read_strings_example =
    array_utf8_new-read_strings glib utf8 (memory two_texts_bytes) 0 two_texts two_texts_request
      two_texts_bytes align-IsAlign4 (ab-IsPlain, (ba-IsPlain, tt)) (omega arith) two_texts_made
      refl two_texts_held

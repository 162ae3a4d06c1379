-- ===== src/Parser/Text.antt =====
-- src/grilio_parser.c: strings. G_ALIGN4 of libglibutil and g_utf16_to_utf8 of GLib are parameters.
pub mod Skip
pub mod Bounds
use libgrilio.Base.{
  ℕ, zero, suc, ◌+◌, ◌*◌, ◌%◌, ◌^◌, Bool, true, false, Option, none, some, List, [], ◌∷◌, ltb, leb,
  ◌==◌, ◌&&◌, if◌then◌else◌,
}
use libgrilio.Parser.{Parser, load32}

-- The `count` UTF-16 units that stand at an address.
abbrev pub units_at : (ℕ → ℕ) → ℕ → ℕ → List ℕ
units_at mem a zero = []
units_at mem a (suc count) = (mem a + 256 * mem (a + 1)) ∷ units_at mem (a + 2) count

-- const guint32 padded_len = G_ALIGN4((len+1)*2); the int arithmetic is taken to wrap.
abbrev pub padded_len : (ℕ → ℕ) → ℕ → ℕ
padded_len align4 len = align4 ((len + 1) * 2 % 2 ^ 32) % 2 ^ 32

-- p->ptr += padded_len + 4;
abbrev pub pass : Parser → ℕ → Parser
pass p padded = record p { ptr = p.ptr + (padded + 4) % 2 ^ 32 }

-- The length as an int: -1 is a NULL string, and other negative ones are refused.
unfoldable pub skip_string : (ℕ → ℕ) → (ℕ → ℕ) → Parser → Bool × Parser
skip_string align4 mem p =
    let len = load32 mem p.ptr in
    let padded = padded_len align4 len in
    if leb (p.ptr + 4) p.end
    then (if len == 0xffff_ffff
        then (true, record p { ptr = p.ptr + 4 })
        else if ltb len (2 ^ 31) && leb (p.ptr + padded + 4) p.end
        then (true, pass p padded)
        else (false, p))
    else (false, p)

-- The string behind its length; `some none` is TRUE with a NULL string.
unfoldable pub string_of_length :
    (ℕ → ℕ) → (List ℕ → Option (List ℕ)) → (ℕ → ℕ) → Parser → ℕ → Option (Option (List ℕ)) × Parser
string_of_length align4 utf16_to_utf8 mem p len =
    let padded = padded_len align4 len in
    if len == 0xffff_ffff
    then (some none, record p { ptr = p.ptr + 4 })
    else if ltb len (2 ^ 31) && leb (p.ptr + padded + 4) p.end
    then (some (utf16_to_utf8 (units_at mem (p.ptr + 4) len)), pass p padded)
    else (none, p)

unfoldable pub get_nullable_utf8 :
    (ℕ → ℕ) → (List ℕ → Option (List ℕ)) → (ℕ → ℕ) → Parser → Option (Option (List ℕ)) × Parser
get_nullable_utf8 align4 utf16_to_utf8 mem p =
    if leb (p.ptr + 4) p.end
    then string_of_length align4 utf16_to_utf8 mem p (load32 mem p.ptr)
    else (none, p)

-- `grilio_parser_get_utf8`: NULL also where there is no string.
abbrev text_of : Option (Option (List ℕ)) → Option (List ℕ)
text_of none = none
text_of (some t) = t

unfoldable pub get_utf8 :
    (ℕ → ℕ) → (List ℕ → Option (List ℕ)) → (ℕ → ℕ) → Parser → Option (List ℕ) × Parser
get_utf8 align4 utf16_to_utf8 mem p =
    let (t, q) = get_nullable_utf8 align4 utf16_to_utf8 mem p in (text_of t, q)

-- `grilio_parser_split_utf8`; g_strsplit of GLib is a parameter.
abbrev split_text {ℓ} : {A : Type ℓ} → (List ℕ → A) → Option (List ℕ) → Option A
split_text split none = none
split_text split (some t) = some (split t)

unfoldable pub split_utf8 {ℓ} :
    {A : Type ℓ}
    → (List ℕ → A)
    → (ℕ → ℕ)
    → (List ℕ → Option (List ℕ))
    → (ℕ → ℕ)
    → Parser
    → Option A × Parser
split_utf8 split align4 utf16_to_utf8 mem p =
    let (t, q) = get_utf8 align4 utf16_to_utf8 mem p in (split_text split t, q)

-- ===== src/Payload/Bytes.antt =====
-- src/grilio_encode.c: what an encoder adds to an array of bytes.
use libgrilio.Base.{
  ℕ, zero, suc, ◌+◌, ◌-◌, ◌*◌, ◌%◌, ◌<◌, ◌≡◌, refl, subst, Bool, true, false, Option, none, some,
  List, [], ◌∷◌, ◌++◌, leb, if◌then◌else◌, length, replicate, take, All, arith, length-append,
  length-replicate,
}
use libgrilio.Wire.{bytes_of_word}
use libgrilio.Encode.{encode_uint32_values, words, bytes_in}
use libgrilio.Encode.Text.{
  Glib, unit_bytes, string_bytes, encode_valid, encode_prefix, encode_utf8_chars, old_bytes,
}
use libgrilio.Parser.Text.Skip.{IsAlign4}
use libgrilio.Payload.Text.{length-unit_bytes}

abbrev pub IsByte : ℕ → Type 0
IsByte v = v < 256

-- Bytes, and whole words of them where the flag says so.
abbrev pub IsPayload : Bool → List ℕ → Type 0
IsPayload b l = All IsByte l × (b ≡ true → length l % 4 ≡ 0)

All-append : (xs ys : List ℕ) → All IsByte xs → All IsByte ys → All IsByte (xs ++ ys)
All-append [] ys h k = k
All-append (x ∷ xs) ys h k = (h.0, All-append xs ys h.1 k)

pub append-IsPayload :
    (b : Bool) (xs ys : List ℕ) → IsPayload b xs → IsPayload true ys → IsPayload b (xs ++ ys)
append-IsPayload b xs ys h k = (
  All-append xs ys h.0 k.0,
  λ e. let m = h.1 e in let n = k.1 refl in omega (arith, length-append xs ys, m, n),
)

pub bytes_of_word-IsPayload : (v : ℕ) → IsPayload true (bytes_of_word v)
bytes_of_word-IsPayload v =
    ((omega arith, (omega arith, (omega arith, (omega arith, tt)))), λ e. refl)

words-IsPayload : (l : List ℕ) → IsPayload true (words l)
words-IsPayload [] = (tt, λ e. refl)
words-IsPayload (v ∷ l) =
    append-IsPayload true (bytes_of_word v) (words l) (bytes_of_word-IsPayload v)
      (words-IsPayload l)

unit_bytes-IsByte : (us : List ℕ) → All IsByte (unit_bytes us)
unit_bytes-IsByte [] = tt
unit_bytes-IsByte (u ∷ us) = (omega arith, (omega arith, unit_bytes-IsByte us))

zeros-IsByte : (n : ℕ) → All IsByte (replicate n 0)
zeros-IsByte zero = tt
zeros-IsByte (suc n) = (omega arith, zeros-IsByte n)

string_bytes-IsPayload :
    (g : Glib) → IsAlign4 g.align4 → (units : List ℕ) → IsPayload true (string_bytes g units)
string_bytes-IsPayload g a units =
    let end = (length units + 1) * 2 in
    let zeros : List ℕ = replicate (g.align4 end - end) 0 in
    let room = a.above end in
    let whole = a.aligned end in
    append-IsPayload true (bytes_of_word (length units)) (unit_bytes units ++ (0 ∷ 0 ∷ zeros))
      (bytes_of_word-IsPayload (length units))
      (
        All-append (unit_bytes units) (0 ∷ 0 ∷ zeros) (unit_bytes-IsByte units)
            (omega arith, (omega arith, zeros-IsByte (g.align4 end - end))),
        λ e. omega (
          arith,
          room,
          whole,
          length-append (unit_bytes units) (0 ∷ 0 ∷ zeros),
          length-unit_bytes units,
          length-replicate {A = ℕ} (g.align4 end - end) 0,
        ),
      )

old_bytes-IsPayload :
    (b : Bool) (o : Option (List ℕ)) → IsPayload b (bytes_in o) → IsPayload b (old_bytes o)
old_bytes-IsPayload b none h = h
old_bytes-IsPayload b (some l) h = h

encode_valid-IsPayload :
    (g : Glib) (b : Bool) (old valid out : List ℕ)
    → IsAlign4 g.align4
    → IsPayload b old
    → encode_valid g old valid ≡ some out
    → IsPayload b out
unfolding encode_valid
encode_valid-IsPayload g b old valid out a h e =
    fits-if (leb ((length units + 1) * 2) (g.align4 ((g.utf8_strlen valid + 1) * 2))) e
  where
    units : List ℕ
    units = g.utf8_to_utf16 valid

    fits-if :
        (c : Bool)
        → (if c then some (old ++ string_bytes g units) else none) ≡ some out
        → IsPayload b out
    fits-if true f =
        subst (λ l. IsPayload b l) (ground arith)
          (append-IsPayload b old (string_bytes g units) h (string_bytes-IsPayload g a units))
    fits-if false f = ground arith

encode_prefix-IsPayload :
    (g : Glib) (b : Bool) (old valid out : List ℕ)
    → IsAlign4 g.align4
    → IsPayload b old
    → encode_prefix g old valid ≡ some out
    → IsPayload b out
encode_prefix-IsPayload g b old [] out a h e =
    subst (λ l. IsPayload b l) (ground arith)
      (append-IsPayload b old (0 ∷ 0 ∷ 0 ∷ 0 ∷ 0 ∷ 0 ∷ 255 ∷ 255 ∷ []) h (ground arith, λ f. refl))
encode_prefix-IsPayload g b old (c ∷ valid) out a h e =
    encode_valid-IsPayload g b old (c ∷ valid) out a h e

pub encode_utf8_chars-IsPayload :
    (g : Glib) (b : Bool) (dest utf8 : Option (List ℕ)) (out : List ℕ)
    → IsAlign4 g.align4
    → IsPayload b (bytes_in dest)
    → encode_utf8_chars g dest utf8 ≡ some out
    → IsPayload b out
unfolding encode_utf8_chars
encode_utf8_chars-IsPayload g b dest none out a h e =
    subst (λ l. IsPayload b l) (ground arith)
      (append-IsPayload b (old_bytes dest) (bytes_of_word 0xffff_ffff)
        (old_bytes-IsPayload b dest h) (bytes_of_word-IsPayload 0xffff_ffff))
encode_utf8_chars-IsPayload g b dest (some utf8) out a h e =
    encode_prefix-IsPayload g b (old_bytes dest) (take (g.valid_prefix utf8) utf8) out a
      (old_bytes-IsPayload b dest h) e

pub byte_by_byte :
    (b : Bool) (old l : List ℕ) → IsPayload b old → All IsByte l → IsPayload false (old ++ l)
byte_by_byte b old l h k = (All-append old l h.0 k, λ e. ground arith)

pub encode_uint32_values-IsPayload :
    (b : Bool) (old : Option (List ℕ)) (l : List ℕ)
    → IsPayload b (bytes_in old)
    → IsPayload b (bytes_in (encode_uint32_values old l))
unfolding encode_uint32_values
encode_uint32_values-IsPayload b old [] h = h
encode_uint32_values-IsPayload b old (v ∷ l) h =
    append-IsPayload b (bytes_in old) (words (v ∷ l)) h (words-IsPayload (v ∷ l))

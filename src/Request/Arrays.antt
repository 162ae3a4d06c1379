-- ===== src/Request/Arrays.antt =====
-- src/grilio_request.c, grilio_request_array_int32_new, against the parser.
use libgrilio.Base.{
  ℕ, Bool, true, false, ◌+◌, ◌*◌, ◌%◌, ◌^◌, ◌<◌, ◌≡◌, refl, sym, ap, subst, ◌∙◌, none, some, List,
  [], ◌∷◌, ◌++◌, ◌==◌, if◌then◌else◌, length, All, arith, append_assoc, append-nil,
}
use libgrilio.Wire.{bytes_of_word}
use libgrilio.Encode.{encode_int32, words, bytes_in}
use libgrilio.Request.{Request, sized_new}
use libgrilio.Request.Append.{append_int32, append_each, array_int32_new}
use libgrilio.Parser.{get_uint32_array}
use libgrilio.Payload.{Holds}
use libgrilio.Payload.Words.{get_uint32_array-encode}

length-words : (values : List ℕ) → length (words values) ≡ 4 * length values
length-words [] = omega arith
length-words (v ∷ values) = omega (arith, length-words values)

append_each-words :
    (values old : List ℕ) (req : Request)
    → req.bytes ≡ some old
    → (append_each values req).bytes ≡ some (old ++ words values)
unfolding append_each append_int32 encode_int32
append_each-words [] old req e = e ∙ ap some (sym (append-nil old))
append_each-words (v ∷ values) old req e =
    append_each-words values (old ++ bytes_of_word v) (append_int32 v req)
      (ap (λ b. some (bytes_in b ++ bytes_of_word v)) e)
    ∙ ap some (append_assoc old (bytes_of_word v) (words values))

pub bytes_in_new : (b : Bool) → bytes_in (if b then none else some []) ≡ []
bytes_in_new true = refl
bytes_in_new false = refl

-- The payload of an array of words is the count and the words.
array_int32_new-words :
    (values : List ℕ) → (array_int32_new values).bytes ≡ some (words (length values ∷ values))
unfolding array_int32_new append_int32 encode_int32 sized_new
array_int32_new-words values = append_each-words values (bytes_of_word (length values)) _ (
    ap (λ l. some (l ++ bytes_of_word (length values)))
      (bytes_in_new (4 * (length values + 1) % 2 ^ 32 == 0)))

-- A parser over the payload of an array of fewer than 2 ^ 32 words reads the count, then as many
-- words, the ones that the array was made of, and then it stands at the end.
pub array_int32_new-get_uint32_array :
    (mem : ℕ → ℕ) (start : ℕ) (values payload : List ℕ)
    → All (λ v. v < 2 ^ 32) values
    → length values < 2 ^ 32
    → (array_int32_new values).bytes ≡ some payload
    → Holds mem start payload
    → get_uint32_array mem
        (length values + 1)
        (record { ptr = start; end = start + length payload })
      ≡ (
        some (length values ∷ values),
        record { ptr = start + length payload; end = start + length payload },
      )
array_int32_new-get_uint32_array mem start values payload small few made held =
    let same : words (length values ∷ values) ≡ payload = cc (array_int32_new-words values, made) in
    let size : length payload ≡ 4 * (length values + 1) =
      omega (arith, ap length same, length-words (length values ∷ values)) in
    let count : length values + 1 ≡ length (length values ∷ values) = omega arith in
    let end : start + length payload ≡ start + 4 * length (length values ∷ values) =
      omega (arith, size) in
    rw (count, end)
      (get_uint32_array-encode mem (length values ∷ values)
        (record { ptr = start; end = start + 4 * length (length values ∷ values) }) (few, small)
        (subst (λ l. Holds mem start l) (sym same) held) (omega arith))

-- ===== src/Request/Strings.antt =====
-- src/grilio_request.c, grilio_request_array_utf8_new, against the parser.
use libgrilio.Base.{
  ℕ, zero, suc, ◌+◌, ◌*◌, ◌%◌, ◌^◌, ◌≤◌, ◌<◌, ◌≡◌, refl, sym, ap, subst, ◌∙◌, Option, none, some,
  List, [], ◌∷◌, ◌++◌, ◌==◌, length, take, All, arith, append_assoc, append-nil, length-append, map,
  length-map,
}
use libgrilio.Wire.{bytes_of_word}
use libgrilio.Encode.{encode_int32, bytes_in}
use libgrilio.Encode.Text.{Glib, string_bytes, encode_utf8, encode_utf8_chars, old_bytes, c_string}
use libgrilio.Parser.{Parser, get_uint32}
use libgrilio.Parser.Text.{get_nullable_utf8}
use libgrilio.Parser.Text.Skip.{IsAlign4}
use libgrilio.Payload.{Holds, Holds-left, Holds-right}
use libgrilio.Payload.Words.{load32-Holds}
use libgrilio.Payload.Text.{IsUtf16, encode_utf8_chars_fits, get_nullable_utf8-string_bytes}
use libgrilio.Request.{Request, sized_new, data_of}
use libgrilio.Request.Arrays.{bytes_in_new}
use libgrilio.Request.Append.{
  append_int32, append_utf8, append_each_utf8, array_utf8_new, with_bytes, then_append, array_new,
}

-- A text that the library takes as it is: valid, with no 0, not empty, each character one unit, and
-- fewer than 2 ^ 30 units.
pub record IsPlain (g : Glib) (conv : List ℕ → Option (List ℕ)) (t : List ℕ) : Type 0 where
  pub first : ℕ
  pub others : List ℕ
  pub some_text : t ≡ first ∷ others
  pub whole : c_string t ≡ t
  pub valid : take (g.valid_prefix t) t ≡ t
  pub plain : g.utf8_strlen t ≡ length (g.utf8_to_utf16 t)
  pub short : length (g.utf8_to_utf16 t) < 2 ^ 30
  pub converts : IsUtf16 g conv t

-- The strings, one behind the other.
abbrev pub strings : Glib → List (List ℕ) → List ℕ
strings g [] = []
strings g (t ∷ texts) = string_bytes g (g.utf8_to_utf16 t) ++ strings g texts

old_bytes-bytes_in : (o : Option (List ℕ)) → old_bytes o ≡ bytes_in o
old_bytes-bytes_in none = refl
old_bytes-bytes_in (some l) = refl

append_utf8-plain :
    (g : Glib) (conv : List ℕ → Option (List ℕ)) (t old : List ℕ) (r : Request)
    → IsAlign4 g.align4
    → IsPlain g conv t
    → r.bytes ≡ some old
    → append_utf8 g (some t) r
      ≡ some (record r { bytes = some (old ++ string_bytes g (g.utf8_to_utf16 t)) })
unfolding append_utf8 encode_utf8
append_utf8-plain g conv t old r a k e =
    let fits =
      encode_utf8_chars_fits g r.bytes t k.first k.others a (k.valid ∙ k.some_text)
        (subst (λ x. g.utf8_strlen x ≡ length (g.utf8_to_utf16 x)) k.some_text k.plain) in
    ap (λ x. with_bytes r (encode_utf8_chars g r.bytes (some x))) k.whole
    ∙ ap (λ o. with_bytes r o) fits
    ∙ ap
        (λ x.
          some
            (record r { bytes = some (old_bytes r.bytes ++ string_bytes g (g.utf8_to_utf16 x)) }))
        (sym k.some_text)
    ∙ ap (λ o. some (record r { bytes = some (old_bytes o ++ string_bytes g (g.utf8_to_utf16 t)) }))
        e

append_each_utf8-strings :
    (g : Glib) (conv : List ℕ → Option (List ℕ)) (texts : List (List ℕ)) (old : List ℕ)
    (r : Request)
    → IsAlign4 g.align4
    → All (λ t. IsPlain g conv t) texts
    → r.bytes ≡ some old
    → append_each_utf8 g (map (λ t. some t) texts) r
      ≡ some (record r { bytes = some (old ++ strings g texts) })
unfolding append_each_utf8
append_each_utf8-strings g conv [] old r a k e =
    ap (λ b. some (record r { bytes = b })) (e ∙ ap (λ l. some l) (sym (append-nil old)))
append_each_utf8-strings g conv (t ∷ texts) old r a k e =
    let here = string_bytes g (g.utf8_to_utf16 t) in
    ap (λ o. then_append (λ d. append_each_utf8 g (map (λ x. some x) texts) d) o)
      (append_utf8-plain g conv t old r a k.0 e)
    ∙ append_each_utf8-strings g conv texts (old ++ here) (record r { bytes = some (old ++ here) })
        a k.1 refl
    ∙ ap (λ l. some (record r { bytes = some l })) (append_assoc old here (strings g texts))

-- Reading strings one after the other.
abbrev prepend : List ℕ → Option (List (List ℕ)) × Parser → Option (List (List ℕ)) × Parser
prepend t (none, p) = (none, p)
prepend t (some l, p) = (some (t ∷ l), p)

abbrev read_on :
    (Parser → Option (List (List ℕ)) × Parser)
    → Option (Option (List ℕ)) × Parser
    → Option (List (List ℕ)) × Parser
read_on next (none, p) = (none, p)
read_on next (some none, p) = (none, p)
read_on next (some (some t), p) = prepend t (next p)

abbrev pub read_strings :
    (ℕ → ℕ) → (List ℕ → Option (List ℕ)) → (ℕ → ℕ) → ℕ → Parser → Option (List (List ℕ)) × Parser
read_strings align4 conv mem zero p = (some [], p)
read_strings align4 conv mem (suc n) p =
    read_on (λ q. read_strings align4 conv mem n q) (get_nullable_utf8 align4 conv mem p)

read_strings-strings :
    (g : Glib) (conv : List ℕ → Option (List ℕ)) (mem : ℕ → ℕ) (texts : List (List ℕ)) (p : Parser)
    → IsAlign4 g.align4
    → All (λ t. IsPlain g conv t) texts
    → Holds mem p.ptr (strings g texts)
    → p.ptr + length (strings g texts) ≤ p.end
    → read_strings g.align4 conv mem (length texts) p
      ≡ (some texts, record p { ptr = p.ptr + length (strings g texts) })
read_strings-strings g conv mem [] p a k h room =
    ap (λ n. (some [], record p { ptr = n })) (omega arith)
read_strings-strings g conv mem (t ∷ texts) p a k h room =
    let units = g.utf8_to_utf16 t in
    let here = string_bytes g units in
    let rest = strings g texts in
    let size = length-append here rest in
    let q : Parser = record p { ptr = p.ptr + length here } in
    let read =
      get_nullable_utf8-string_bytes g a conv mem units p k.0.converts.units k.0.short
        (Holds-left mem p.ptr here rest h) (omega (arith, size, room)) in
    let again =
      read_strings-strings g conv mem texts q a k.1 (Holds-right mem p.ptr here rest h)
        (omega (arith, size, room)) in
    ap (λ r. read_on (λ d. read_strings g.align4 conv mem (length texts) d) r) read
    ∙ ap (λ o. read_on (λ d. read_strings g.align4 conv mem (length texts) d) (some o, q))
        k.0.converts.back
    ∙ ap (λ r. prepend t r) again
    ∙ ap (λ n. (some (t ∷ texts), record p { ptr = n })) (omega (arith, size))

-- The payload is the count and the strings.
array_utf8_new-strings :
    (g : Glib) (conv : List ℕ → Option (List ℕ)) (texts : List (List ℕ))
    → IsAlign4 g.align4
    → All (λ t. IsPlain g conv t) texts
    → (r : Request) → array_utf8_new g (map (λ t. some t) texts) ≡ some r
    → r.bytes ≡ some (bytes_of_word (length texts) ++ strings g texts)
unfolding array_utf8_new append_int32 encode_int32 sized_new data_of
array_utf8_new-strings g conv texts a k r made =
    let n = length (map (λ (t : List ℕ). some t) texts) in
    let start = ap (λ l. some (l ++ bytes_of_word n)) (bytes_in_new (4 * (n + 1) % 2 ^ 32 == 0)) in
    let filled =
      append_each_utf8-strings g conv texts (bytes_of_word n) (append_int32 n (array_new n)) a k
        start in
    let same = length-map texts (λ (t : List ℕ). some t) in
    ap (λ o. data_of o) (sym made ∙ filled)
    ∙ ap (λ m. some (bytes_of_word m ++ strings g texts)) same

-- A parser over the payload of an array of texts, fewer than 2 ^ 32, each of them valid, without a 0, not
-- empty, with one UTF-16 unit for each character and fewer than 2 ^ 30 units, reads their number and
-- then the texts, in order, and stands at the end.
pub array_utf8_new-read_strings :
    (g : Glib) (conv : List ℕ → Option (List ℕ)) (mem : ℕ → ℕ) (start : ℕ) (texts : List (List ℕ))
    (r : Request) (payload : List ℕ)
    → IsAlign4 g.align4
    → All (λ t. IsPlain g conv t) texts
    → length texts < 2 ^ 32
    → array_utf8_new g (map (λ t. some t) texts) ≡ some r
    → r.bytes ≡ some payload
    → Holds mem start payload
    → (get_uint32 mem (record { ptr = start; end = start + length payload })
        ≡ (some (length texts), record { ptr = start + 4; end = start + length payload }))
      × (read_strings g.align4 conv mem
            (length texts)
            (record { ptr = start + 4; end = start + length payload })
          ≡ (some texts, record { ptr = start + length payload; end = start + length payload }))
unfolding get_uint32
array_utf8_new-read_strings g conv mem start texts r payload a k few made kept held =
    let n = length texts in
    let whole : bytes_of_word n ++ strings g texts ≡ payload =
      cc (array_utf8_new-strings g conv texts a k r made, kept) in
    let size : length payload ≡ 4 + length (strings g texts) = omega (arith, ap length whole) in
    let h = subst (λ l. Holds mem start l) (sym whole) held in
    let p : Parser = record { ptr = start + 4; end = start + length payload } in
    let count = load32-Holds mem start n few (Holds-left mem start (bytes_of_word n) _ h) in
    let read =
      read_strings-strings g conv mem texts p a k (Holds-right mem start (bytes_of_word n) _ h)
        (omega (arith, size)) in
    (
      ground (arith, count, size),
      read ∙ ap (λ e. (some texts, record p { ptr = e })) (omega (arith, size)),
    )

-- ===== src/Request/Contents.antt =====
-- src/grilio_request.c: what the payload of a request is made of, whatever is appended to it.
use libgrilio.Base.{
  ℕ, ◌<◌, ◌≡◌, refl, subst, Bool, true, false, Option, none, some, List, [], ◌∷◌, if◌then◌else◌,
  All, arith,
}
use libgrilio.Wire.{bytes_of_word}
use libgrilio.Encode.{encode_byte, encode_bytes, encode_int32, bytes_in}
use libgrilio.Encode.Text.{Glib, encode_utf8_chars, encode_utf8, c_string?}
use libgrilio.Parser.Text.Skip.{IsAlign4}
use libgrilio.Request.{Request, sized_new}
use libgrilio.Request.Append.{
  append_byte, append_some, append_bytes, append_int32, append_uint32_array, append_utf8,
  append_utf8_chars, with_bytes,
}
use libgrilio.Payload.Bytes.{
  IsByte, IsPayload, append-IsPayload, bytes_of_word-IsPayload, byte_by_byte,
  encode_uint32_values-IsPayload, encode_utf8_chars-IsPayload,
}

-- A request as its clients make it: new, then filled in. The flag says that no single bytes went in.
pub data Filled (g : Glib) : Bool → Request → Type 0 where
  new : (room : Bool) → Filled g true (sized_new (if room then some [] else none))
  byte :
      {b : Bool} {r : Request} (v : ℕ) → v < 256 → Filled g b r → Filled g false (append_byte v r)
  bytes :
      {b : Bool} {r : Request} (l : Option (List ℕ))
      → All (λ v. v < 256) (bytes_in l)
      → Filled g b r
      → Filled g false (append_bytes l r)
  word : {b : Bool} {r : Request} (v : ℕ) → Filled g b r → Filled g b (append_int32 v r)
  array :
      {b : Bool} {r : Request} (l : List ℕ) → Filled g b r → Filled g b (append_uint32_array l r)
  text :
      {b : Bool} {r t : Request} (utf8 : Option (List ℕ))
      → append_utf8 g utf8 r ≡ some t
      → Filled g b r
      → Filled g b t
  chars :
      {b : Bool} {r t : Request} (utf8 : Option (List ℕ))
      → append_utf8_chars g utf8 r ≡ some t
      → Filled g b r
      → Filled g b t

with_bytes-IsPayload :
    (b : Bool) (r t : Request) (o : Option (List ℕ))
    → ((out : List ℕ) → o ≡ some out → IsPayload b out)
    → with_bytes r o ≡ some t
    → IsPayload b (bytes_in t.bytes)
with_bytes-IsPayload b r t none f e = ground arith
with_bytes-IsPayload b r t (some out) f e =
    let same : some out ≡ t.bytes = ground arith in
    subst (λ l. IsPayload b (bytes_in l)) same (f out refl)

append_some-IsPayload :
    (b : Bool) (old l : Option (List ℕ))
    → IsPayload b (bytes_in old)
    → All IsByte (bytes_in l)
    → IsPayload false (bytes_in (append_some old l))
unfolding encode_bytes
append_some-IsPayload b old none h k = (h.0, λ e. ground arith)
append_some-IsPayload b old (some []) h k = (h.0, λ e. ground arith)
append_some-IsPayload b old (some (x ∷ l)) h k = byte_by_byte b (bytes_in old) (x ∷ l) h k

sized_new-IsPayload :
    (room : Bool) → IsPayload true (bytes_in (sized_new (if room then some [] else none)).bytes)
unfolding sized_new
sized_new-IsPayload true = (tt, λ e. refl)
sized_new-IsPayload false = (tt, λ e. refl)

-- Whatever a client appends, the payload consists of bytes, and when no single bytes were appended it
-- is a whole number of words, the padded strings among it.
pub Filled-IsPayload :
    (g : Glib) {b : Bool} {r : Request}
    → IsAlign4 g.align4
    → Filled g b r
    → IsPayload b (bytes_in r.bytes)
unfolding append_byte append_bytes append_int32 append_uint32_array append_utf8 append_utf8_chars
    encode_byte encode_int32 encode_utf8
Filled-IsPayload g a (Filled.new room) = sized_new-IsPayload room
Filled-IsPayload g a (Filled.byte {b = b} {r = r} v h f) =
    byte_by_byte b (bytes_in r.bytes) (v ∷ []) (Filled-IsPayload g a f) (h, tt)
Filled-IsPayload g a (Filled.bytes {b = b} {r = r} l h f) =
    append_some-IsPayload b r.bytes l (Filled-IsPayload g a f) h
Filled-IsPayload g a (Filled.word {b = b} {r = r} v f) =
    append-IsPayload b (bytes_in r.bytes) (bytes_of_word v) (Filled-IsPayload g a f)
      (bytes_of_word-IsPayload v)
Filled-IsPayload g a (Filled.array {b = b} {r = r} l f) =
    encode_uint32_values-IsPayload b r.bytes l (Filled-IsPayload g a f)
Filled-IsPayload g a (Filled.text {b = b} {r = r} {t = t} utf8 e f) =
    let before = Filled-IsPayload g a f in
    with_bytes-IsPayload b r t (encode_utf8 g r.bytes utf8)
      (λ out h. encode_utf8_chars-IsPayload g b r.bytes (c_string? utf8) out a before h) e
Filled-IsPayload g a (Filled.chars {b = b} {r = r} {t = t} utf8 e f) =
    let before = Filled-IsPayload g a f in
    with_bytes-IsPayload b r t (encode_utf8_chars g r.bytes utf8)
      (λ out h. encode_utf8_chars-IsPayload g b r.bytes utf8 out a before h) e

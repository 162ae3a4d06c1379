-- ===== src/Request/Append.antt =====
-- src/grilio_request.c: filling in the payload of a request. A NULL request is left out. Where a string
-- is encoded, `none` is a write past the end of the array (Encode.Text).
use libgrilio.Base.{
  ℕ, ◌+◌, ◌*◌, ◌%◌, ◌^◌, Option, none, some, List, [], ◌∷◌, ◌==◌, if◌then◌else◌, length,
}
use libgrilio.Encode.{encode_byte, encode_bytes, encode_int32, encode_uint32_values}
use libgrilio.Encode.Text.{Glib, encode_utf8, encode_utf8_chars}
use libgrilio.Request.{Request, sized_new}

-- `grilio_request_append_byte`
unfoldable pub append_byte : ℕ → Request → Request
append_byte value req = record req { bytes = encode_byte req.bytes value }

-- `grilio_request_append_bytes`: nothing for NULL and for no bytes.
abbrev pub append_some : Option (List ℕ) → Option (List ℕ) → Option (List ℕ)
append_some bytes none = bytes
append_some bytes (some []) = bytes
append_some bytes (some (b ∷ data1)) = encode_bytes bytes (b ∷ data1)

unfoldable pub append_bytes : Option (List ℕ) → Request → Request
append_bytes data1 req = record req { bytes = append_some req.bytes data1 }

-- `grilio_request_append_int32`
unfoldable pub append_int32 : ℕ → Request → Request
append_int32 value req = record req { bytes = encode_int32 req.bytes value }

-- `grilio_request_append_uint32_array`; `grilio_request_append_int32_array` is a cast away.
unfoldable pub append_uint32_array : List ℕ → Request → Request
append_uint32_array values req = record req { bytes = encode_uint32_values req.bytes values }

-- What a request becomes with the array that an encoder made.
abbrev pub with_bytes : Request → Option (List ℕ) → Option Request
with_bytes req none = none
with_bytes req (some bytes) = some (record req { bytes = some bytes })

-- `grilio_request_append_utf8`; the text may be NULL.
unfoldable pub append_utf8 : Glib → Option (List ℕ) → Request → Option Request
append_utf8 g utf8 req = with_bytes req (encode_utf8 g req.bytes utf8)

-- `grilio_request_append_utf8_chars`, of the text up to `num_bytes`.
unfoldable pub append_utf8_chars : Glib → Option (List ℕ) → Request → Option Request
append_utf8_chars g utf8 req = with_bytes req (encode_utf8_chars g req.bytes utf8)

-- `grilio_request_append_format_va`, of the text that g_strdup_vprintf makes.
unfoldable pub append_format : Glib → List ℕ → Request → Option Request
append_format g text req = append_utf8 g (some text) req

-- The request that both constructors begin with: the size is a guint.
abbrev pub array_new : ℕ → Request
array_new count = sized_new (if 4 * (count + 1) % 2 ^ 32 == 0 then none else some [])

-- The arguments, one after the other.
unfoldable pub append_each : List ℕ → Request → Request
append_each [] req = req
append_each (v ∷ values) req = append_each values (append_int32 v req)

abbrev pub then_append : (Request → Option Request) → Option Request → Option Request
then_append rest none = none
then_append rest (some req) = rest req

unfoldable pub append_each_utf8 : Glib → List (Option (List ℕ)) → Request → Option Request
append_each_utf8 g [] req = some req
append_each_utf8 g (utf8 ∷ values) req =
    then_append (λ r. append_each_utf8 g values r) (append_utf8 g utf8 req)

-- `grilio_request_array_int32_new`
unfoldable pub array_int32_new : List ℕ → Request
array_int32_new values =
    append_each values (append_int32 (length values) (array_new (length values)))

-- `grilio_request_array_utf8_new`
unfoldable pub array_utf8_new : Glib → List (Option (List ℕ)) → Option Request
array_utf8_new g values =
    append_each_utf8 g values (append_int32 (length values) (array_new (length values)))

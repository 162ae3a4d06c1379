-- ===== src/Parser.antt =====
-- src/grilio_parser.c: reading the payload of a packet. A parser is two addresses, the next byte and
-- the end; memory is a function from addresses to bytes. Addresses do not wrap. A reader returns
-- `none` for FALSE, and the parser as it leaves it in either case. The pointers for the results may
-- be NULL in C, which changes nothing in the parser.
pub mod Text
use libgrilio.Base.{
  ℕ, zero, suc, ◌+◌, ◌-◌, Bool, Option, none, some, List, [], ◌∷◌, ltb, leb, if◌then◌else◌, min,
}
use libgrilio.Wire.{word_of_bytes}

pub record Parser : Type 0 where
  pub ptr : ℕ
  pub end : ℕ

unfoldable pub init : ℕ → ℕ → Parser
init start len = record { ptr = start; end = start + len }

unfoldable pub at_end : Parser → Bool
at_end p = leb p.end p.ptr

unfoldable pub get_byte : (ℕ → ℕ) → Parser → Option ℕ × Parser
get_byte mem p =
    if ltb p.ptr p.end then (some (mem p.ptr), record p { ptr = p.ptr + 1 }) else (none, p)

-- The word at an address.
unfoldable pub load32 : (ℕ → ℕ) → ℕ → ℕ
load32 mem a = word_of_bytes (mem a) (mem (a + 1)) (mem (a + 2)) (mem (a + 3))

unfoldable pub get_uint32 : (ℕ → ℕ) → Parser → Option ℕ × Parser
get_uint32 mem p =
    if leb (p.ptr + 4) p.end
    then (some (load32 mem p.ptr), record p { ptr = p.ptr + 4 })
    else (none, p)

abbrev prepend : ℕ → Option (List ℕ) × Parser → Option (List ℕ) × Parser
prepend v (none, p) = (none, p)
prepend v (some vs, p) = (some (v ∷ vs), p)

abbrev then_rest :
    (Parser → Option (List ℕ) × Parser) → Option ℕ × Parser → Option (List ℕ) × Parser
then_rest rest (none, p) = (none, p)
then_rest rest (some v, p) = prepend v (rest p)

-- Where a word is missing, those before it have been taken.
unfoldable pub get_uint32_array : (ℕ → ℕ) → ℕ → Parser → Option (List ℕ) × Parser
get_uint32_array mem zero p = (some [], p)
get_uint32_array mem (suc count) p =
    then_rest (λ q. get_uint32_array mem count q) (get_uint32 mem p)

unfoldable pub bytes_remaining : Parser → ℕ
bytes_remaining p = p.end - p.ptr

-- `grilio_parser_get_data`: the number of bytes, a parser over them, and the parser behind them.
unfoldable pub get_data : ℕ → Parser → ℕ × Parser × Parser
get_data maxlen p =
    let len = min maxlen (p.end - p.ptr) in
    (len, record { ptr = p.ptr; end = p.ptr + len }, record p { ptr = p.ptr + len })

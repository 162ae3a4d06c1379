-- ===== src/Payload/Words.antt =====
-- Words: grilio_encode_uint32_values and grilio_parser_get_uint32_array.
use libgrilio.Base.{
  ℕ, ◌+◌, ◌*◌, ◌/◌, ◌%◌, ◌^◌, ap, ◌≤◌, ◌<◌, ◌≡◌, some, List, [], ◌∷◌, arith, length, All,
}
use libgrilio.Wire.{bytes_of_word, word_of_bytes_of_word}
use libgrilio.Encode.{words}
use libgrilio.Parser.{Parser, get_uint32, get_uint32_array, load32}
use libgrilio.Payload.{Holds, Holds-left, Holds-right}

pub load32-Holds :
    (mem : ℕ → ℕ) (a w : ℕ) → w < 2 ^ 32 → Holds mem a (bytes_of_word w) → load32 mem a ≡ w
unfolding load32
load32-Holds mem a w small h =
    let two : a + 2 ≡ a + 1 + 1 = omega arith in
    let three : a + 3 ≡ a + 1 + 1 + 1 = omega arith in
    let third : mem (a + 2) ≡ w / 65536 % 256 = rw two h.1.1.0 in
    let fourth : mem (a + 3) ≡ w / 16777216 % 256 = rw three h.1.1.1.0 in
    omega (arith, h.1.0, third, fourth, word_of_bytes_of_word w small)

-- The words that were written after the old contents are read back, and the parser stands behind them.
pub get_uint32_array-encode :
    (mem : ℕ → ℕ) (vs : List ℕ) (p : Parser)
    → All (λ v. v < 2 ^ 32) vs
    → Holds mem p.ptr (words vs)
    → p.ptr + 4 * length vs ≤ p.end
    → get_uint32_array mem (length vs) p ≡ (some vs, record p { ptr = p.ptr + 4 * length vs })
unfolding get_uint32_array get_uint32
get_uint32_array-encode mem [] p small h room =
    ap (λ a. (some [], record p { ptr = a })) (omega arith)
get_uint32_array-encode mem (v ∷ vs) p small h room =
    let front =
      load32-Holds mem p.ptr v small.0 (Holds-left mem p.ptr (bytes_of_word v) (words vs) h) in
    let q : Parser = record p { ptr = p.ptr + 4 } in
    let back =
      get_uint32_array-encode mem vs q small.1
        (Holds-right mem p.ptr (bytes_of_word v) (words vs) h) (omega arith) in
    ground (arith, front, back)

-- ===== src/Parser/Text/Skip.antt =====
-- src/grilio_parser.c: grilio_parser_skip_string against grilio_parser_get_nullable_utf8.
use libgrilio.Base.{
  ℕ, ◌+◌, ◌-◌, ◌*◌, ◌%◌, ◌^◌, ◌≤◌, ◌<◌, ◌≡◌, ◌⊎◌, inl, inr, Bool, true, false, Option, none, some,
  List, arith,
}
use libgrilio.Parser.{Parser, load32}
use libgrilio.Parser.Text.{padded_len, skip_string, string_of_length, get_nullable_utf8}

abbrev pub is_some {ℓ} : {A : Type ℓ} → Option A → Bool
is_some none = false
is_some (some a) = true

-- G_ALIGN4 rounds up to a multiple of four.
pub record IsAlign4 (align4 : ℕ → ℕ) : Type 0 where
  pub above : (n : ℕ) → n ≤ align4 n
  pub below : (n : ℕ) → align4 n < n + 4
  pub aligned : (n : ℕ) → align4 n % 4 ≡ 0

module _ (align4 : ℕ → ℕ) (utf16_to_utf8 : List ℕ → Option (List ℕ)) (mem : ℕ → ℕ) where
  -- Skipping a string does with the parser what reading it does, and succeeds exactly when that does.
  pub skip_string-get_nullable_utf8 :
      (p : Parser)
      → ((skip_string align4 mem p).0 ≡ is_some (get_nullable_utf8 align4 utf16_to_utf8 mem p).0)
        × ((skip_string align4 mem p).1 ≡ (get_nullable_utf8 align4 utf16_to_utf8 mem p).1)
  unfolding skip_string get_nullable_utf8 string_of_length
  skip_string-get_nullable_utf8 p = ground arith

-- The lengths whose size in bytes does not fit 32 bits.
abbrev pub HugeLength : ℕ → Type 0
HugeLength len = (len ≡ 2 ^ 31 - 2) ⊎ (len ≡ 2 ^ 31 - 1)

module _ (align4 : ℕ → ℕ) (a : IsAlign4 align4) where
  -- For any other length that is not negative as an int, the padded size has room for the units and
  -- the 0 behind them.
  pub padded_len_room :
      (len : ℕ)
      → len < 2 ^ 31 - 2
      → ((len + 1) * 2 ≤ padded_len align4 len)
        × (padded_len align4 len < (len + 1) * 2 + 4)
        × (padded_len align4 len % 4 ≡ 0)
  padded_len_room len h =
      let x : ℕ = (len + 1) * 2 % 2 ^ 32 in
      (
        omega (arith, a.above x, a.below x, a.aligned x),
        omega (arith, a.above x, a.below x, a.aligned x),
        omega (arith, a.above x, a.below x, a.aligned x),
      )

  padded_len_zero : (len : ℕ) → HugeLength len → padded_len align4 len ≡ 0
  padded_len_zero len (inl e) =
      let x : ℕ = (len + 1) * 2 % 2 ^ 32 in omega (arith, a.above x, a.below x, a.aligned x)
  padded_len_zero len (inr e) =
      let x : ℕ = (len + 1) * 2 % 2 ^ 32 in omega (arith, a.above x, a.below x, a.aligned x)

  -- A string of such a length is taken to be 4 bytes long: the size wraps to 0, and the check against
  -- the end of the packet passes whenever the length itself was there.
  pub skip_string_wraps :
      (mem : ℕ → ℕ) (p : Parser)
      → HugeLength (load32 mem p.ptr)
      → p.ptr + 4 ≤ p.end
      → skip_string align4 mem p ≡ (true, record p { ptr = p.ptr + 4 })
  unfolding skip_string
  skip_string_wraps mem p h room = ground (arith, padded_len_zero (load32 mem p.ptr) h)

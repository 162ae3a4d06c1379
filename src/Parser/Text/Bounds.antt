-- ===== src/Parser/Text/Bounds.antt =====
-- src/grilio_parser.c: a string reader looks at no byte outside its packet.
use libgrilio.Base.{
  ℕ, zero, suc, ◌+◌, ◌-◌, ◌*◌, ◌^◌, ◌≤◌, ◌<◌, ◌≡◌, refl, ap, inl, inr, Bool, true, Option, none,
  List, arith, leb, ltb, ◌&&◌, if◌then◌else◌, Bool-cases, leb→le, ltb→lt,
}
use libgrilio.Parser.{Parser, load32}
use libgrilio.Parser.Text.{padded_len, string_of_length, get_nullable_utf8, units_at}
use libgrilio.Parser.Text.Skip.{IsAlign4, padded_len_room, HugeLength}

-- Two memories hold the same bytes from `a` on, up to `b`.
abbrev pub Agree : (ℕ → ℕ) → (ℕ → ℕ) → ℕ → ℕ → Type 0
Agree mem mem' a b = (x : ℕ) → a ≤ x → x < b → mem x ≡ mem' x

load32-Agree :
    (mem mem' : ℕ → ℕ) (a b : ℕ) → Agree mem mem' a b → a + 4 ≤ b → load32 mem a ≡ load32 mem' a
unfolding load32
load32-Agree mem mem' a b h room = omega (
  arith,
  h a (omega arith) (omega arith),
  h (a + 1) (omega arith) (omega arith),
  h (a + 2) (omega arith) (omega arith),
  h (a + 3) (omega arith) (omega arith),
)

units_at-Agree :
    (mem mem' : ℕ → ℕ) (n a b : ℕ)
    → Agree mem mem' a b
    → a + 2 * n ≤ b
    → units_at mem a n ≡ units_at mem' a n
units_at-Agree mem mem' zero a b h room = refl
units_at-Agree mem mem' (suc n) a b h room = cc (
  h a (omega arith) (omega arith),
  h (a + 1) (omega arith) (omega arith),
  units_at-Agree mem mem' n (a + 2) b (λ x lo hi. h x (omega arith) hi) (omega arith),
)

not_huge : (len : ℕ) → ¬ HugeLength len → len < 2 ^ 31 → len < 2 ^ 31 - 2
not_huge len small h =
    omega (arith, λ (e : len ≡ 2 ^ 31 - 2). small (inl e), λ (e : len ≡ 2 ^ 31 - 1). small (inr e))

and_left : (a b : Bool) → (a && b) ≡ true → a ≡ true
and_left a b h = ground arith

and_right : (a b : Bool) → (a && b) ≡ true → b ≡ true
and_right a b h = ground arith

module _ (align4 : ℕ → ℕ) (a : IsAlign4 align4) (utf16_to_utf8 : List ℕ → Option (List ℕ)) where
  string_of_length_bounds :
      (mem mem' : ℕ → ℕ) (p : Parser) (len : ℕ)
      → Agree mem mem' p.ptr p.end
      → ¬ HugeLength len
      → string_of_length align4 utf16_to_utf8 mem p len
        ≡ string_of_length align4 utf16_to_utf8 mem' p len
  unfolding string_of_length
  string_of_length_bounds mem mem' p len h small =
      elim (Bool-cases (ltb len (2 ^ 31) && leb (p.ptr + padded_len align4 len + 4) p.end)) [
        | inr short ↦ ground arith
        | inl room ↦
            let fits : len < 2 ^ 31 - 2 =
              not_huge len small (ltb→lt len (2 ^ 31) (and_left _ _ room)) in
            let inside : p.ptr + padded_len align4 len + 4 ≤ p.end =
              leb→le (p.ptr + padded_len align4 len + 4) p.end
                (and_right (ltb len (2 ^ 31)) _ room) in
            rw (
              units_at-Agree mem mem' len (p.ptr + 4) p.end (λ x lo hi. h x (omega arith) hi)
                (omega (arith, padded_len_room align4 a len fits, inside)))
      ]

  -- With the length that stands at the front and no overflow of its size, the result depends on the
  -- bytes between the parser's position and its end alone.
  pub get_nullable_utf8_bounds :
      (mem mem' : ℕ → ℕ) (p : Parser)
      → Agree mem mem' p.ptr p.end
      → ¬ HugeLength (load32 mem p.ptr)
      → get_nullable_utf8 align4 utf16_to_utf8 mem p ≡ get_nullable_utf8 align4 utf16_to_utf8 mem' p
  unfolding get_nullable_utf8
  get_nullable_utf8_bounds mem mem' p h small = elim (Bool-cases (leb (p.ptr + 4) p.end)) [
    | inr short ↦ ground arith
    | inl room ↦
        let same : load32 mem p.ptr ≡ load32 mem' p.ptr =
          load32-Agree mem mem' p.ptr p.end h (leb→le _ _ room) in
        rw (← same) (
          ap (λ r. if leb (p.ptr + 4) p.end then r else (none, p))
            (string_of_length_bounds mem mem' p (load32 mem p.ptr) h small))
  ]

-- ===== src/Hexdump/Shown.antt =====
-- src/grilio_hexdump.c: a row as a C string.
use libgrilio.Base.{
  length, ℕ, zero, suc, ◌+◌, ◌/◌, ◌%◌, ◌≤◌, ◌<◌, ◌≡◌, refl, sym, Bool, true, false, Option, none,
  some, List, [], ◌∷◌, ◌++◌, ◌==◌, if◌then◌else◌, All, arith, append_assoc,
}
use libgrilio.Base.Int.{ℤ}
use libgrilio.Hexdump.Line.{length-hexdump_line}
use libgrilio.Hexdump.{digit, byte_at, gap, cell, cells, char_of, shown, chars, hexdump_line}

-- A character that is a column wide.
abbrev pub IsColumn : ℕ → Type 0
IsColumn b = (32 ≤ b) × (b < 127)

-- What the code relies on isprint for.
abbrev pub IsPrint : (ℤ → Bool) → Type 0
IsPrint isprint = (b : ℕ) → isprint (char_of b) ≡ true → IsColumn b

append-All : (xs ys : List ℕ) → All IsColumn xs → All IsColumn ys → All IsColumn (xs ++ ys)
append-All [] ys h k = k
append-All (x ∷ xs) ys h k = (h.0, append-All xs ys h.1 k)

gap-IsColumn : (i : ℕ) → All IsColumn (gap i)
gap-IsColumn i = ground arith

digit-IsColumn : (n : ℕ) → n < 16 → IsColumn (digit n)
digit-IsColumn n h = ground arith

cell-IsColumn : (o : Option ℕ) → All IsColumn (cell o).0
cell-IsColumn none = ((omega arith, omega arith), ((omega arith, omega arith), tt))
cell-IsColumn (some b) =
    (digit-IsColumn (b / 16 % 16) (omega arith), (digit-IsColumn (b % 16) (omega arith), tt))

cells-IsColumn : (data1 data2 : List ℕ) (n i : ℕ) → All IsColumn (cells data1 data2 n i).0
unfolding cells
cells-IsColumn data1 data2 zero i = tt
cells-IsColumn data1 data2 (suc n) i =
    let c = (cell (byte_at data1 data2 i)).0 in
    let rest = (cells data1 data2 n (i + 1)).0 in
    append-All (gap i) (c ++ rest) (gap-IsColumn i) (
      append-All c rest (cell-IsColumn (byte_at data1 data2 i))
        (cells-IsColumn data1 data2 n (i + 1)))

shown-IsColumn :
    (isprint : ℤ → Bool) → IsPrint isprint → (o : Option ℕ) → IsColumn (shown isprint o)
shown-IsColumn isprint h none = (omega arith, omega arith)
shown-IsColumn isprint h (some b) = shown-if (isprint (char_of b)) (h b)
  where
    shown-if : (c : Bool) → (c ≡ true → IsColumn b) → IsColumn (if c then b else 46)
    shown-if true k = k refl
    shown-if false k = (omega arith, omega arith)

space-IsColumn : (i : ℕ) → All IsColumn (if i == 8 then 32 ∷ [] else [])
space-IsColumn i = ground arith

chars-IsColumn :
    (isprint : ℤ → Bool)
    → IsPrint isprint
    → (data1 data2 : List ℕ) (n i : ℕ) → All IsColumn (chars isprint data1 data2 n i)
unfolding chars
chars-IsColumn isprint h data1 data2 zero i = tt
chars-IsColumn isprint h data1 data2 (suc n) i =
    append-All (if i == 8 then 32 ∷ [] else []) _ (space-IsColumn i) (
      shown-IsColumn isprint h (byte_at data1 data2 i),
      chars-IsColumn isprint h data1 data2 n (i + 1),
    )

-- The text of a row, in front of the 0 at its end.
abbrev pub row_text : (ℤ → Bool) → List ℕ → List ℕ → List ℕ
row_text isprint data1 data2 =
    let c = cells data1 data2 16 0 in c.0 ++ (32 ∷ 32 ∷ 32 ∷ 32 ∷ chars isprint data1 data2 c.1 0)

-- A row is a C string of characters that are a column wide each, whatever bytes are dumped: no 0 comes
-- before the end. It is at most 70 characters long, the 0 at its end included: `buf` has 80.
pub hexdump_line-IsColumn :
    (isprint : ℤ → Bool) (data1 data2 : List ℕ)
    → IsPrint isprint
    → (hexdump_line isprint data1 data2 ≡ row_text isprint data1 data2 ++ (0 ∷ []))
      × All IsColumn (row_text isprint data1 data2)
      × (length (hexdump_line isprint data1 data2) ≤ 70)
unfolding hexdump_line
hexdump_line-IsColumn isprint data1 data2 h =
    let c = cells data1 data2 16 0 in
    let spaces : IsColumn 32 = (omega arith, omega arith) in
    (
      sym (append_assoc c.0 (32 ∷ 32 ∷ 32 ∷ 32 ∷ chars isprint data1 data2 c.1 0) (0 ∷ [])),
      append-All c.0 (32 ∷ 32 ∷ 32 ∷ 32 ∷ chars isprint data1 data2 c.1 0)
          (cells-IsColumn data1 data2 16 0)
          (spaces, (spaces, (spaces, (spaces, chars-IsColumn isprint h data1 data2 c.1 0)))),
      length-hexdump_line isprint data1 data2,
    )

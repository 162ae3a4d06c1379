-- ===== src/Hexdump/Line.antt =====
-- src/grilio_hexdump.c, grilio_log_hexdump_line: the row fits its buffer and shows its bytes.
use libgrilio.Base.{
  ℕ, zero, suc, ◌+◌, ◌-◌, ◌*◌, ◌/◌, ◌%◌, ◌≤◌, ◌<◌, ◌≡◌, refl, sym, ap, ◌∙◌, Bool, false, inl, inr,
  Option, none, some, List, [], ◌∷◌, ◌++◌, arith, ltb, ◌==◌, if◌then◌else◌, length, length-append,
  get_elem?, take, drop, All, Option-cases, append_assoc,
}
use libgrilio.Base.Int.{ℤ}
use libgrilio.Hexdump.{digit, byte_at, gap, cell, cells, chars, hexdump_line}

-- The space that is still to come in front of place 8.
abbrev wide : ℕ → ℕ
wide i = if ltb 8 i then 0 else 1

length-cell : (o : Option ℕ) → (length (cell o).0 ≡ 2) × ((cell o).1 ≤ 1)
length-cell none = (refl, omega arith)
length-cell (some b) = (refl, omega arith)

length-gap : (i : ℕ) → length (gap i) + wide (i + 1) ≤ 1 + wide i
length-gap i = ground arith

length-cells :
    (data1 data2 : List ℕ) (n i : ℕ)
    → (length (cells data1 data2 n i).0 ≤ 3 * n + wide i) × ((cells data1 data2 n i).1 ≤ n)
unfolding cells
length-cells data1 data2 zero i = (omega arith, omega arith)
length-cells data1 data2 (suc n) i =
    let o = byte_at data1 data2 i in
    let rest = length-cells data1 data2 n (i + 1) in
    let front = length-append (cell o).0 (cells data1 data2 n (i + 1)).0 in
    let all = length-append (gap i) ((cell o).0 ++ (cells data1 data2 n (i + 1)).0) in
    (
      omega (arith, rest.0, front, all, length-gap i, (length-cell o).0),
      omega (arith, rest.1, (length-cell o).1),
    )

length-chars :
    (isprint : ℤ → Bool) (data1 data2 : List ℕ) (n i : ℕ)
    → length (chars isprint data1 data2 n i) ≤ n + wide i
unfolding chars
length-chars isprint data1 data2 zero i = omega arith
length-chars isprint data1 data2 (suc n) i =
    ground (arith, length-chars isprint data1 data2 n (i + 1))

first_cells : (data1 data2 : List ℕ) (n : ℕ) → length (cells data1 data2 (suc n) 0).0 ≤ 3 * suc n
unfolding cells
first_cells data1 data2 n =
    let o = byte_at data1 data2 0 in
    omega (
      arith,
      (length-cells data1 data2 n 1).0,
      length-append (cell o).0 (cells data1 data2 n 1).0,
      (length-cell o).0,
    )

-- A row is at most 70 characters long, the 0 at its end included: `buf` has 80.
pub length-hexdump_line :
    (isprint : ℤ → Bool) (data1 data2 : List ℕ) → length (hexdump_line isprint data1 data2) ≤ 70
unfolding hexdump_line
length-hexdump_line isprint data1 data2 =
    let text = (cells data1 data2 16 0).0 in
    let line = chars isprint data1 data2 (cells data1 data2 16 0).1 0 in
    omega (
      arith,
      length-append text (32 ∷ 32 ∷ 32 ∷ 32 ∷ (line ++ (0 ∷ []))),
      length-append line (0 ∷ []),
      first_cells data1 data2 15,
      (length-cells data1 data2 16 0).1,
      length-chars isprint data1 data2 (cells data1 data2 16 0).1 0,
    )

-- Reading a row: the two digits of each place, up to the first blank one.
abbrev value : ℕ → ℕ
value c = if ltb c 58 then c - 48 else c - 87

abbrev read_cell : (List ℕ → List ℕ) → List ℕ → List ℕ
read_cell next (a ∷ b ∷ text) = if a == 32 then [] else (value a * 16 + value b) ∷ next text
read_cell next _ = []

unfoldable pub read_row : ℕ → ℕ → List ℕ → List ℕ
read_row zero i text = []
read_row (suc n) i text = read_cell (λ t. read_row n (i + 1) t) (drop (length (gap i)) text)

drop-append : (xs ys : List ℕ) → drop (length xs) (xs ++ ys) ≡ ys
drop-append [] ys = refl
drop-append (x ∷ xs) ys = drop-append xs ys

drop-get_elem? : (l : List ℕ) (i b : ℕ) → get_elem? l i ≡ some b → drop i l ≡ b ∷ drop (i + 1) l
drop-get_elem? [] i b h = cc
drop-get_elem? (x ∷ l) zero b h = cc (h)
drop-get_elem? (x ∷ l) (suc i) b h =
    let next : suc i + 1 ≡ suc (i + 1) = omega arith in rw next (drop-get_elem? l i b h)

drop-none : (l : List ℕ) (i : ℕ) → get_elem? l i ≡ none → drop i l ≡ []
drop-none [] zero h = refl
drop-none [] (suc i) h = refl
drop-none (x ∷ l) zero h = cc
drop-none (x ∷ l) (suc i) h = drop-none l i h

All-get_elem? :
    (test : ℕ → Type 0) (l : List ℕ) (i b : ℕ) → All test l → get_elem? l i ≡ some b → test b
All-get_elem? test [] i b a h = cc
All-get_elem? test (x ∷ l) zero b a h = let same : x ≡ b = cc (h) in rw (← same) a.0
All-get_elem? test (x ∷ l) (suc i) b a h = All-get_elem? test l i b a.1 h

byte_at-append :
    (data1 data2 : List ℕ) (i : ℕ) → byte_at data1 data2 i ≡ get_elem? (data1 ++ data2) i
byte_at-append [] data2 i = let same : i - 0 ≡ i = omega arith in ground (arith, same)
byte_at-append (x ∷ data1) data2 zero = ground arith
byte_at-append (x ∷ data1) data2 (suc i) = ground (arith, byte_at-append data1 data2 i)

digit_nonblank : (n : ℕ) → n < 16 → (digit n == 32) ≡ false
digit_nonblank n h = ground arith

value-digit : (n : ℕ) → n < 16 → value (digit n) ≡ n
value-digit n h = ground arith

value-byte : (b : ℕ) → b < 256 → value (digit (b / 16 % 16)) * 16 + value (digit (b % 16)) ≡ b
value-byte b h =
    omega (arith, value-digit (b / 16 % 16) (omega arith), value-digit (b % 16) (omega arith))

read_cell-none :
    (next : List ℕ → List ℕ) (text : List ℕ) → read_cell next ((cell none).0 ++ text) ≡ []
read_cell-none next text = refl

read_cell-some :
    (next : List ℕ → List ℕ) (b : ℕ) (text : List ℕ)
    → b < 256
    → read_cell next ((cell (some b)).0 ++ text) ≡ b ∷ next text
read_cell-some next b text h = rw (digit_nonblank (b / 16 % 16) (omega arith), value-byte b h)

read_row-gap :
    (n i : ℕ) (text rest tail : List ℕ)
    → read_row (suc n) i ((gap i ++ (text ++ rest)) ++ tail)
      ≡ read_cell (λ t. read_row n (i + 1) t) (text ++ (rest ++ tail))
unfolding read_row
read_row-gap n i text rest tail =
    ap (λ t. read_cell (λ t. read_row n (i + 1) t) (drop (length (gap i)) t))
      (append_assoc (gap i) (text ++ rest) tail
        ∙ ap (λ t. gap i ++ t) (append_assoc text rest tail))
    ∙ ap (λ t. read_cell (λ t. read_row n (i + 1) t) t)
        (drop-append (gap i) (text ++ (rest ++ tail)))

read_row-cells :
    (data1 data2 : List ℕ) (n i : ℕ) (tail : List ℕ)
    → All (λ b. b < 256) (data1 ++ data2)
    → read_row n i ((cells data1 data2 n i).0 ++ tail) ≡ take n (drop i (data1 ++ data2))
unfolding cells
read_row-cells data1 data2 zero i tail small = unfold read_row in refl
read_row-cells data1 data2 (suc n) i tail small =
    let l = data1 ++ data2 in
    let rest = (cells data1 data2 n (i + 1)).0 in
    let next : List ℕ → List ℕ = λ t. read_row n (i + 1) t in
    read_row-gap n i (cell (byte_at data1 data2 i)).0 rest tail
    ∙ ap (λ o. read_cell next ((cell o).0 ++ (rest ++ tail))) (byte_at-append data1 data2 i)
    ∙ elim (Option-cases (get_elem? l i)) [
      | inl past ↦
          ap (λ o. read_cell next ((cell o).0 ++ (rest ++ tail))) past
          ∙ sym (ap (λ t. take (suc n) t) (drop-none l i past))
      | inr (b, here) ↦
          ap (λ o. read_cell next ((cell o).0 ++ (rest ++ tail))) here
          ∙ read_cell-some next b (rest ++ tail) (All-get_elem? (λ b. b < 256) l i b small here)
          ∙ ap (λ t. b ∷ t) (read_row-cells data1 data2 n (i + 1) tail small)
          ∙ sym (ap (λ t. take (suc n) t) (drop-get_elem? l i b here))
    ]

take_all : (n : ℕ) (l : List ℕ) → length l ≤ n → take n l ≡ l
take_all zero [] h = refl
take_all zero (x ∷ l) h = absurd (omega arith)
take_all (suc n) [] h = refl
take_all (suc n) (x ∷ l) h = ap (λ t. x ∷ t) (take_all n l (omega arith))

-- The digits of a row give back the bytes of both buffers, where there are sixteen at most.
pub read_row-hexdump_line :
    (isprint : ℤ → Bool) (data1 data2 : List ℕ)
    → All (λ b. b < 256) (data1 ++ data2)
    → length data1 + length data2 ≤ 16
    → read_row 16 0 (hexdump_line isprint data1 data2) ≡ data1 ++ data2
unfolding hexdump_line
read_row-hexdump_line isprint data1 data2 small short =
    read_row-cells data1 data2 16 0 _ small
    ∙ take_all 16 (data1 ++ data2) (omega (arith, short, length-append data1 data2))

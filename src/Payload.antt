-- ===== src/Payload.antt =====
-- src/grilio_encode.c against src/grilio_parser.c: what was written is read back.
pub mod Words
pub mod Text
pub mod Bytes
use native.Mathlib.Nat.{add-zero}
use libgrilio.Base.{ℕ, zero, suc, ◌+◌, ◌≡◌, refl, ◌∙◌, List, [], ◌∷◌, ◌++◌, arith, length}

-- The bytes stand in memory from an address on.
abbrev pub Holds : (ℕ → ℕ) → ℕ → List ℕ → Type 0
Holds mem a [] = Unit {0}
Holds mem a (b ∷ body) = (mem a ≡ b) × Holds mem (a + 1) body

pub Holds-left : (mem : ℕ → ℕ) (a : ℕ) (xs ys : List ℕ) → Holds mem a (xs ++ ys) → Holds mem a xs
Holds-left mem a [] ys h = tt
Holds-left mem a (x ∷ xs) ys h = (h.0, Holds-left mem (a + 1) xs ys h.1)

pub Holds-right :
    (mem : ℕ → ℕ) (a : ℕ) (xs ys : List ℕ) → Holds mem a (xs ++ ys) → Holds mem (a + length xs) ys
Holds-right mem a [] ys h = rw add-zero h
Holds-right mem a (x ∷ xs) ys h =
    let same : a + length (x ∷ xs) ≡ a + 1 + length xs = omega arith in
    rw same (Holds-right mem (a + 1) xs ys h.1)

-- ===== src/Wire.antt =====
-- 32-bit words in the payload of a packet, src/grilio_p.h GUINT32_TO_RIL and GUINT32_FROM_RIL: the
-- machine's own byte order, which is taken to be little endian.
use libgrilio.Base.{ℕ, ◌+◌, ◌*◌, ◌/◌, ◌%◌, ◌^◌, ◌<◌, ◌≡◌, List, [], ◌∷◌, arith}

-- The four bytes of a guint32, as a store of the word leaves them in memory.
abbrev pub bytes_of_word : ℕ → List ℕ
bytes_of_word w = w % 256 ∷ w / 256 % 256 ∷ w / 65536 % 256 ∷ w / 16777216 % 256 ∷ []

-- The word that a load of four bytes gives.
abbrev pub word_of_bytes : ℕ → ℕ → ℕ → ℕ → ℕ
word_of_bytes a b c d = a + 256 * b + 65536 * c + 16777216 * d

pub word_of_bytes_of_word :
    (w : ℕ)
    → w < 2 ^ 32
    → word_of_bytes (w % 256) (w / 256 % 256) (w / 65536 % 256) (w / 16777216 % 256) ≡ w
word_of_bytes_of_word w h = omega arith

pub word_of_bytes-lt :
    (a b c d : ℕ) → a < 256 → b < 256 → c < 256 → d < 256 → word_of_bytes a b c d < 2 ^ 32
word_of_bytes-lt a b c d ha hb hc hd = omega arith

-- ===== src/Hexdump.antt =====
-- src/grilio_hexdump.c: the default logger, which prints a packet as rows of sixteen bytes. Text is a
-- list of character codes. `isprint` of the C library is a parameter; it is handed a plain char,
-- which is signed. Whether the log level is on is up to the caller.
pub mod Line
pub mod Dump
pub mod Shown
use libgrilio.Base.{
  ℕ, zero, suc, ◌+◌, ◌-◌, ◌/◌, ◌%◌, Bool, true, false, ◌||◌, Option, none, some, List, [], ◌∷◌,
  ◌++◌, min, ltb, ◌==◌, if◌then◌else◌, length, get_elem?, take, drop,
}
use libgrilio.Base.Int.{ℤ, pos, negsuc}
use libgrilio.Wire.{bytes_of_word}
use libgrilio.Channel.State.{PacketType}

-- hex[n] for a nibble.
abbrev pub digit : ℕ → ℕ
digit n = if ltb n 10 then 48 + n else 87 + n

-- The byte that stands at place `i` of the two buffers.
abbrev pub byte_at : List ℕ → List ℕ → ℕ → Option ℕ
byte_at data1 data2 i =
    if ltb i (length data1) then get_elem? data1 i else get_elem? data2 (i - length data1)

-- The spaces before place `i`.
abbrev pub gap : ℕ → List ℕ
gap i = if i == 0 then [] else if i == 8 then 32 ∷ 32 ∷ [] else 32 ∷ []

-- Two characters for a place, and what it adds to `total`.
abbrev pub cell : Option ℕ → List ℕ × ℕ
cell none = (32 ∷ 32 ∷ [], 0)
cell (some b) = (digit (b / 16 % 16) ∷ digit (b % 16) ∷ [], 1)

-- The first loop, with `n` rounds left: what it prints, and `total`.
unfoldable pub cells : List ℕ → List ℕ → ℕ → ℕ → List ℕ × ℕ
cells data1 data2 zero i = ([], 0)
cells data1 data2 (suc n) i =
    let (text, k) = cell (byte_at data1 data2 i) in
    let (rest, total) = cells data1 data2 n (i + 1) in (gap i ++ (text ++ rest), k + total)

-- A byte as a char.
abbrev pub char_of : ℕ → ℤ
char_of b = if ltb b 128 then pos b else negsuc (255 - b)

abbrev pub shown : (ℤ → Bool) → Option ℕ → ℕ
shown isprint none = 46
shown isprint (some b) = if isprint (char_of b) then b else 46

-- The second loop, with `n` rounds left.
unfoldable pub chars : (ℤ → Bool) → List ℕ → List ℕ → ℕ → ℕ → List ℕ
chars isprint data1 data2 zero i = []
chars isprint data1 data2 (suc n) i =
    let space : List ℕ = if i == 8 then 32 ∷ [] else [] in
    space ++ (shown isprint (byte_at data1 data2 i) ∷ chars isprint data1 data2 n (i + 1))

-- `grilio_log_hexdump_line`: what is written to `buf`, the 0 at the end included.
unfoldable pub hexdump_line : (ℤ → Bool) → List ℕ → List ℕ → List ℕ
hexdump_line isprint data1 data2 =
    let (text, total) = cells data1 data2 16 0 in
    text ++ (32 ∷ 32 ∷ 32 ∷ 32 ∷ (chars isprint data1 data2 total 0 ++ (0 ∷ [])))

-- The header that the row begins with, by the two switches of `grilio_channel_log_default`. The words
-- are stored in a buffer of which `header_len` bytes are printed.
unfoldable pub fake_header : PacketType → ℕ → ℕ → List ℕ
fake_header PacketType.req id code = bytes_of_word code ++ bytes_of_word id
fake_header PacketType.resp id code = bytes_of_word 0 ++ (bytes_of_word id ++ bytes_of_word code)
fake_header PacketType.unsol id code = bytes_of_word 1 ++ bytes_of_word code
fake_header PacketType.ack id code = bytes_of_word 2 ++ bytes_of_word id
fake_header PacketType.resp_ack_exp id code =
    bytes_of_word 3 ++ (bytes_of_word id ++ bytes_of_word code)
fake_header PacketType.unsol_ack_exp id code = bytes_of_word 4 ++ bytes_of_word code

-- A row: the direction, the offset into the data, and the bytes of the header and of the data.
pub record Row : Type 0 where
  pub dir : ℕ
  pub off : ℕ
  pub header : List ℕ
  pub bytes : List ℕ

-- while (header_len > 0 || off < data_len): `rest` is the data from `off` on.
unfoldable pub rows : ℕ → ℕ → ℕ → List ℕ → List ℕ → List Row
rows zero dir off header rest = []
rows (suc fuel) dir off header rest =
    let len = min (length rest) (16 - length header) in
    let more = rows fuel 32 (off + len) [] (drop len rest) in
    let row : Row = record { dir = dir; off = off; header = header; bytes = take len rest } in
    if ltb 0 (length header) || ltb 0 (length rest) then row ∷ more else []

abbrev pub direction : PacketType → ℕ
direction PacketType.req = 60
direction _ = 62

-- `grilio_channel_log_default`: the rows that are printed, each by `hexdump_line`. Each round but the
-- first takes a byte of the data at least.
unfoldable pub log_default : PacketType → ℕ → ℕ → List ℕ → List Row
log_default type id code data1 =
    rows (suc (suc (length data1))) (direction type) 0 (fake_header type id code) data1

abbrev pub print_row : (ℤ → Bool) → Row → ℕ × ℕ × List ℕ
print_row isprint r = (r.dir, r.off, hexdump_line isprint r.header r.bytes)

-- ===== src/Hexdump/Dump.antt =====
-- src/grilio_hexdump.c, grilio_channel_log_default: the rows show the whole packet.
use libgrilio.Base.{
  ℕ, zero, suc, ◌+◌, ◌-◌, ◌≤◌, ◌<◌, ◌≡◌, refl, ap, ◌∙◌, List, [], ◌∷◌, ◌++◌, arith, length,
  length-take, length-drop, min, take, drop, take-append-drop, All, append_assoc,
}
use libgrilio.Channel.State.{PacketType}
use libgrilio.Channel.Log.{legacy_data, ril_code, header_tail}
use libgrilio.Hexdump.{Row, rows, fake_header, log_default, direction}

-- The header in the rows is the one that the channel puts in front of a packet for a legacy logger,
-- and the data follows it.
fake_header-legacy_data :
    (type : PacketType) (id code : ℕ) (data1 : List ℕ)
    → fake_header type id code ++ data1 ≡ legacy_data type id code data1
unfolding fake_header legacy_data ril_code header_tail
fake_header-legacy_data PacketType.req id code data1 = refl
fake_header-legacy_data PacketType.resp id code data1 = refl
fake_header-legacy_data PacketType.unsol id code data1 = refl
fake_header-legacy_data PacketType.ack id code data1 = refl
fake_header-legacy_data PacketType.resp_ack_exp id code data1 = refl
fake_header-legacy_data PacketType.unsol_ack_exp id code data1 = refl

abbrev pub row_bytes : List Row → List ℕ
row_bytes [] = []
row_bytes (r ∷ l) = (r.header ++ r.bytes) ++ row_bytes l

-- What a row looks like: at most sixteen bytes, and at least one.
abbrev pub IsRow : Row → Type 0
IsRow r = (0 < length r.header + length r.bytes) × (length r.header + length r.bytes ≤ 16)

-- Rows that show the bytes, each a proper one.
abbrev ShowsRows : List ℕ → List Row → Type 0
ShowsRows l shown = (row_bytes shown ≡ l) × All IsRow shown

rows_done : (fuel dir off : ℕ) → rows fuel dir off [] [] ≡ []
unfolding rows
rows_done zero dir off = refl
rows_done (suc fuel) dir off = refl

rows_end : (n fuel dir off : ℕ) → ShowsRows (drop n []) (rows fuel dir off [] (drop n []))
rows_end zero fuel dir off = rw (rows_done fuel dir off) (refl, tt)
rows_end (suc n) fuel dir off = rw (rows_done fuel dir off) (refl, tt)

rows-cons :
    (header rest : List ℕ) (row : Row) (more : List Row) (len : ℕ)
    → row.header ≡ header
    → row.bytes ≡ take len rest
    → ShowsRows (drop len rest) more
    → IsRow row
    → ShowsRows (header ++ rest) (row ∷ more)
rows-cons header rest row more len h b s good = (
  rw (h, b, s.0)
      (append_assoc header (take len rest) (drop len rest)
        ∙ ap (λ l. header ++ l) (take-append-drop len rest)),
  (good, s.1),
)

abbrev size : List ℕ → List ℕ → ℕ
size header rest = min (length rest) (16 - length header)

abbrev first_row : ℕ → ℕ → List ℕ → List ℕ → Row
first_row dir off header rest = record {
  dir = dir;
  off = off;
  header = header;
  bytes = take (size header rest) rest;
}

-- A round of the loop that is not the last.
rows_next :
    (fuel dir off : ℕ) (header rest : List ℕ)
    → 0 < length header + length rest
    → rows (suc fuel) dir off header rest ≡ (
        first_row dir off header rest
        ∷ rows fuel 32 (off + size header rest) [] (drop (size header rest) rest))
unfolding rows
rows_next fuel dir off header rest h = ground arith

IsRow-good :
    (dir off : ℕ) (header rest : List ℕ)
    → length header ≤ 12
    → 0 < length header + length rest
    → IsRow (first_row dir off header rest)
IsRow-good dir off header rest h any =
    let n = length-take (size header rest) rest in (omega (arith, n), omega (arith, n))

rows-ShowsRows :
    (fuel dir off : ℕ) (header rest : List ℕ)
    → length header ≤ 12
    → length rest < fuel
    → ShowsRows (header ++ rest) (rows fuel dir off header rest)
rows-ShowsRows zero dir off header rest h f = absurd (omega arith)
rows-ShowsRows (suc fuel) dir off [] [] h f = rw (rows_done (suc fuel) dir off) (refl, tt)
rows-ShowsRows (suc fuel) dir off (x ∷ header) [] h f =
    let any : 0 < length (x ∷ header) + length {A = ℕ} [] = omega arith in
    let n = size (x ∷ header) [] in
    rw (rows_next fuel dir off (x ∷ header) [] any) (
      rows-cons (x ∷ header) [] (first_row dir off (x ∷ header) []) _ n refl refl
        (rows_end n fuel 32 (off + n)) (IsRow-good dir off (x ∷ header) [] h any))
rows-ShowsRows (suc fuel) dir off header (y ∷ rest) h f =
    let any : 0 < length header + length (y ∷ rest) = omega arith in
    let n = size header (y ∷ rest) in
    let left = length-drop n (y ∷ rest) in
    rw (rows_next fuel dir off header (y ∷ rest) any) (
      rows-cons header (y ∷ rest) (first_row dir off header (y ∷ rest)) _ n refl refl
        (rows-ShowsRows fuel 32 (off + n) [] (drop n (y ∷ rest)) (omega arith)
          (omega (arith, left)))
        (IsRow-good dir off header (y ∷ rest) h any))

length-fake_header : (type : PacketType) (id code : ℕ) → length (fake_header type id code) ≤ 12
unfolding fake_header
length-fake_header PacketType.req id code = omega arith
length-fake_header PacketType.resp id code = omega arith
length-fake_header PacketType.unsol id code = omega arith
length-fake_header PacketType.ack id code = omega arith
length-fake_header PacketType.resp_ack_exp id code = omega arith
length-fake_header PacketType.unsol_ack_exp id code = omega arith

-- The rows of the default logger together are what a legacy logger is shown: the header that the
-- socket would have carried, and the data. The loop ends, and each row has sixteen bytes at most and
-- one at least.
pub log_default-legacy_data :
    (type : PacketType) (id code : ℕ) (data1 : List ℕ)
    → (row_bytes (log_default type id code data1) ≡ legacy_data type id code data1)
      × All IsRow (log_default type id code data1)
unfolding log_default
log_default-legacy_data type id code data1 =
    let s =
      rows-ShowsRows (suc (suc (length data1))) (direction type) 0 (fake_header type id code) data1
        (length-fake_header type id code) (omega arith) in
    (s.0 ∙ fake_header-legacy_data type id code data1, s.1)

-- ===== src/Examples/Dumps.antt =====
-- src/grilio_hexdump.c at an acknowledged packet: a header and three bytes of data.
use libgrilio.Base.{
  if◌then◌else◌, ℕ, ◌-◌, ◌≤◌, ◌≡◌, true, Bool, ◌&&◌, List, [], ◌∷◌, ◌++◌, ltb, arith, length, All,
  false,
}
use libgrilio.Base.Int.{ℤ, pos, negsuc}
use libgrilio.Channel.State.{PacketType}
use libgrilio.Channel.Log.{legacy_data}
use libgrilio.Hexdump.{hexdump_line, log_default}
use libgrilio.Hexdump.Line.{read_row, read_row-hexdump_line}
use libgrilio.Hexdump.Shown.{IsColumn, IsPrint, row_text, hexdump_line-IsColumn}
use libgrilio.Hexdump.Dump.{row_bytes, IsRow, log_default-legacy_data}

-- The printing characters of ASCII.
abbrev printing : ℤ → Bool
printing (pos n) = ltb 31 n && ltb n 127
printing (negsuc n) = false

abbrev front : List ℕ
front = 3 ∷ 0 ∷ 0 ∷ 0 ∷ []

abbrev back : List ℕ
back = 65 ∷ 200 ∷ 10 ∷ []

read_row-hexdump_line_example : read_row 16 0 (hexdump_line printing front back) ≡ front ++ back
read_row-hexdump_line_example =
    read_row-hexdump_line printing front back (ground arith) (omega arith)

log_default-legacy_data_example :
    (row_bytes (log_default PacketType.resp_ack_exp 9 0 back)
      ≡ legacy_data PacketType.resp_ack_exp 9 0 back)
    × All IsRow (log_default PacketType.resp_ack_exp 9 0 back)
log_default-legacy_data_example = log_default-legacy_data PacketType.resp_ack_exp 9 0 back

printing-IsPrint : IsPrint printing
printing-IsPrint b = printing-if (ltb b 128)
  where
    printing-if : (c : Bool) → printing (if c then pos b else negsuc (255 - b)) ≡ true → IsColumn b
    printing-if true h = ground arith
    printing-if false h = ground arith

hexdump_line-IsColumn_example :
    (hexdump_line printing front back ≡ row_text printing front back ++ (0 ∷ []))
    × All IsColumn (row_text printing front back)
    × (length (hexdump_line printing front back) ≤ 70)
hexdump_line-IsColumn_example = hexdump_line-IsColumn printing front back printing-IsPrint

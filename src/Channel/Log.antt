-- ===== src/Channel/Log.antt =====
-- src/grilio_channel.c: the loggers. A legacy logger is shown a packet with the header that the
-- socket would have carried; the others are shown the payload.
use libgrilio.Base.{
  ℕ, ◌+◌, ◌%◌, ◌^◌, Bool, true, false, Option, none, some, List, [], ◌∷◌, ◌++◌, ◌==◌, if◌then◌else◌,
}
use libgrilio.Wire.{bytes_of_word}
use libgrilio.Channel.State.{Channel, Logger, PacketType, Event}

-- `ril_code`, the first word of the header.
unfoldable pub ril_code : PacketType → ℕ → ℕ
ril_code PacketType.req code = code
ril_code PacketType.resp code = 0
ril_code PacketType.unsol code = 1
ril_code PacketType.ack code = 2
ril_code PacketType.resp_ack_exp code = 3
ril_code PacketType.unsol_ack_exp code = 4

-- The words after it, `header[1]` and `header[2]`.
unfoldable pub header_tail : PacketType → ℕ → ℕ → List ℕ
header_tail PacketType.req id code = bytes_of_word id
header_tail PacketType.ack id code = bytes_of_word id
header_tail PacketType.unsol id code = bytes_of_word code
header_tail PacketType.unsol_ack_exp id code = bytes_of_word code
header_tail PacketType.resp id code = bytes_of_word id ++ bytes_of_word code
header_tail PacketType.resp_ack_exp id code = bytes_of_word id ++ bytes_of_word code

unfoldable pub legacy_data : PacketType → ℕ → ℕ → List ℕ → List ℕ
unfolding ril_code header_tail
legacy_data type id code payload =
    bytes_of_word (ril_code type code) ++ (header_tail type id code ++ payload)

unfoldable pub log_to : List Logger → PacketType → ℕ → ℕ → List ℕ → List Event → List Event
log_to [] type id code payload out = out
log_to (l ∷ loggers) type id code payload out = log_to loggers type id code payload (
    Event.logged l.id type id code (if l.legacy then legacy_data type id code payload else payload)
    ∷ out)

-- `grilio_channel_log`
unfoldable pub log : PacketType → ℕ → ℕ → List ℕ → Channel → Channel
unfolding log_to legacy_data
log type id code payload c = record c { out = log_to c.log_list type id code payload c.out }

-- `grilio_channel_logger_add`; ids are not 0. A NULL callback adds nothing.
unfoldable pub logger_add : Bool → Option ℕ → ℕ → Channel → ℕ × Channel
logger_add legacy none user_data c = (0, c)
logger_add legacy (some f) user_data c =
    let next : ℕ = (c.last_logger_id + 1) % 2 ^ 32 in
    let id : ℕ = if next == 0 then 1 else next in
    let logger : Logger = record { id = id; log = f; user_data = user_data; legacy = legacy } in
    (id, record c { last_logger_id = id; log_list = c.log_list ++ (logger ∷ []) })

-- `grilio_channel_add_logger` and `grilio_channel_add_logger2`
unfoldable pub add_logger : Option ℕ → ℕ → Channel → ℕ × Channel
add_logger log_func user_data c = logger_add true log_func user_data c

unfoldable pub add_logger2 : Option ℕ → ℕ → Channel → ℕ × Channel
add_logger2 log_func user_data c = logger_add false log_func user_data c

unfoldable pub delete_logger : ℕ → List Logger → List Logger
delete_logger id [] = []
delete_logger id (l ∷ loggers) = if l.id == id then loggers else l ∷ delete_logger id loggers

-- `grilio_channel_remove_logger`
unfoldable pub remove_logger : ℕ → Channel → Channel
unfolding delete_logger
remove_logger id c = if id == 0 then c else record c { log_list = delete_logger id c.log_list }

-- ===== src/Channel/Loggers.antt =====
-- src/grilio_channel.c, grilio_channel_add_logger and grilio_channel_remove_logger.
use libgrilio.Base.{
  ℕ, ◌+◌, ◌%◌, ◌^◌, ◌≡◌, ◌≢◌, refl, ◌∙◌, Bool, some, List, [], ◌∷◌, ◌++◌, ◌==◌, if◌then◌else◌, All,
  arith,
}
use libgrilio.Channel.State.{Channel, Logger}
use libgrilio.Channel.Log.{logger_add, delete_logger, remove_logger}

-- Nobody has the id yet.
abbrev pub IsNew : ℕ → List Logger → Type 0
IsNew id loggers = All (λ l. l.id ≢ id) loggers

delete_logger-snoc :
    (id : ℕ) (l : Logger) (loggers : List Logger)
    → l.id ≡ id
    → IsNew id loggers
    → delete_logger id (loggers ++ (l ∷ [])) ≡ loggers
unfolding delete_logger
delete_logger-snoc id l [] e h = ground arith
delete_logger-snoc id l (x ∷ loggers) e h = ground (arith, delete_logger-snoc id l loggers e h.1)

remove_logger-found :
    (id : ℕ) (c : Channel) → id ≢ 0 → (remove_logger id c).log_list ≡ delete_logger id c.log_list
unfolding remove_logger
remove_logger-found id c h = ground arith

-- Adding a logger gives an id other than 0, and where no logger has this id, removing it by the id
-- leaves the loggers that were there.
pub remove_logger-logger_add :
    (legacy : Bool) (f user_data : ℕ) (c : Channel)
    → IsNew (logger_add legacy (some f) user_data c).0 c.log_list
    → ((logger_add legacy (some f) user_data c).0 ≢ 0)
      × ((remove_logger
            (logger_add legacy (some f) user_data c).0
            (logger_add legacy (some f) user_data c).1).log_list
          ≡ c.log_list)
unfolding logger_add
remove_logger-logger_add legacy f user_data c h =
    let next : ℕ = (c.last_logger_id + 1) % 2 ^ 32 in
    let id : ℕ = if next == 0 then 1 else next in
    let logger : Logger = record { id = id; log = f; user_data = user_data; legacy = legacy } in
    let positive : id ≢ 0 = ground arith in
    (
      positive,
      remove_logger-found id (logger_add legacy (some f) user_data c).1 positive
          ∙ delete_logger-snoc id logger c.log_list refl h,
    )

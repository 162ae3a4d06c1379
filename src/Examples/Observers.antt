-- ===== src/Examples/Observers.antt =====
-- src/grilio_channel.c: loggers and injected events of a channel that is not connected yet, and a
-- response that comes in through the socket.
use libgrilio.Base.{ℕ, ◌≡◌, ◌≢◌, refl, true, false, some, none, List, [], ◌∷◌, ◌++◌, arith}
use libgrilio.Request.{Request, Status, request_new}
use libgrilio.Channel.State.{Channel, Env, Logger, SendStatus}
use libgrilio.Channel.Log.{logger_add, remove_logger}
use libgrilio.Channel.Loggers.{remove_logger-logger_add}
use libgrilio.Channel.Response.{ResponseType, handle_response, process_injects_cb}
use libgrilio.Channel.Injects.{inject_all, signals, process_injects_cb-inject_all}
use libgrilio.Channel.Api.{init}
use libgrilio.Socket.Life.{with_sub}
use libgrilio.Wiring.{receive}
use libgrilio.Wiring.Packets.{response, receive-handle_response}

abbrev offline : Env
offline = record { now = 5000; send = λ p. SendStatus.ok }

abbrev sent_seven : ℕ → Request
sent_seven p = record request_new { status = Status.sent; id = 7; current_id = 7 }

abbrev no_queues : ℕ → List ℕ
no_queues q = []

abbrev older : Logger
older = record { id = 1; log = 20; user_data = 0; legacy = true }

abbrev observed : Channel
observed = record (init sent_seven no_queues) {
  req_table = (7, 1) ∷ [];
  last_logger_id = 1;
  log_list = older ∷ [];
}

remove_logger-logger_add_example :
    ((logger_add false (some 21) 0 observed).0 ≢ 0)
    × ((remove_logger
          (logger_add false (some 21) 0 observed).0
          (logger_add false (some 21) 0 observed).1).log_list
        ≡ observed.log_list)
unfolding logger_add init
remove_logger-logger_add_example = remove_logger-logger_add false 21 0 observed (ground arith)

abbrev two_events : List (ℕ × List ℕ)
two_events = (1000, 1 ∷ []) ∷ (1001, []) ∷ []

process_injects_cb-inject_all_example :
    ((process_injects_cb (inject_all two_events observed)).out ≡ signals two_events ++ observed.out)
    × ((process_injects_cb (inject_all two_events observed)).injects ≡ [])
unfolding init
process_injects_cb-inject_all_example = process_injects_cb-inject_all two_events observed refl

-- The answer to request 7, of status 2, with a word of data.
receive-handle_response_example :
    receive offline 20 0 9
      (with_sub none)
      (0 ∷ 0 ∷ 0 ∷ 16 ∷ response 7 2 (5 ∷ 0 ∷ 0 ∷ 0 ∷ []))
      observed
    ≡ handle_response offline ResponseType.solicited 7 2 (5 ∷ 0 ∷ 0 ∷ 0 ∷ []) 9 observed
receive-handle_response_example =
    receive-handle_response offline 0 9 (with_sub none) observed 0 0 0 16 7 2 (5 ∷ 0 ∷ 0 ∷ 0 ∷ [])
      refl refl refl refl (omega arith) (omega arith) (omega arith)

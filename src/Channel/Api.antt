-- ===== src/Channel/Api.antt =====
-- src/grilio_channel.c: the calls that submit, look up, cancel, drop and retry a request, serialize
-- the channel, and set its timeouts. A call with a NULL channel does nothing and is left out.
use libgrilio.Base.{
  ℕ, Bool, true, false, not, ◌||◌, Option, none, some, List, [], ltb, ◌==◌, if◌then◌else◌,
}
use libgrilio.Base.Table.{lookup, remove, insert}
use libgrilio.Base.Int.{ℤ, negsuc, is_positive, to_ℕ, int_eq}
use libgrilio.Request.{Request, Status, status_eq, request_new, timeout_default, timeout_none}
use libgrilio.Channel.Ids.{generate_id}
use libgrilio.Channel.State.{Channel, Env, Event, modify, emit, ref, unref}
use libgrilio.Channel.Timers.{reset_pending_timeout, reset_timeout, update_pending}
use libgrilio.Channel.Send.{find_first, unlink, or_else, queue_request, serialized}
use libgrilio.Channel.Write.{schedule_write}
use libgrilio.Channel.Retry.{table_insert, pending_remove, remove_request, requeue_request, respond}
use libgrilio.Channel.Response.{drop_pending_injects}

-- `grilio_channel_init`: an object that GObject has filled with 0; `reqs` and `queues` are what the
-- callers hold.
unfoldable pub init : (ℕ → Request) → (ℕ → List ℕ) → Channel
init reqs queues = record {
  connected = false;
  ril_version = 0;
  reqs = reqs;
  queues = queues;
  send_req = none;
  last_req_id = 0;
  last_logger_id = 0;
  req_table = [];
  pending = [];
  last_pending = false;
  pending_timeout = 30000;
  pending_timeout_id = none;
  next_pending_deadline = 0;
  log_list = [];
  last_block_id = 0;
  block_ids = [];
  block_req = none;
  owner = none;
  owner_queue = [];
  timeout = timeout_none;
  timeout_id = none;
  next_deadline = 0;
  retry_req = [];
  first_req = [];
  processing_injects = false;
  process_injects_id = false;
  injects = [];
  out = [];
}

-- What `grilio_channel_send_request_full` puts into a request.
abbrev pub address : ℕ → ℕ → Option ℕ → Option ℕ → ℕ → Request → Request
address id code response destroy user_data r = record r {
  id = id;
  current_id = id;
  code = code;
  response = response;
  destroy = destroy;
  user_data = user_data;
}

-- The request is addressed, tabled and queued.
unfoldable pub enqueue : ℕ → ℕ → Option ℕ → Option ℕ → ℕ → Channel → ℕ × Channel
unfolding modify table_insert ref queue_request
enqueue p code response destroy user_data c =
    let id = generate_id c.req_table c.last_req_id in
    let d : Channel =
      modify p (address id code response destroy user_data) (record c { last_req_id = id }) in
    (id, queue_request p (ref p (table_insert id p d)))

-- `grilio_channel_send_request_full` on a request, and on NULL, for which `fresh` is allocated.
unfoldable pub send_request_full :
    Env → Option ℕ → ℕ → ℕ → Option ℕ → Option ℕ → ℕ → Channel → ℕ × Channel
send_request_full e (some p) fresh code response destroy user_data c =
    if status_eq (c.reqs p).status Status.new
    then (let (id, d) = enqueue p code response destroy user_data c in (id, schedule_write e d))
    else (0, c)
send_request_full e none fresh code response destroy user_data c =
    let (id, d) =
      enqueue fresh code response destroy user_data (modify fresh (λ _. request_new) c) in
    (id, unref (some fresh) (schedule_write e d))

-- `grilio_channel_send_request`
unfoldable pub send_request : Env → Option ℕ → ℕ → ℕ → Channel → ℕ × Channel
send_request e req fresh code c = send_request_full e req fresh code none none 0 c

abbrev pub has_id : ℕ → Channel → ℕ → Bool
has_id id c p = (c.reqs p).id == id

abbrev pub holds_id : ℕ → Channel → Option ℕ → Bool
holds_id id c none = false
holds_id id c (some p) = has_id id c p

-- `grilio_channel_get_request`
unfoldable pub get_request : ℕ → Channel → Option ℕ
get_request id c =
    if id == 0
    then none
    else if holds_id id c c.send_req
    then c.send_req
    else if holds_id id c c.block_req
    then c.block_req
    else or_else (lookup id c.req_table)
        (or_else (find_first (has_id id c) c.first_req) (find_first (has_id id c) c.retry_req))

-- if (notify && req->response) req->response(self, GRILIO_STATUS_CANCELLED, ...)
unfoldable pub notify_cancelled : Bool → ℕ → Channel → Channel
unfolding respond
notify_cancelled notify p c = if notify then respond p (negsuc 0) [] c else c

unfoldable pub mark_cancelled : ℕ → Channel → Channel
unfolding modify
mark_cancelled p c = modify p (λ r. record r { status = Status.cancelled }) c

-- The request that is being sent.
unfoldable pub cancel_sending : Env → Bool → ℕ → Option ℕ → Channel → Bool × Channel
cancel_sending e notify p block c =
    if status_eq (c.reqs p).status Status.cancelled then (false, unref block c) else (
      true,
      schedule_write e
          (unref block (notify_cancelled notify p (remove_request p (mark_cancelled p c)))),
    )

-- A request that waits in the send queue.
unfoldable pub cancel_queued : Env → Bool → ℕ → Option ℕ → Channel → Channel
cancel_queued e notify p block c =
    let d = remove_request p (record c { first_req = unlink p c.first_req }) in
    schedule_write e (unref block (unref (some p) (notify_cancelled notify p (mark_cancelled p d))))

-- A request that was sent and is not yet answered.
unfoldable pub cancel_tabled : Env → Bool → ℕ → Option ℕ → Channel → Channel
cancel_tabled e notify p block c =
    let d = mark_cancelled p (remove_request p (ref p c)) in
    schedule_write e (reset_timeout e (unref block (unref (some p) (notify_cancelled notify p d))))

-- A request that waits for its next try.
unfoldable pub cancel_waiting : Env → Bool → ℕ → Option ℕ → Channel → Channel
cancel_waiting e notify p block c =
    let d = mark_cancelled p (record c { retry_req = unlink p c.retry_req }) in
    schedule_write e (
      reset_timeout e
        (unref block (unref (some p) (notify_cancelled notify p (remove_request p d)))))

-- Where the request is looked for, once it is not the one being sent.
unfoldable pub cancel_found :
    Env → Bool → Option ℕ → Option ℕ → Option ℕ → Option ℕ → Channel → Bool × Channel
cancel_found e notify block (some p) tabled waiting c = (true, cancel_queued e notify p block c)
cancel_found e notify block none (some p) waiting c = (true, cancel_tabled e notify p block c)
cancel_found e notify block none none (some p) c = (true, cancel_waiting e notify p block c)
cancel_found e notify block none none none c = (false, c)

-- The blocking request is taken out first if it is the one.
abbrev pub lift_block : ℕ → Channel → Option ℕ × Channel
lift_block id c =
    if holds_id id c c.block_req then (c.block_req, record c { block_req = none }) else (none, c)

abbrev pub send_match : ℕ → Channel → Option ℕ
send_match id c = if holds_id id c c.send_req then c.send_req else none

-- `grilio_channel_cancel_request`
unfoldable pub cancel_request : Env → ℕ → Bool → Channel → Bool × Channel
cancel_request e id notify c =
    let (block, d) = lift_block id c in
    if id == 0 then (false, c) else elim (send_match id d) [
      | some p ↦ cancel_sending e notify p block d
      | none ↦
          cancel_found e notify block (find_first (has_id id d) d.first_req) (lookup id d.req_table)
            (find_first (has_id id d) d.retry_req) d
    ]

-- `grilio_channel_drop_request`
unfoldable pub drop_pending : Env → ℕ → Option ℕ → Channel → Channel
drop_pending e id none c = c
drop_pending e id (some p) c = update_pending (
    schedule_write e
      (reset_pending_timeout e (pending_remove id (modify p (λ r. record r { submitted = 0 }) c))))

unfoldable pub drop_request : Env → ℕ → Channel → Channel
drop_request e id c =
    let d : Channel = (cancel_request e id false c).1 in drop_pending e id (lookup id d.pending) d

-- `grilio_channel_retry_request`
unfoldable pub retry_now : Env → Option ℕ → Channel → Bool × Channel
retry_now e none c = (false, c)
retry_now e (some p) c =
    (true, reset_timeout e (requeue_request e p (record c { retry_req = unlink p c.retry_req })))

abbrev pub is_some : Option ℕ → Bool
is_some none = false
is_some (some p) = true

unfoldable pub retry_request : Env → ℕ → Channel → Bool × Channel
retry_request e id c =
    if id == 0
    then (false, c)
    else if holds_id id c c.block_req
    then (false, c)
    else if is_some (find_first (has_id id c) c.first_req)
    then (true, c)
    else if is_some (lookup id c.req_table)
    then (false, c)
    else retry_now e (find_first (has_id id c) c.retry_req) c

-- `grilio_channel_serialize`
unfoldable pub serialize : Channel → ℕ × Channel
serialize c =
    let id = generate_id c.block_ids c.last_block_id in
    (id, record c { last_block_id = id; block_ids = insert id id c.block_ids })

-- The last serialization lifted, a request that is not blocking by itself blocks no more.
unfoldable pub lift_barrier : Channel → Channel
lift_barrier c = elim c.block_req [
  | none ↦ c
  | some p ↦ if (c.reqs p).blocking then c else record (unref (some p) c) { block_req = none }
]

-- `grilio_channel_deserialize`
unfoldable pub deserialize : Env → ℕ → Channel → Channel
deserialize e id c =
    let d : Channel = record c { block_ids = remove id c.block_ids } in
    if id == 0 || not (serialized c)
    then c
    else if serialized d
    then d
    else schedule_write e (lift_barrier d)

-- `grilio_channel_set_timeout`
unfoldable pub set_timeout : ℤ → Channel → Channel
set_timeout ms c = record c { timeout = if int_eq ms timeout_default then timeout_none else ms }

-- `grilio_channel_set_pending_timeout`
unfoldable pub set_pending_timeout : Env → ℤ → Channel → Channel
set_pending_timeout e ms c =
    let d : Channel = record c { pending_timeout = to_ℕ ms } in
    if not (is_positive ms)
    then c
    else if ltb c.pending_timeout (to_ℕ ms)
    then reset_pending_timeout e d
    else d

-- `grilio_channel_shutdown`
unfoldable pub shutdown : Channel → Channel
shutdown c = drop_pending_injects (emit Event.transport_shutdown c)

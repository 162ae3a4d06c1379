-- ===== src/Channel/Life/History.antt =====
-- src/grilio_channel.c, src/grilio_queue.c, src/grilio_request.c: a channel that has been made, and what
-- has happened to it since. A handler and a call is a step, and a callback's own calls are further steps,
-- so the steps come in any order. `fresh` is memory that the allocator gives.
use libgrilio.Base.{ℕ, ◌≡◌, Bool, Option, some, List}
use libgrilio.Base.Int.{ℤ}
use libgrilio.Request.{Request, Status, request_new}
use libgrilio.Channel.State.{Channel, Env, modify, ref, unref}
use libgrilio.Channel.Log.{logger_add, remove_logger}
use libgrilio.Channel.Retry.{pending_timeout, timeout}
use libgrilio.Channel.Response.{
  ResponseType, IndicationType, handle_response, handle_request_sent, handle_connected,
  handle_disconnected, handle_error, handle_indication, process_injects_cb, inject_unsol_event,
}
use libgrilio.Channel.Transaction.{transaction_start, transaction_finish}
use libgrilio.Channel.Api.{
  init, send_request_full, cancel_request, drop_request, retry_request, serialize, deserialize,
  set_timeout, set_pending_timeout, shutdown,
}
use libgrilio.Channel.Cancel.{cancel_all, dispose}
use libgrilio.Queue.{queue_send_request_full, queue_cancel_request, queue_cancel_all, queue_free}
use libgrilio.Channel.Life.Index.{mark}
use libgrilio.Channel.Life.Entering.{IsFree}

pub data Reach : Channel → Type 0 where
  made :
      (reqs : ℕ → Request) (queues : ℕ → List ℕ)
      → ((q : ℕ) → (reqs q).status ≡ Status.new → (reqs q).deadline ≡ 0)
      → Reach (init reqs queues)
  -- What a client does to a request of its own: it is allocated, set up, kept and given back.
  allocated :
      {c : Channel} (fresh : ℕ)
      → IsFree fresh c
      → Reach c
      → Reach (modify fresh (λ _. request_new) c)
  set_up :
      {c : Channel} (p : ℕ) (f : Request → Request)
      → ((r : Request) → mark (f r) ≡ mark r)
      → Reach c
      → Reach (modify p f c)
  kept : {c : Channel} (p : ℕ) → Reach c → Reach (ref p c)
  given_back : {c : Channel} (p : ℕ) → Reach c → Reach (unref (some p) c)
  -- The calls on a channel.
  submitted :
      {c : Channel} (e : Env) (req : Option ℕ) (fresh code : ℕ) (response destroy : Option ℕ)
      (user_data : ℕ)
      → IsFree fresh c
      → Reach c
      → Reach (send_request_full e req fresh code response destroy user_data c).1
  cancelled :
      {c : Channel} (e : Env) (id : ℕ) (notify : Bool)
      → Reach c
      → Reach (cancel_request e id notify c).1
  dropped : {c : Channel} (e : Env) (id : ℕ) → Reach c → Reach (drop_request e id c)
  retried : {c : Channel} (e : Env) (id : ℕ) → Reach c → Reach (retry_request e id c).1
  all_cancelled : {c : Channel} (notify : Bool) → Reach c → Reach (cancel_all notify c)
  serialized : {c : Channel} → Reach c → Reach (serialize c).1
  deserialized : {c : Channel} (e : Env) (id : ℕ) → Reach c → Reach (deserialize e id c)
  timeout_set : {c : Channel} (ms : ℤ) → Reach c → Reach (set_timeout ms c)
  pending_timeout_set :
      {c : Channel} (e : Env) (ms : ℤ) → Reach c → Reach (set_pending_timeout e ms c)
  logger_added :
      {c : Channel} (legacy : Bool) (f : Option ℕ) (user_data : ℕ)
      → Reach c
      → Reach (logger_add legacy f user_data c).1
  logger_removed : {c : Channel} (id : ℕ) → Reach c → Reach (remove_logger id c)
  injected :
      {c : Channel} (code : ℕ) (body : List ℕ) → Reach c → Reach (inject_unsol_event code body c)
  shut_down : {c : Channel} → Reach c → Reach (shutdown c)
  disposed : {c : Channel} → Reach c → Reach (dispose c)
  -- The calls on a queue.
  transaction_started : {c : Channel} (q : ℕ) → Reach c → Reach (transaction_start q c).1
  transaction_finished :
      {c : Channel} (e : Env) (q : ℕ) → Reach c → Reach (transaction_finish e q c)
  queue_submitted :
      {c : Channel} (e : Env) (q : ℕ) (req : Option ℕ) (fresh code : ℕ)
      (response destroy : Option ℕ) (user_data : ℕ)
      → IsFree fresh c
      → Reach c
      → Reach (queue_send_request_full e q req fresh code response destroy user_data c).1
  queue_cancelled :
      {c : Channel} (e : Env) (q id : ℕ) (notify : Bool)
      → Reach c
      → Reach (queue_cancel_request e q id notify c).1
  queue_all_cancelled :
      {c : Channel} (e : Env) (q : ℕ) (notify : Bool)
      → Reach c
      → Reach (queue_cancel_all e q notify c)
  queue_freed : {c : Channel} (e : Env) (q : ℕ) → Reach c → Reach (queue_free e q c)
  -- The sources of the main loop.
  expired : {c : Channel} (e : Env) → Reach c → Reach (timeout e c)
  pending_expired : {c : Channel} (e : Env) → Reach c → Reach (pending_timeout e c)
  injects_processed : {c : Channel} → Reach c → Reach (process_injects_cb c)
  -- The signals of the transport.
  connected :
      {c : Channel} (e : Env) (version offset : ℕ)
      → Reach c
      → Reach (handle_connected e version offset c)
  disconnected : {c : Channel} → Reach c → Reach (handle_disconnected c)
  failed : {c : Channel} → Reach c → Reach (handle_error c)
  answered :
      {c : Channel} (e : Env) (type : ResponseType) (id status : ℕ) (resp : List ℕ) (fresh : ℕ)
      → IsFree fresh c
      → Reach c
      → Reach (handle_response e type id status resp fresh c)
  indicated :
      {c : Channel} (e : Env) (type : IndicationType) (code : ℕ) (body : List ℕ) (fresh : ℕ)
      → IsFree fresh c
      → Reach c
      → Reach (handle_indication e type code body fresh c)
  sent : {c : Channel} (e : Env) (p : ℕ) → Reach c → Reach (handle_request_sent e p c)

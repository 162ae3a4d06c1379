-- ===== src/Channel/Life/Always.antt =====
-- src/grilio_channel.c: what holds of a channel at any time.
use libgrilio.Base.{
  ℕ, ◌≡◌, refl, subst, inl, inr, Bool, Option, none, some, List, [], ◌∷◌, arith, ◌==◌, Bool-cases,
}
use libgrilio.Base.Int.{ℤ}
use libgrilio.Base.Table.{lookup}
use libgrilio.Request.{Request, Status}
use libgrilio.Channel.State.{Channel, modify, ref, unref}
use libgrilio.Channel.Send.{elem}
use libgrilio.Channel.Log.{logger_add, remove_logger}
use libgrilio.Channel.Response.{
  handle_disconnected, handle_error, process_injects, process_injects_cb, inject_unsol_event,
  drop_pending_injects,
}
use libgrilio.Channel.Api.{init, serialize, set_timeout, set_pending_timeout, shutdown}
use libgrilio.Channel.Cancel.{cancel_all}
use libgrilio.Channel.Cancel.Table.{IsFiled}
use libgrilio.Channel.Cancel.Emptied.{IsEmptied, cancel_all-IsEmptied}
use libgrilio.Channel.Life.Index.{
  Mark, IsConsistent, IsConsistent-index, IsEntry, IsFiledIn, index, index-if, modify-index_same,
  ref-index, unref-index,
}
use libgrilio.Channel.Life.Entering.{fresh-IsConsistent, send_request_full-IsConsistent}
use libgrilio.Channel.Life.Answers.{
  handle_response-IsConsistent, handle_request_sent-IsConsistent, handle_connected-IsConsistent,
  handle_indication-IsConsistent,
}
use libgrilio.Channel.Life.Collecting.{pending_timeout-IsConsistent}
use libgrilio.Channel.Life.Due.{timeout-IsConsistent}
use libgrilio.Channel.Life.Calls.{
  cancel_request-IsConsistent, drop_request-IsConsistent, deserialize-IsConsistent,
  set_pending_timeout-index,
}
use libgrilio.Channel.Life.Ending.{
  retry_request-IsConsistent, cancel_all-IsConsistent, dispose-IsConsistent,
}
use libgrilio.Channel.Life.Queues.{
  transaction_start-IsConsistent, transaction_finish-IsConsistent,
  queue_send_request_full-IsConsistent, queue_cancel_request-IsConsistent,
  queue_cancel_all-IsConsistent, queue_free-IsConsistent,
}
use libgrilio.Channel.Life.History.{Reach}

init-IsConsistent :
    (reqs : ℕ → Request) (queues : ℕ → List ℕ)
    → ((q : ℕ) → (reqs q).status ≡ Status.new → (reqs q).deadline ≡ 0)
    → IsConsistent (index (init reqs queues))
unfolding init elem
init-IsConsistent reqs queues new = record {
  idle = new;
  queued = λ q h. cc;
  waiting = λ q h. cc;
  apart = λ q h. cc;
  queued_once = refl;
  waiting_once = refl;
  ordered = tt;
  filed = tt;
  owned = refl;
  line_once = refl;
}

logger_add-index :
    (legacy : Bool) (f : Option ℕ) (user_data : ℕ) (c : Channel)
    → index (logger_add legacy f user_data c).1 ≡ index c
unfolding logger_add
logger_add-index legacy none user_data c = refl
logger_add-index legacy (some f) user_data c = refl

remove_logger-index : (id : ℕ) (c : Channel) → index (remove_logger id c) ≡ index c
unfolding remove_logger
remove_logger-index id c = index-if (id == 0) c _ c refl refl

serialize-index : (c : Channel) → index (serialize c).1 ≡ index c
unfolding serialize
serialize-index c = refl

set_timeout-index : (ms : ℤ) (c : Channel) → index (set_timeout ms c) ≡ index c
unfolding set_timeout
set_timeout-index ms c = refl

inject_unsol_event-index :
    (code : ℕ) (body : List ℕ) (c : Channel) → index (inject_unsol_event code body c) ≡ index c
unfolding inject_unsol_event
inject_unsol_event-index code body c = refl

shutdown-index : (c : Channel) → index (shutdown c) ≡ index c
unfolding shutdown drop_pending_injects
shutdown-index c = refl

process_injects_cb-index : (c : Channel) → index (process_injects_cb c) ≡ index c
unfolding process_injects_cb process_injects
process_injects_cb-index c = refl

handle_disconnected-index : (c : Channel) → index (handle_disconnected c) ≡ index c
unfolding handle_disconnected
handle_disconnected-index c = refl

handle_error-index : (c : Channel) → index (handle_error c) ≡ index c
unfolding handle_error
handle_error-index c = refl

-- For a channel that has been made while no request that is new had a deadline, and after any sequence of
-- handlers, timeouts and calls of clients, on the channel, on its requests and on its queues, in any
-- order, where what is allocated is memory that no list refers to: a request that is new has no
-- deadline; a request in the send queue is queued or was cancelled there, and has no deadline; one in
-- the retry queue waits or was cancelled there; no request is twice in a queue, or in both; the retry
-- queue is in the order of the deadlines; an entry of the table is a request that is queued, being sent
-- or sent, under one of its ids; nobody waits for a channel without an owner, and nobody stands twice in
-- the line of owner and waiting queues.
pub Reach-IsConsistent : {c : Channel} → Reach c → IsConsistent (index c)
Reach-IsConsistent (Reach.made reqs queues new) = init-IsConsistent reqs queues new
Reach-IsConsistent (Reach.allocated {c} fresh f r) =
    fresh-IsConsistent fresh c f (Reach-IsConsistent r)
Reach-IsConsistent (Reach.set_up {c} p f same r) =
    IsConsistent-index c (modify p f c) (modify-index_same p f c same) (Reach-IsConsistent r)
Reach-IsConsistent (Reach.kept {c} p r) =
    IsConsistent-index c (ref p c) (ref-index p c) (Reach-IsConsistent r)
Reach-IsConsistent (Reach.given_back {c} p r) =
    IsConsistent-index c (unref (some p) c) (unref-index (some p) c) (Reach-IsConsistent r)
Reach-IsConsistent (Reach.submitted {c} e req fresh code response destroy user_data f r) =
    send_request_full-IsConsistent e req fresh code response destroy user_data c f
      (Reach-IsConsistent r)
Reach-IsConsistent (Reach.cancelled {c} e id notify r) =
    cancel_request-IsConsistent e id notify c (Reach-IsConsistent r)
Reach-IsConsistent (Reach.dropped {c} e id r) =
    drop_request-IsConsistent e id c (Reach-IsConsistent r)
Reach-IsConsistent (Reach.retried {c} e id r) =
    retry_request-IsConsistent e id c (Reach-IsConsistent r)
Reach-IsConsistent (Reach.all_cancelled {c} notify r) =
    cancel_all-IsConsistent notify c (Reach-IsConsistent r)
Reach-IsConsistent (Reach.serialized {c} r) =
    IsConsistent-index c (serialize c).1 (serialize-index c) (Reach-IsConsistent r)
Reach-IsConsistent (Reach.deserialized {c} e id r) =
    deserialize-IsConsistent e id c (Reach-IsConsistent r)
Reach-IsConsistent (Reach.timeout_set {c} ms r) =
    IsConsistent-index c (set_timeout ms c) (set_timeout-index ms c) (Reach-IsConsistent r)
Reach-IsConsistent (Reach.pending_timeout_set {c} e ms r) =
    IsConsistent-index c (set_pending_timeout e ms c) (set_pending_timeout-index e ms c)
      (Reach-IsConsistent r)
Reach-IsConsistent (Reach.logger_added {c} legacy f user_data r) =
    IsConsistent-index c (logger_add legacy f user_data c).1 (logger_add-index legacy f user_data c)
      (Reach-IsConsistent r)
Reach-IsConsistent (Reach.logger_removed {c} id r) =
    IsConsistent-index c (remove_logger id c) (remove_logger-index id c) (Reach-IsConsistent r)
Reach-IsConsistent (Reach.injected {c} code body r) =
    IsConsistent-index c (inject_unsol_event code body c) (inject_unsol_event-index code body c)
      (Reach-IsConsistent r)
Reach-IsConsistent (Reach.shut_down {c} r) =
    IsConsistent-index c (shutdown c) (shutdown-index c) (Reach-IsConsistent r)
Reach-IsConsistent (Reach.disposed {c} r) = dispose-IsConsistent c (Reach-IsConsistent r)
Reach-IsConsistent (Reach.transaction_started {c} q r) =
    transaction_start-IsConsistent q c (Reach-IsConsistent r)
Reach-IsConsistent (Reach.transaction_finished {c} e q r) =
    transaction_finish-IsConsistent e q c (Reach-IsConsistent r)
Reach-IsConsistent (Reach.queue_submitted {c} e q req fresh code response destroy user_data f r) =
    queue_send_request_full-IsConsistent e q req fresh code response destroy user_data c f
      (Reach-IsConsistent r)
Reach-IsConsistent (Reach.queue_cancelled {c} e q id notify r) =
    queue_cancel_request-IsConsistent e q id notify c (Reach-IsConsistent r)
Reach-IsConsistent (Reach.queue_all_cancelled {c} e q notify r) =
    queue_cancel_all-IsConsistent e q notify c (Reach-IsConsistent r)
Reach-IsConsistent (Reach.queue_freed {c} e q r) =
    queue_free-IsConsistent e q c (Reach-IsConsistent r)
Reach-IsConsistent (Reach.expired {c} e r) = timeout-IsConsistent e c (Reach-IsConsistent r)
Reach-IsConsistent (Reach.pending_expired {c} e r) =
    pending_timeout-IsConsistent e c (Reach-IsConsistent r)
Reach-IsConsistent (Reach.injects_processed {c} r) =
    IsConsistent-index c (process_injects_cb c) (process_injects_cb-index c) (Reach-IsConsistent r)
Reach-IsConsistent (Reach.connected {c} e version offset r) =
    handle_connected-IsConsistent e version offset c (Reach-IsConsistent r)
Reach-IsConsistent (Reach.disconnected {c} r) =
    IsConsistent-index c (handle_disconnected c) (handle_disconnected-index c)
      (Reach-IsConsistent r)
Reach-IsConsistent (Reach.failed {c} r) =
    IsConsistent-index c (handle_error c) (handle_error-index c) (Reach-IsConsistent r)
Reach-IsConsistent (Reach.answered {c} e type id status resp fresh f r) =
    handle_response-IsConsistent e type id status resp fresh c f (Reach-IsConsistent r)
Reach-IsConsistent (Reach.indicated {c} e type code body fresh f r) =
    handle_indication-IsConsistent e type code body fresh c f (Reach-IsConsistent r)
Reach-IsConsistent (Reach.sent {c} e p r) =
    handle_request_sent-IsConsistent e p c (Reach-IsConsistent r)

filed_lookup :
    (marks : ℕ → Mark) (t : List (ℕ × ℕ)) (k p : ℕ)
    → IsFiledIn marks t
    → lookup k t ≡ some p
    → IsEntry k (marks p)
unfolding lookup
filed_lookup marks [] k p f h = cc
filed_lookup marks ((j, q) ∷ t) k p f h = elim (Bool-cases (j == k)) [
  | inl same ↦
      let key : j ≡ k = ground arith in
      let value : q ≡ p = ground arith in
      subst (λ i. IsEntry i (marks p)) key (subst (λ i. IsEntry j (marks i)) value f.0)
  | inr other ↦ filed_lookup marks t k p f.1 (rw other at h)
]

-- The table is filed as cancelling everything wants it.
IsConsistent-IsFiled : (c : Channel) → IsConsistent (index c) → IsFiled c
IsConsistent-IsFiled c v = λ k p h. (filed_lookup (index c).marks c.req_table k p v.filed h).0

-- After any such sequence, cancelling everything leaves no request queued, waiting for a retry or in the
-- table, no blocking request and no deadline timer, and every request that was queued or waiting is
-- cancelled. The timer of the pending requests is left as it was.
pub Reach-IsEmptied : {c : Channel} → Reach c → (notify : Bool) → IsEmptied c (cancel_all notify c)
Reach-IsEmptied {c} r notify =
    cancel_all-IsEmptied notify c (IsConsistent-IsFiled c (Reach-IsConsistent r))

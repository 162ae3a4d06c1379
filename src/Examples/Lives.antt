-- ===== src/Examples/Lives.antt =====
-- src/grilio_channel.c: a request is sent before the channel is connected, is handed over once it is, and
-- times out; another one times out while the transport has it, and is cancelled.
use libgrilio.Base.{ℕ, ◌≡◌, refl, true, false, none, some, List, [], arith}
use libgrilio.Base.Int.{pos}
use libgrilio.Request.{Request, Status, status_eq, request_new, sized_new, can_retry, default_retry}
use libgrilio.Channel.State.{Channel, Env, SendStatus, modify, ref, unref, update}
use libgrilio.Channel.Send.{
  elem, dequeue_request, find_first, has_foreign, pick, pick_head, pick_regular, queue_remove,
  queue_request, request_sent, set_pending, start_sending, take_request, track_pending, unlink,
}
use libgrilio.Channel.Api.{init, send_request_full, cancel_request, enqueue}
use libgrilio.Channel.Response.{
  handle_connected, handle_request_sent, inject_events, process_injects,
}
use libgrilio.Channel.Retry.{
  timeout, collect_expired, due_retries, expire_all, finish_expired, forget_ids, insert_sorted,
  pending_remove, remove_request, requeue, requeue_all, requeue_request, respond, schedule_retry,
  table_insert, table_remove, take_expired,
}
use libgrilio.Channel.Timers.{
  first_deadline, pending_deadline, pending_min, pending_timer, reset_pending_timeout,
  reset_timeout, table_min, timer, update_pending,
}
use libgrilio.Channel.Write.{
  leave_queue, prepare, request_timeout, schedule_write, send_next_request, send_taken, set_block,
  set_deadline, submit, write_loop,
}
use libgrilio.Base.Table.{contains, insert, lookup, remove}
use libgrilio.Channel.Ids.{generate_id}
use libgrilio.Channel.Log.{header_tail, legacy_data, log, log_to, ril_code}
use libgrilio.Channel.Life.Index.{IsConsistent, index}
use libgrilio.Channel.Life.Entering.{IsFree}
use libgrilio.Channel.Life.History.{Reach}
use libgrilio.Channel.Life.Stranded.{cancel_request_waits}
use libgrilio.Channel.Life.Always.{Reach-IsConsistent, Reach-IsEmptied}
use libgrilio.Channel.Cancel.{cancel_all}
use libgrilio.Channel.Cancel.Emptied.{IsEmptied}

abbrev busy : Env
busy = record { now = 5000; send = λ p. SendStatus.pending }

abbrev late : Env
late = record { now = 9000000; send = λ p. SendStatus.pending }

-- Requests that a client has set up: a second, and one more try after a second.
abbrev of_client : ℕ → Request
of_client p = record request_new { timeout = pos 1000; max_retries = pos 1; retry_period = 1000 }

abbrev no_chains : ℕ → List ℕ
no_chains q = []

abbrev new_channel : Channel
new_channel = init of_client no_chains

new_channel-Reach : Reach new_channel
unfolding sized_new
new_channel-Reach = Reach.made of_client no_chains (λ q h. refl)

new_channel-IsFree : IsFree 9 new_channel
unfolding init elem
new_channel-IsFree = record { unqueued = refl; unscheduled = refl; unfiled = tt }

abbrev with_request : Channel
with_request = (send_request_full busy (some 1) 9 77 (some 5) none 0 new_channel).1

with_request-Reach : Reach with_request
with_request-Reach =
    Reach.submitted busy (some 1) 9 77 (some 5) none 0 new_channel-IsFree new_channel-Reach

-- It has timed out, and then the transport says that it was sent.
Reach-IsConsistent_example :
    IsConsistent
      (index (handle_request_sent late 1 (timeout late (handle_connected busy 1 0 with_request))))
Reach-IsConsistent_example =
    Reach-IsConsistent
      (Reach.sent late 1 (Reach.expired late (Reach.connected busy 1 0 with_request-Reach)))

Reach-IsEmptied_example : IsEmptied with_request (cancel_all true with_request)
Reach-IsEmptied_example = Reach-IsEmptied with_request-Reach true

abbrev timed_out : Channel
timed_out = timeout late (handle_connected busy 1 0 with_request)

timed_out-seen :
    (timed_out.send_req ≡ some 1)
    × ((timed_out.reqs 1).id ≡ 1)
    × (status_eq (timed_out.reqs 1).status Status.cancelled ≡ false)
    × (elem 1 timed_out.retry_req ≡ true)
unfolding timeout update_pending schedule_write reset_timeout expire_all collect_expired
    handle_connected process_injects write_loop send_next_request send_request_full init sized_new
    enqueue send_taken dequeue_request take_request pick contains insert lookup remove generate_id
    header_tail legacy_data log log_to ril_code inject_events due_retries finish_expired forget_ids
    insert_sorted pending_remove remove_request requeue requeue_all requeue_request respond
    schedule_retry table_insert table_remove take_expired elem find_first has_foreign pick_head
    pick_regular queue_remove queue_request request_sent set_pending start_sending track_pending
    unlink modify ref unref update first_deadline pending_deadline pending_min pending_timer
    reset_pending_timeout table_min timer leave_queue prepare request_timeout set_block set_deadline
    submit can_retry default_retry
timed_out-seen = (refl, refl, refl, refl)

-- The transport still has request 1, which waits for its next try.
cancel_request_waits_example :
    ((cancel_request late 1 true timed_out).0 ≡ true)
    × (elem 1 (cancel_request late 1 true timed_out).1.retry_req ≡ true)
cancel_request_waits_example =
    cancel_request_waits late 1 true 1 timed_out (omega arith) timed_out-seen.0 timed_out-seen.1
      timed_out-seen.2 timed_out-seen.3

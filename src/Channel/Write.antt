-- ===== src/Channel/Write.antt =====
-- src/grilio_channel.c: grilio_channel_send_next_request and grilio_channel_schedule_write.
use libgrilio.Base.{
  ℕ, zero, suc, ◌+◌, ◌*◌, Bool, true, false, not, ◌&&◌, ◌||◌, Option, none, some, ltb, ◌==◌,
  if◌then◌else◌, length,
}
use libgrilio.Base.Int.{ℤ, pos, is_positive, to_ℕ, int_eq}
use libgrilio.Request.{Request, can_retry, timeout_default}
use libgrilio.Channel.State.{Channel, Env, Event, SendStatus, modify, emit, ref}
use libgrilio.Channel.Timers.{reset_timeout}
use libgrilio.Channel.Send.{serialized, queue_remove, dequeue_request, request_sent}

-- The channel waits for `block_req` while the next requests are held back.
abbrev pub is_barrier : Channel → Request → Bool
is_barrier c r = not r.internal && (r.blocking || serialized c)

unfoldable pub set_block : ℕ → Channel → Channel
unfolding ref
set_block p c = if is_barrier c (c.reqs p) then record (ref p c) { block_req = some p } else c

abbrev pub is_null : Option ℕ → Bool
is_null none = true
is_null (some p) = false

-- Nobody waits for the answer and the request is not retried.
abbrev pub is_forgotten : Request → Bool
is_forgotten r = is_null r.response && not (can_retry r)

unfoldable pub leave_queue : ℕ → Channel → Channel
unfolding queue_remove
leave_queue p c = if is_forgotten (c.reqs p) then queue_remove p c else c

-- `req_timeout`, in the state after the two steps above.
unfoldable pub request_timeout : Channel → Request → ℤ
request_timeout c r =
    if is_forgotten r && is_null c.block_req
    then pos 0
    else if int_eq r.timeout timeout_default && is_positive c.timeout
    then c.timeout
    else r.timeout

unfoldable pub set_deadline : Env → ℕ → ℤ → Channel → Channel
unfolding modify reset_timeout
set_deadline e p ms c =
    if is_positive ms
    then (let at : ℕ = e.now + to_ℕ ms * 1000 in
        let d : Channel = modify p (λ r. record r { deadline = at }) c in
        if d.next_deadline == 0 || ltb at d.next_deadline then reset_timeout e d else d)
    else c

-- The request is ready to be handed over.
unfoldable pub prepare : Env → ℕ → Channel → Channel
prepare e p c =
    let d = leave_queue p (set_block p c) in set_deadline e p (request_timeout d (d.reqs p)) d

abbrev pub finish_send : SendStatus → ℕ → Channel → Bool × Channel
finish_send SendStatus.ok p c = (true, request_sent p c)
finish_send SendStatus.error p c = (false, c)
finish_send SendStatus.pending p c = (false, c)

-- `grilio_transport_send`, and what its answer leads to.
unfoldable pub submit : Env → ℕ → Channel → Bool × Channel
submit e p c = finish_send (e.send p) p (emit (Event.submitted p (c.reqs p).code) c)

-- What `grilio_channel_send_next_request` does with what it took off the queue.
unfoldable pub send_taken : Env → Option ℕ × Channel → Bool × Channel
send_taken e (none, c) = (false, record c { send_req = none })
send_taken e (some p, c) = submit e p (prepare e p (record c { send_req = some p }))

unfoldable pub send_next_request : Env → Channel → Bool × Channel
send_next_request e c =
    if not c.connected
    then (false, c)
    else if not (is_null c.send_req)
    then (false, c)
    else send_taken e (dequeue_request e (not (is_null c.block_req)) c)

-- while (grilio_channel_send_next_request(self));
unfoldable pub write_loop : ℕ → Env → Channel → Channel
write_loop zero e c = c
write_loop (suc fuel) e c =
    let (more, d) = send_next_request e c in
    let again = write_loop fuel e d in if more then again else d

-- Each round takes a request off the queue.
unfoldable pub schedule_write : Env → Channel → Channel
schedule_write e c = if c.connected then write_loop (suc (length c.first_req)) e c else c

-- ===== src/Channel/Retry.antt =====
-- src/grilio_channel.c: the retry queue and the two timeout callbacks.
use libgrilio.Base.{
  ℕ, ◌+◌, ◌*◌, Bool, false, not, ◌&&◌, ◌||◌, Option, none, some, List, [], ◌∷◌, ltb, leb, ◌==◌,
  if◌then◌else◌,
}
use libgrilio.Base.Table.{insert, lookup, remove, contains}
use libgrilio.Base.Int.{ℤ, negsuc}
use libgrilio.Request.{Request, Status, can_retry}
use libgrilio.Channel.Ids.{generate_id}
use libgrilio.Channel.State.{Channel, Env, Event, modify, ref, unref}
use libgrilio.Channel.Timers.{
  pending_deadline, reset_pending_timeout, reset_timeout, update_pending,
}
use libgrilio.Channel.Send.{ptr_eq, queue_remove, queue_request}
use libgrilio.Channel.Write.{schedule_write}

-- g_hash_table_remove(priv->req_table, k): the table's reference goes with the entry.
unfoldable pub table_remove : ℕ → Channel → Channel
unfolding unref
table_remove k c = record (unref (lookup k c.req_table) c) { req_table = remove k c.req_table }

-- g_hash_table_insert(priv->req_table, k, grilio_request_ref(p))
unfoldable pub table_insert : ℕ → ℕ → Channel → Channel
unfolding ref unref
table_insert k p c =
    let d = ref p c in
    record (unref (lookup k d.req_table) d) { req_table = insert k p d.req_table }

-- g_hash_table_remove(priv->pending, k)
unfoldable pub pending_remove : ℕ → Channel → Channel
unfolding unref
pending_remove k c = record (unref (lookup k c.pending) c) { pending = remove k c.pending }

-- Both ids of a request leave the table.
unfoldable pub forget_ids : ℕ → Channel → Channel
unfolding table_remove
forget_ids p c =
    let d = table_remove (c.reqs p).current_id c in
    if (c.reqs p).id == (c.reqs p).current_id then d else table_remove (c.reqs p).id d

-- `grilio_channel_remove_request`
unfoldable pub remove_request : ℕ → Channel → Channel
unfolding queue_remove forget_ids
remove_request p c = forget_ids p (queue_remove p c)

-- Before the first request whose deadline is not earlier.
unfoldable pub insert_sorted : (ℕ → Request) → ℕ → List ℕ → List ℕ
insert_sorted reqs p [] = p ∷ []
insert_sorted reqs p (q ∷ l) =
    if ltb (reqs q).deadline (reqs p).deadline then q ∷ insert_sorted reqs p l else p ∷ q ∷ l

-- `grilio_channel_schedule_retry`
unfoldable pub schedule_retry : Env → ℕ → Channel → Channel
unfolding modify ref forget_ids
schedule_retry e p c =
    let d : Channel =
      modify p (λ r. record r { deadline = e.now + r.retry_period * 1000; status = Status.retry })
        c in
    let f = forget_ids p (ref p d) in record f { retry_req = insert_sorted f.reqs p f.retry_req }

-- `grilio_channel_requeue_request`, up to the write: a new id, and both ids back in the table.
unfoldable pub requeue : ℕ → Channel → Channel
unfolding modify table_insert queue_request
requeue p c =
    let id = generate_id c.req_table c.last_req_id in
    let d : Channel =
      modify p (λ r. record r { current_id = id; deadline = 0; retry_count = r.retry_count + 1 })
        (record c { last_req_id = id }) in
    queue_request p (table_insert id p (table_insert (d.reqs p).id p d))

unfoldable pub requeue_request : Env → ℕ → Channel → Channel
requeue_request e p c = schedule_write e (requeue p c)

-- `req->response(...)`, if there is a callback.
abbrev respond_events : ℕ → Option ℕ → ℤ → List ℕ → List Event → List Event
respond_events p none status resp out = out
respond_events p (some f) status resp out = Event.responded p f status resp ∷ out

unfoldable pub respond : ℕ → ℤ → List ℕ → Channel → Channel
respond p status resp c = record c { out = respond_events p (c.reqs p).response status resp c.out }

-- The expiry of one pending request in `grilio_channel_pending_timeout`.
unfoldable pub expire_pending : ℕ → List (ℕ × ℕ) → Channel → Channel
expire_pending now [] c = c
expire_pending now ((k, p) ∷ t) c =
    let d =
      if ptr_eq c.block_req (some p) then record (unref (some p) c) { block_req = none } else c in
    expire_pending now t (if leb (pending_deadline c (c.reqs p)) now then pending_remove k d else c)

-- `grilio_channel_pending_timeout`
unfoldable pub pending_timeout : Env → Channel → Channel
pending_timeout e c = update_pending (
    schedule_write e (
      reset_pending_timeout e
        (expire_pending e.now c.pending (record c { pending_timeout_id = none }))))

abbrev pub is_expired : ℕ → ℕ → Request → Bool
is_expired now k r = k == r.current_id && (not (r.deadline == 0) && leb r.deadline now)

-- The reference of `block_req` passes to the list of the expired; otherwise one is added.
unfoldable pub take_expired : ℕ → Channel → Channel
unfolding modify ref
take_expired p c =
    let d : Channel = modify p (λ r. record r { deadline = 0 }) c in
    if ptr_eq d.block_req (some p) then record d { block_req = none } else ref p d

-- The first loop of `grilio_channel_timeout`: the chain of the expired, last found first.
unfoldable pub collect_expired : ℕ → List (ℕ × ℕ) → List ℕ × Channel → List ℕ × Channel
collect_expired now [] acc = acc
collect_expired now ((k, p) ∷ t) (l, c) =
    collect_expired now t
      (if is_expired now k (c.reqs p) then (p ∷ l, take_expired p c) else (l, c))

-- One round of the second loop, after the removal from the pending set.
unfoldable pub finish_expired : Env → ℕ → Channel → Channel
finish_expired e p c =
    let d = table_remove (c.reqs p).id c in
    unref (some p) (
      if can_retry (d.reqs p)
      then schedule_retry e p d
      else respond p (negsuc 1) []
          (modify p (λ r. record r { status = Status.done }) (remove_request p d)))

-- The second loop, with the flag `pending_expired`.
unfoldable pub expire_all : Env → List ℕ → Bool × Channel → Bool × Channel
expire_all e [] acc = acc
expire_all e (p ∷ l) (flag, c) =
    let k = (c.reqs p).current_id in
    let was_pending = contains k c.pending in
    expire_all e l (
      was_pending || flag,
      finish_expired e p (if was_pending then update_pending (pending_remove k c) else c),
    )

-- The part of the sorted retry queue whose time has come, and the rest.
unfoldable pub due_retries : (ℕ → Request) → ℕ → List ℕ → List ℕ × List ℕ
due_retries reqs now [] = ([], [])
due_retries reqs now (p ∷ l) =
    let rest = due_retries reqs now l in
    if leb (reqs p).deadline now then (p ∷ rest.0, rest.1) else ([], p ∷ l)

unfoldable pub requeue_all : Env → List ℕ → Channel → Channel
requeue_all e [] c = c
requeue_all e (p ∷ l) c = requeue_all e l (requeue_request e p c)

-- `grilio_channel_timeout`
unfoldable pub timeout : Env → Channel → Channel
timeout e c =
    let start : Channel = record c { timeout_id = none; next_deadline = 0 } in
    let (expired, found) = collect_expired e.now start.req_table ([], start) in
    let (pending_expired, done) = expire_all e expired (false, found) in
    let (ready, waiting) = due_retries done.reqs e.now done.retry_req in
    let requeued = requeue_all e ready (record done { retry_req = waiting }) in
    let settled = if pending_expired then reset_pending_timeout e requeued else requeued in
    update_pending (schedule_write e (reset_timeout e settled))

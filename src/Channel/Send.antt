-- ===== src/Channel/Send.antt =====
-- src/grilio_channel.c: the send queue, and what is sent next.
use libgrilio.Base.{
  ℕ, Bool, true, false, ◌&&◌, ◌||◌, Option, none, some, List, [], ◌∷◌, ◌++◌, ltb, ◌==◌,
  if◌then◌else◌, length,
}
use libgrilio.Base.Table.{insert, lookup}
use libgrilio.Request.{Request, Status, status_eq}
use libgrilio.Channel.State.{Channel, Env, PacketType, update, modify, ref, unref}
use libgrilio.Channel.Log.{log}
use libgrilio.Channel.Timers.{reset_pending_timeout, update_pending}

-- Equality of two pointers that may be NULL.
abbrev pub ptr_eq : Option ℕ → Option ℕ → Bool
ptr_eq none none = true
ptr_eq (some p) (some q) = p == q
ptr_eq none (some q) = false
ptr_eq (some p) none = false

-- A walk along a chain that unlinks a request.
unfoldable pub unlink : ℕ → List ℕ → List ℕ
unlink p [] = []
unlink p (q ∷ l) = if q == p then l else q ∷ unlink p l

unfoldable pub find_first : (ℕ → Bool) → List ℕ → Option ℕ
find_first test [] = none
find_first test (p ∷ l) = if test p then some p else find_first test l

unfoldable pub elem : ℕ → List ℕ → Bool
elem p [] = false
elem p (q ∷ l) = if q == p then true else elem p l

-- `grilio_channel_serialized`
abbrev pub serialized : Channel → Bool
serialized c = ltb 0 (length c.block_ids)

-- `grilio_queue_remove`, src/grilio_queue.c: the request leaves its queue if the queue has it.
abbrev pub is_linked : ℕ → Option ℕ → (ℕ → List ℕ) → Bool
is_linked p none queues = false
is_linked p (some q) queues = elem p (queues q)

abbrev pub unlink_from : ℕ → Option ℕ → (ℕ → List ℕ) → ℕ → List ℕ
unlink_from p none queues k = queues k
unlink_from p (some q) queues k = if k == q then unlink p (queues k) else queues k

unfoldable pub queue_remove : ℕ → Channel → Channel
unfolding update
queue_remove p c =
    let q = (c.reqs p).queue in
    record c {
      reqs =
          update p (λ r. record r { queue = if is_linked p q c.queues then none else r.queue })
            c.reqs;
      queues = unlink_from p q c.queues;
    }

-- `grilio_channel_queue_request`
unfoldable pub queue_request : ℕ → Channel → Channel
unfolding update
queue_request p c = record c {
  reqs = update p (λ r. record r { status = Status.queued }) c.reqs;
  first_req = c.first_req ++ (p ∷ []);
}

-- Some pending request is not of the queue `q`.
unfoldable pub has_foreign : (ℕ → Request) → ℕ → List (ℕ × ℕ) → Bool
has_foreign reqs q [] = false
has_foreign reqs q ((k, p) ∷ t) =
    if ptr_eq (reqs p).queue (some q) then has_foreign reqs q t else true

-- The request at the head of the chain, or the first one of the transaction, if it may go now.
unfoldable pub pick_regular : Channel → Option ℕ → ℕ → List ℕ → Option ℕ
pick_regular c (some q) p rest =
    if has_foreign c.reqs q c.pending
    then none
    else find_first (λ r. ptr_eq (c.reqs r).queue (some q)) (p ∷ rest)
pick_regular c none p rest =
    if (serialized c || (c.reqs p).blocking) && ltb 0 (length c.pending) then none else some p

unfoldable pub pick_head : Channel → Bool → List ℕ → Option ℕ
pick_head c internal_only [] = none
pick_head c internal_only (p ∷ rest) =
    if (c.reqs p).internal
    then some p
    else if internal_only
    then none
    else pick_regular c c.owner p rest

abbrev pub or_else : Option ℕ → Option ℕ → Option ℕ
or_else (some p) o = some p
or_else none o = o

-- What `grilio_channel_dequeue_request` takes: failing the regular choice, an internal request.
unfoldable pub pick : Channel → Bool → Option ℕ
pick c internal_only =
    or_else (pick_head c internal_only c.first_req)
      (find_first (λ p. (c.reqs p).internal) c.first_req)

-- `p` leaves the chain and is being sent.
unfoldable pub start_sending : Env → ℕ → Channel → Channel
unfolding update
start_sending e p c = record c {
  reqs = update p (λ r. record r { status = Status.sending; submitted = e.now }) c.reqs;
  first_req = unlink p c.first_req;
}

-- It is pending, unless nobody will answer it: g_hash_table_insert(priv->pending, ...).
unfoldable pub set_pending : ℕ → Channel → Channel
unfolding ref unref
set_pending p c =
    let k = (c.reqs p).current_id in
    let d = ref p c in record (unref (lookup k d.pending) d) { pending = insert k p d.pending }

unfoldable pub track_pending : Env → ℕ → Channel → Channel
unfolding set_pending reset_pending_timeout update_pending
track_pending e p c =
    if (c.reqs p).no_reply then c else update_pending (reset_pending_timeout e (set_pending p c))

-- What is done with the choice.
unfoldable pub take_request : Env → Option ℕ → Channel → Option ℕ × Channel
take_request e none c = (none, c)
take_request e (some p) c = (some p, track_pending e p (start_sending e p c))

-- `grilio_channel_dequeue_request`
unfoldable pub dequeue_request : Env → Bool → Channel → Option ℕ × Channel
dequeue_request e internal_only c = take_request e (pick c internal_only) c

-- `grilio_channel_request_sent`
abbrev pub mark_sent : Request → Request
mark_sent r = record r {
  status = if status_eq r.status Status.sending then Status.sent else r.status;
}

abbrev pub payload : Option (List ℕ) → List ℕ
payload none = []
payload (some b) = b

unfoldable pub request_sent : ℕ → Channel → Channel
unfolding modify log unref
request_sent p c =
    let d = modify p mark_sent c in
    let r = d.reqs p in
    let f = log PacketType.req r.current_id r.code (payload r.bytes) d in
    if ptr_eq f.send_req (some p) then unref (some p) (record f { send_req = none }) else f

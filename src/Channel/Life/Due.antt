-- ===== src/Channel/Life/Due.antt =====
-- src/grilio_channel.c, grilio_channel_timeout, its last part: the requests that are due go from the
-- retry queue to the send queue.
use libgrilio.Base.{
  ℕ, ◌≡◌, refl, ap, subst, ◌∙◌, inl, inr, true, false, none, List, [], ◌∷◌, ◌++◌, arith, ==_refl,
  if◌then◌else◌, Bool-cases,
}
use libgrilio.Channel.State.{Channel, Env}
use libgrilio.Channel.Timers.{reset_pending_timeout, reset_timeout, update_pending}
use libgrilio.Channel.Send.{elem, unlink}
use libgrilio.Channel.Retry.{
  requeue, requeue_request, collect_expired, expire_all, due_retries, requeue_all, timeout,
}
use libgrilio.Channel.Order.{due_retries-Parts}
use libgrilio.Channel.Frame.{schedule_write-frame}
use libgrilio.Channel.Life.Lists.{IsOrdered-IsSorted}
use libgrilio.Channel.Life.Index.{Index, IsConsistent, IsConsistent-if, index, may_wait}
use libgrilio.Channel.Life.Steps.{IsLoose, unlink_retry-IsConsistent}
use libgrilio.Channel.Life.Holding.{Holds, Holds-own, holding}
use libgrilio.Channel.Life.Sending.{schedule_write-Holds, schedule_write-IsConsistent}
use libgrilio.Channel.Life.Entry.{enter}
use libgrilio.Channel.Life.Entering.{requeue-index, requeue-Holds}
use libgrilio.Channel.Life.Expiry.{expired-IsConsistent}

-- The head of the retry queue leaves it.
pop-Holds : (p : ℕ) (w : List ℕ) (c : Channel) → Holds (p ∷ w) c → Holds w c
pop-Holds p w c v =
    let gone : unlink p (p ∷ w) ≡ w = unfold unlink in rw (==_refl p) refl in
    subst (λ l. Holds l c) gone (unlink_retry-IsConsistent p (holding (p ∷ w) (index c)) v)

pop-IsLoose : (p : ℕ) (w : List ℕ) (c : Channel) → Holds (p ∷ w) c → IsLoose p (holding w (index c))
unfolding elem
pop-IsLoose p w c v = record {
  unqueued = elim (Bool-cases (elem p c.first_req)) [
    | inl i ↦ ground (arith, v.apart p i)
    | inr i ↦ i
  ];
  unscheduled = ground (arith, v.waiting_once);
}

pop-status :
    (p : ℕ) (w : List ℕ) (c : Channel) → Holds (p ∷ w) c → may_wait (c.reqs p).status ≡ true
unfolding elem
pop-status p w c v = v.waiting p (rw (==_refl p) refl)

requeue_request-Holds :
    (e : Env) (w : List ℕ) (p : ℕ) (c : Channel) → Holds (p ∷ w) c → Holds w (requeue_request e p c)
unfolding requeue_request
requeue_request-Holds e w p c v =
    schedule_write-Holds e w (requeue p c)
      (requeue-Holds w p c (pop-IsLoose p w c v) (pop-status p w c v) (pop-Holds p w c v))

pub requeue_request-retry_req :
    (e : Env) (p : ℕ) (c : Channel) → (requeue_request e p c).retry_req ≡ c.retry_req
unfolding requeue_request enter
requeue_request-retry_req e p c =
    ap (λ f. f.retry_req) (schedule_write-frame e (requeue p c))
    ∙ ap (λ (k : Index). k.retry) (requeue-index p c)

requeue_all-Holds :
    (e : Env) (l w : List ℕ) (c : Channel) → Holds (l ++ w) c → Holds w (requeue_all e l c)
unfolding requeue_all
requeue_all-Holds e [] w c v = v
requeue_all-Holds e (p ∷ l) w c v =
    requeue_all-Holds e l w (requeue_request e p c) (requeue_request-Holds e (l ++ w) p c v)

requeue_all-retry_req :
    (e : Env) (l : List ℕ) (c : Channel) → (requeue_all e l c).retry_req ≡ c.retry_req
unfolding requeue_all
requeue_all-retry_req e [] c = refl
requeue_all-retry_req e (p ∷ l) c =
    requeue_all-retry_req e l (requeue_request e p c) ∙ requeue_request-retry_req e p c

-- The requests that are due are queued, and the others go on waiting.
due-IsConsistent :
    (e : Env) (c : Channel)
    → IsConsistent (index c)
    → IsConsistent (
        index (
          requeue_all e
            (due_retries c.reqs e.now c.retry_req).0
            (record c { retry_req = (due_retries c.reqs e.now c.retry_req).1 })))
due-IsConsistent e c v =
    let r = due_retries c.reqs e.now c.retry_req in
    let parts =
      due_retries-Parts c.reqs e.now c.retry_req
        (IsOrdered-IsSorted c.reqs c.retry_req v.ordered) in
    let d : Channel = record c { retry_req = r.1 } in
    Holds-own r.1 (requeue_all e r.0 d) (requeue_all-retry_req e r.0 d)
      (requeue_all-Holds e r.0 r.1 d (subst (λ l. Holds l c) parts.split v))

pub timeout-IsConsistent :
    (e : Env) (c : Channel) → IsConsistent (index c) → IsConsistent (index (timeout e c))
unfolding timeout update_pending reset_timeout reset_pending_timeout
timeout-IsConsistent e c v =
    let start : Channel = record c { timeout_id = none; next_deadline = 0 } in
    let (expired, found) = collect_expired e.now start.req_table ([], start) in
    let (pending_expired, done) = expire_all e expired (false, found) in
    let (ready, waiting) = due_retries done.reqs e.now done.retry_req in
    let requeued = requeue_all e ready (record done { retry_req = waiting }) in
    let settled = if pending_expired then reset_pending_timeout e requeued else requeued in
    let v_due : IsConsistent (index requeued) =
      due-IsConsistent e done (expired-IsConsistent e start v) in
    schedule_write-IsConsistent e (reset_timeout e settled)
      (IsConsistent-if pending_expired (reset_pending_timeout e requeued) requeued v_due v_due)

-- ===== src/Queue/Emptied.antt =====
-- src/grilio_queue.c, grilio_queue_cancel_all: the loop ends with an empty queue.
use libgrilio.Base.{
  ℕ, zero, suc, ◌≤◌, ◌≡◌, refl, ap, Bool, true, false, Option, none, some, List, [], ◌∷◌, ◌==◌,
  arith, if◌then◌else◌, length,
}
use libgrilio.Base.Table.{lookup}
use libgrilio.Request.{Status, status_eq}
use libgrilio.Channel.State.{Channel, Env, modify, ref, unref}
use libgrilio.Channel.Send.{unlink, queue_remove, find_first}
use libgrilio.Channel.Timers.{reset_timeout}
use libgrilio.Channel.Write.{schedule_write}
use libgrilio.Channel.Retry.{remove_request, forget_ids}
use libgrilio.Channel.Api.{
  notify_cancelled, mark_cancelled, cancel_sending, cancel_queued, cancel_tabled, cancel_waiting,
  cancel_found, lift_block, send_match, has_id, cancel_request,
}
use libgrilio.Queue.{set_chain, cancel_head, cancel_round, cancel_loop, queue_cancel_all}
use libgrilio.Queue.Shrinking.{
  Shrinks, Shrinks-same, Shrinks-trans, queue_remove-Shrinks, schedule_write-Shrinks,
}

forget_ids-queues : (p : ℕ) (c : Channel) → (forget_ids p c).queues ≡ c.queues
unfolding forget_ids
forget_ids-queues p c = ground arith

remove_request-Shrinks : (p : ℕ) (c : Channel) → Shrinks c (remove_request p c)
unfolding remove_request
remove_request-Shrinks p c =
    let d = queue_remove p c in
    Shrinks-trans c d (forget_ids p d) (queue_remove-Shrinks p c)
      (Shrinks-same d (forget_ids p d) (forget_ids-queues p d))

notify_cancelled-queues :
    (notify : Bool) (p : ℕ) (c : Channel) → (notify_cancelled notify p c).queues ≡ c.queues
unfolding notify_cancelled
notify_cancelled-queues true p c = refl
notify_cancelled-queues false p c = refl

-- What comes last in a cancellation: the callback, and a write.
write_after-Shrinks :
    (e : Env) (c d : Channel) → d.queues ≡ c.queues → Shrinks c (schedule_write e d)
write_after-Shrinks e c d h =
    Shrinks-trans c d (schedule_write e d) (Shrinks-same c d h) (schedule_write-Shrinks e d)

cancel_sending-Shrinks :
    (e : Env) (notify : Bool) (p : ℕ) (block : Option ℕ) (c : Channel)
    → Shrinks c (cancel_sending e notify p block c).1
unfolding cancel_sending mark_cancelled modify unref
cancel_sending-Shrinks e notify p block c =
    sending-if (status_eq (c.reqs p).status Status.cancelled)
  where
    removed : Channel
    removed = remove_request p (mark_cancelled p c)

    told : Channel
    told = unref block (notify_cancelled notify p removed)

    sending-if :
        (b : Bool)
        → Shrinks c
            (if◌then◌else◌ {A = Bool × Channel} b
              (false, unref block c)
              (true, schedule_write e told)).1
    sending-if true = Shrinks-same c (unref block c) refl
    sending-if false =
        Shrinks-trans c removed (schedule_write e told)
          (remove_request-Shrinks p (mark_cancelled p c))
          (write_after-Shrinks e removed told (notify_cancelled-queues notify p removed))

cancel_queued-Shrinks :
    (e : Env) (notify : Bool) (p : ℕ) (block : Option ℕ) (c : Channel)
    → Shrinks c (cancel_queued e notify p block c)
unfolding cancel_queued mark_cancelled modify unref
cancel_queued-Shrinks e notify p block c =
    let off : Channel = record c { first_req = unlink p c.first_req } in
    let d = remove_request p off in
    let told = unref block (unref (some p) (notify_cancelled notify p (mark_cancelled p d))) in
    Shrinks-trans c d (schedule_write e told) (remove_request-Shrinks p off)
      (write_after-Shrinks e d told (notify_cancelled-queues notify p (mark_cancelled p d)))

cancel_tabled-Shrinks :
    (e : Env) (notify : Bool) (p : ℕ) (block : Option ℕ) (c : Channel)
    → Shrinks c (cancel_tabled e notify p block c)
unfolding cancel_tabled mark_cancelled modify ref unref reset_timeout
cancel_tabled-Shrinks e notify p block c =
    let d = remove_request p (ref p c) in
    let told = unref block (unref (some p) (notify_cancelled notify p (mark_cancelled p d))) in
    Shrinks-trans c d (schedule_write e (reset_timeout e told)) (remove_request-Shrinks p (ref p c))
      (write_after-Shrinks e d (reset_timeout e told)
        (notify_cancelled-queues notify p (mark_cancelled p d)))

cancel_waiting-Shrinks :
    (e : Env) (notify : Bool) (p : ℕ) (block : Option ℕ) (c : Channel)
    → Shrinks c (cancel_waiting e notify p block c)
unfolding cancel_waiting mark_cancelled modify unref reset_timeout
cancel_waiting-Shrinks e notify p block c =
    let off = mark_cancelled p (record c { retry_req = unlink p c.retry_req }) in
    let d = remove_request p off in
    let told = unref block (unref (some p) (notify_cancelled notify p d)) in
    Shrinks-trans c d (schedule_write e (reset_timeout e told)) (remove_request-Shrinks p off)
      (write_after-Shrinks e d (reset_timeout e told) (notify_cancelled-queues notify p d))

cancel_found-Shrinks :
    (e : Env) (notify : Bool) (block queued tabled waiting : Option ℕ) (c : Channel)
    → Shrinks c (cancel_found e notify block queued tabled waiting c).1
unfolding cancel_found
cancel_found-Shrinks e notify block (some p) tabled waiting c =
    cancel_queued-Shrinks e notify p block c
cancel_found-Shrinks e notify block none (some p) waiting c =
    cancel_tabled-Shrinks e notify p block c
cancel_found-Shrinks e notify block none none (some p) c = cancel_waiting-Shrinks e notify p block c
cancel_found-Shrinks e notify block none none none c = Shrinks-same c c refl

lift_block-queues : (id : ℕ) (c : Channel) → (lift_block id c).1.queues ≡ c.queues
lift_block-queues id c = ground arith

cancel_request-Shrinks :
    (e : Env) (id : ℕ) (notify : Bool) (c : Channel) → Shrinks c (cancel_request e id notify c).1
unfolding cancel_request
cancel_request-Shrinks e id notify c = request-if (id == 0)
  where
    block : Option ℕ
    block = (lift_block id c).0

    d : Channel
    d = (lift_block id c).1

    looked : Bool × Channel
    looked =
        cancel_found e notify block (find_first (has_id id d) d.first_req) (lookup id d.req_table)
          (find_first (has_id id d) d.retry_req) d

    match-Shrinks :
        (m : Option ℕ)
        → Shrinks d
            (elim m as (λ _. Bool × Channel) [
              | some p ↦ cancel_sending e notify p block d
              | none ↦ looked
            ]).1
    match-Shrinks (some p) = cancel_sending-Shrinks e notify p block d
    match-Shrinks none =
        cancel_found-Shrinks e notify block (find_first (has_id id d) d.first_req)
          (lookup id d.req_table) (find_first (has_id id d) d.retry_req) d

    request-if :
        (b : Bool)
        → Shrinks c
            (if◌then◌else◌ {A = Bool × Channel} b
              (false, c)
              (elim (send_match id d) [
                | some p ↦ cancel_sending e notify p block d
                | none ↦ looked
              ])).1
    request-if true = Shrinks-same c c refl
    request-if false =
        Shrinks-trans c d
          (elim (send_match id d) as (λ _. Bool × Channel) [
            | some p ↦ cancel_sending e notify p block d
            | none ↦ looked
          ]).1
          (Shrinks-same c d (lift_block-queues id c)) (match-Shrinks (send_match id d))

set_chain_at : (q : ℕ) (l : List ℕ) (queues : ℕ → List ℕ) → set_chain q l queues q ≡ l
set_chain_at q l queues = ground arith

empty_list : (l : List ℕ) → length l ≤ 0 → l ≡ []
empty_list [] h = refl
empty_list (x ∷ l) h = ground arith

cancel_head-length :
    (e : Env) (q : ℕ) (notify : Bool) (p : ℕ) (rest : List ℕ) (c : Channel)
    → length ((cancel_head e q notify p rest c).queues q) ≤ length rest
unfolding cancel_head
cancel_head-length e q notify p rest c =
    let d =
      modify p (λ r. record r { queue = none }) (record c { queues = set_chain q rest c.queues }) in
    let i = cancel_request-Shrinks e (d.reqs p).id notify d q in
    let start = ap length (set_chain_at q rest c.queues) in omega (arith, i, start)

cancel_loop-queues :
    (fuel : ℕ) (e : Env) (q : ℕ) (notify : Bool) (c : Channel)
    → length (c.queues q) ≤ fuel
    → (cancel_loop fuel e q notify c).queues q ≡ []
unfolding cancel_loop
cancel_loop-queues zero e q notify c h = empty_list (c.queues q) h
cancel_loop-queues (suc fuel) e q notify c h =
    round (λ d g. cancel_loop-queues fuel e q notify d g) (c.queues q) refl
  where
    round :
        ((d : Channel) → length (d.queues q) ≤ fuel → (cancel_loop fuel e q notify d).queues q ≡ [])
        → (l : List ℕ) → c.queues q ≡ l
        → (cancel_round (λ d. cancel_loop fuel e q notify d) e q notify l c).queues q ≡ []
    round again [] same = same
    round again (p ∷ rest) same =
        let shorter = cancel_head-length e q notify p rest c in
        let size = ap length same in
        again (cancel_head e q notify p rest c) (omega (arith, shorter, size, h))

-- Cancelling the requests of a queue ends, and then the queue has none, whatever the cancellations
-- send meanwhile.
pub queue_cancel_all-queues :
    (e : Env) (q : ℕ) (notify : Bool) (c : Channel) → (queue_cancel_all e q notify c).queues q ≡ []
unfolding queue_cancel_all
queue_cancel_all-queues e q notify c =
    cancel_loop-queues (length (c.queues q)) e q notify c (omega arith)

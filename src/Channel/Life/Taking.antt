-- ===== src/Channel/Life/Taking.antt =====
-- src/grilio_channel.c, grilio_channel_send_next_request: a request leaves the send queue and is made
-- ready.
use libgrilio.Base.{
  ℕ, ◌+◌, ◌*◌, ◌≡◌, refl, sym, ap, subst, ◌∙◌, Bool, true, ◌||◌, some, List, ◌∷◌, arith, ◌==◌,
  ==_refl, ltb,
}
use libgrilio.Base.Int.{ℤ, is_positive, to_ℕ}
use libgrilio.Base.Table.{lookup}
use libgrilio.Request.{Status}
use libgrilio.Channel.State.{Channel, Env, modify, update, ref}
use libgrilio.Channel.Send.{
  elem, unlink, pick, queue_remove, start_sending, set_pending, track_pending,
}
use libgrilio.Channel.Timers.{reset_timeout}
use libgrilio.Channel.Write.{
  is_barrier, is_forgotten, set_block, leave_queue, request_timeout, set_deadline, prepare,
}
use libgrilio.Channel.Policy.{pick_sound}
use libgrilio.Channel.Ownership.{elem-unlink_self}
use libgrilio.Channel.Life.Lists.{elem-append}
use libgrilio.Channel.Life.Index.{
  Index, IsConsistent, index, with_mark, with_status, with_deadline, index-if, modify-index,
  ref-index, unref-index, queue_remove-index,
}
use libgrilio.Channel.Life.Filing.{kept-IsFiledIn}
use libgrilio.Channel.Life.Steps.{with_mark-IsConsistent, unlink_first-IsConsistent}
use libgrilio.Channel.Life.Holding.{holding, Holds, Holds-index, Holds-if, status-IsLoose}

set_pending-index : (p : ℕ) (c : Channel) → index (set_pending p c) ≡ index c
unfolding set_pending
set_pending-index p c =
    unref-index (lookup (c.reqs p).current_id (ref p c).pending) (ref p c) ∙ ref-index p c

track_pending-index : (e : Env) (p : ℕ) (c : Channel) → index (track_pending e p c) ≡ index c
unfolding track_pending
track_pending-index e p c = index-if (c.reqs p).no_reply c _ c refl (set_pending-index p c)

start_sending-index :
    (e : Env) (p : ℕ) (c : Channel)
    → index (start_sending e p c)
      ≡ with_mark p (with_status Status.sending) (record (index c) { first = unlink p c.first_req })
unfolding start_sending modify
start_sending-index e p c =
    ap (λ (k : Index). record k { first = unlink p c.first_req })
      (modify-index p (λ r. record r { status = Status.sending; submitted = e.now })
        (with_status Status.sending) c (λ r. refl))

start_sending-status :
    (e : Env) (p : ℕ) (c : Channel) → ((start_sending e p c).reqs p).status ≡ Status.sending
unfolding start_sending update
start_sending-status e p c = rw (==_refl p)

start_sending-Holds :
    (e : Env) (w : List ℕ) (p : ℕ) (c : Channel)
    → elem p c.first_req ≡ true
    → Holds w c
    → Holds w (start_sending e p c)
start_sending-Holds e w p c h v =
    let k : Index = record (holding w (index c)) { first = unlink p c.first_req } in
    subst (λ i. IsConsistent (holding w i)) (sym (start_sending-index e p c))
      (with_mark-IsConsistent p (with_status Status.sending) k
        (record {
          unqueued = elem-unlink_self p c.first_req v.queued_once;
          unscheduled = v.apart p h;
        })
        (λ i. cc)
        (kept-IsFiledIn k.marks p (with_status Status.sending) k.table (λ j i. (i.0, refl)) v.filed)
        (unlink_first-IsConsistent p (holding w (index c)) v))

-- The request that is sent next comes from the send queue.
pub pick-elem : (c : Channel) (io : Bool) (p : ℕ) → pick c io ≡ some p → elem p c.first_req ≡ true
unfolding elem
pick-elem c io p h =
    let (allowed, next) = pick_sound c io p h in
    ap (λ l. elem p l) next.split
    ∙ elem-append p next.before (p ∷ next.after)
    ∙ ground (arith, ==_refl p)

index_status :
    (p : ℕ) (s : Status) (c d : Channel)
    → index d ≡ index c
    → (c.reqs p).status ≡ s
    → (d.reqs p).status ≡ s
index_status p s c d e h = ap (λ (k : Index). (k.marks p).status) e ∙ h

-- What a request that is being sent goes through.
pub record Sending (w : List ℕ) (p : ℕ) (c : Channel) : Type 0 where
  pub holds : Holds w c
  pub status : (c.reqs p).status ≡ Status.sending

Sending-index :
    (w : List ℕ) (p : ℕ) (c d : Channel) → index d ≡ index c → Sending w p c → Sending w p d
Sending-index w p c d e s = record {
  holds = Holds-index w c d e s.holds;
  status = index_status p Status.sending c d e s.status;
}

pub take-Sending :
    (e : Env) (w : List ℕ) (p : ℕ) (c : Channel)
    → elem p c.first_req ≡ true
    → Holds w c
    → Sending w p (track_pending e p (start_sending e p c))
take-Sending e w p c h v =
    let d = start_sending e p c in
    Sending-index w p d (track_pending e p d) (track_pending-index e p d)
      (record { holds = start_sending-Holds e w p c h v; status = start_sending-status e p c })

set_block-index : (p : ℕ) (c : Channel) → index (set_block p c) ≡ index c
unfolding set_block
set_block-index p c = index-if (is_barrier c (c.reqs p)) _ c c (ref-index p c) refl

leave_queue-index : (p : ℕ) (c : Channel) → index (leave_queue p c) ≡ index c
unfolding leave_queue
leave_queue-index p c =
    index-if (is_forgotten (c.reqs p)) (queue_remove p c) c c (queue_remove-index p c) refl

deadline-Holds :
    (w : List ℕ) (p at_time : ℕ) (c : Channel)
    → Sending w p c
    → Holds w (modify p (λ r. record r { deadline = at_time }) c)
deadline-Holds w p at_time c s =
    let k : Index = holding w (index c) in
    subst (λ i. IsConsistent (holding w i))
      (sym (
        modify-index p (λ r. record r { deadline = at_time }) (with_deadline at_time) c
          (λ r. refl)))
      (with_mark-IsConsistent p (with_deadline at_time) k
        (status-IsLoose w p c s.holds (rw (s.status) refl) (rw (s.status) refl))
        (λ i. cc (s.status, i))
        (kept-IsFiledIn k.marks p (with_deadline at_time) k.table (λ j i. i) s.holds.filed) s.holds)

set_deadline-Holds :
    (e : Env) (w : List ℕ) (p : ℕ) (ms : ℤ) (c : Channel)
    → Sending w p c
    → Holds w (set_deadline e p ms c)
unfolding set_deadline
set_deadline-Holds e w p ms c s =
    let at_time : ℕ = e.now + to_ℕ ms * 1000 in
    let d : Channel = modify p (λ r. record r { deadline = at_time }) c in
    let v : Holds w d = deadline-Holds w p at_time c s in
    Holds-if w (is_positive ms) _ c
      (Holds-if w (d.next_deadline == 0 || ltb at_time d.next_deadline) (reset_timeout e d) d
        (Holds-index w d (reset_timeout e d) (unfold reset_timeout in refl) v) v)
      s.holds

pub prepare-Holds :
    (e : Env) (w : List ℕ) (p : ℕ) (c : Channel) → Sending w p c → Holds w (prepare e p c)
unfolding prepare
prepare-Holds e w p c s =
    let b = set_block p c in
    let d = leave_queue p b in
    set_deadline-Holds e w p (request_timeout d (d.reqs p)) d
      (Sending-index w p c d (leave_queue-index p b ∙ set_block-index p c) s)

-- ===== src/Channel/Life/Queues.antt =====
-- src/grilio_queue.c and the transactions of src/grilio_channel.c, and the lists.
use libgrilio.Base.{
  ℕ, zero, suc, ◌≡◌, refl, sym, subst, ◌∙◌, inl, inr, Bool, true, false, Option, none, some, List,
  [], ◌∷◌, ◌++◌, ◌==◌, if◌then◌else◌, Bool-cases, length,
}
use libgrilio.Request.{Status, status_eq, request_new}
use libgrilio.Channel.State.{Channel, Env, Event, modify, emit, unref}
use libgrilio.Channel.Send.{unlink, ptr_eq}
use libgrilio.Channel.Transaction.{
  TransactionState, hand_over, add_waiter, transaction_start, transaction_finish,
}
use libgrilio.Channel.Api.{send_request_full, get_request, cancel_request}
use libgrilio.Channel.Ownership.{
  IsLine, IsOwned, line_of, distinct, transaction_start-line, hand_over-owner,
  transaction_finish-line,
}
use libgrilio.Queue.{
  set_chain, queue_add, queue_send_request_full, cancel_own, queue_cancel_request, cancel_head,
  cancel_round, cancel_loop, queue_cancel_all, disown, queue_free,
}
use libgrilio.Channel.Life.Index.{
  Index, IsConsistent, IsConsistent-index, index, modify-index_same, unref-index,
}
use libgrilio.Channel.Life.Sending.{schedule_write-IsConsistent}
use libgrilio.Channel.Life.Entering.{IsFree, fresh-IsConsistent, send_request_full-IsConsistent}
use libgrilio.Channel.Life.Calls.{pair-IsConsistent, cancel_request-IsConsistent}

abbrev with_line : Option ℕ → List ℕ → Index → Index
with_line o l k = record k { owner = o; owner_queue = l }

line-IsConsistent :
    (o : Option ℕ) (l : List ℕ) (k : Index)
    → IsOwned o l
    → distinct (line_of o l) ≡ true
    → IsConsistent k
    → IsConsistent (with_line o l k)
line-IsConsistent o l k owned once v = record {
  idle = v.idle;
  queued = v.queued;
  waiting = v.waiting;
  apart = v.apart;
  queued_once = v.queued_once;
  waiting_once = v.waiting_once;
  ordered = v.ordered;
  filed = v.filed;
  owned = owned;
  line_once = once;
}

-- A change of the line alone.
abbrev Relines : Channel → Channel → Type 0
Relines c d = index d ≡ with_line d.owner d.owner_queue (index c)

-- A line stays a line.
relined : (c d : Channel) → Relines c d → IsLine d → IsConsistent (index c) → IsConsistent (index d)
relined c d e l v =
    subst IsConsistent (sym e) (line-IsConsistent d.owner d.owner_queue (index c) l.owned l.once v)

IsConsistent-IsLine : (c : Channel) → IsConsistent (index c) → IsLine c
IsConsistent-IsLine c v = record { owned = v.owned; once = v.line_once }

Relines-if :
    (b : Bool) (c : Channel) (s t : TransactionState × Channel)
    → Relines c s.1
    → Relines c t.1
    → Relines c (if b then s else t).1
Relines-if true c s t x y = x
Relines-if false c s t x y = y

transaction_start-Relines : (q : ℕ) (c : Channel) → Relines c (transaction_start q c).1
unfolding transaction_start
transaction_start-Relines q c = started c.owner
  where
    free : TransactionState × Channel
    free = (TransactionState.started, emit Event.signal_owner (record c { owner = some q }))

    waits : TransactionState × Channel
    waits = (TransactionState.queued, record c { owner_queue = add_waiter q c.owner_queue })

    started :
        (o : Option ℕ)
        → Relines c
            (elim o as (λ _. TransactionState × Channel) [
              | none ↦ free
              | some p ↦ if p == q then (TransactionState.started, c) else waits
            ]).1
    started none = refl
    started (some p) = Relines-if (p == q) c (TransactionState.started, c) waits refl refl

pub transaction_start-IsConsistent :
    (q : ℕ) (c : Channel) → IsConsistent (index c) → IsConsistent (index (transaction_start q c).1)
transaction_start-IsConsistent q c v =
    relined c (transaction_start q c).1 (transaction_start-Relines q c)
      (transaction_start-line q c (IsConsistent-IsLine c v)).2 v

hand_over-Relines : (l : List ℕ) (c : Channel) → Relines c (hand_over l c)
hand_over-Relines [] c = refl
hand_over-Relines (q ∷ l) c = refl

pub transaction_finish-IsConsistent :
    (e : Env) (q : ℕ) (c : Channel)
    → IsConsistent (index c)
    → IsConsistent (index (transaction_finish e q c))
transaction_finish-IsConsistent e q c v =
    let line_after = (transaction_finish-line e q c (IsConsistent-IsLine c v)).2 in
    elim (Bool-cases (ptr_eq c.owner (some q))) [
      | inl owns ↦
          let d = hand_over c.owner_queue c in
          let l = (hand_over-owner q c (IsConsistent-IsLine c v) owns).1 in
          unfold transaction_finish in
          rw owns (
            schedule_write-IsConsistent e (emit Event.signal_owner d)
              (relined c d (hand_over-Relines c.owner_queue c) l v))
      | inr other ↦
          let d : Channel = record c { owner_queue = unlink q c.owner_queue } in
          let l : IsLine d = unfold transaction_finish in rw other at line_after in
          unfold transaction_finish in rw other (relined c d refl l v)
    ]

queue_add-index : (q p : ℕ) (c : Channel) → index (queue_add q p c) ≡ index c
unfolding queue_add
queue_add-index q p c =
    modify-index_same p (λ r. record r { queue = some q })
      (record c { queues = set_chain q (c.queues q ++ (p ∷ [])) c.queues }) (λ r. refl)

queue_add-IsFree : (q p f : ℕ) (c : Channel) → IsFree f c → IsFree f (queue_add q p c)
unfolding queue_add modify
queue_add-IsFree q p f c x = record {
  unqueued = x.unqueued;
  unscheduled = x.unscheduled;
  unfiled = x.unfiled;
}

fresh-IsFree : (f : ℕ) (c : Channel) → IsFree f c → IsFree f (modify f (λ _. request_new) c)
unfolding modify
fresh-IsFree f c x = record {
  unqueued = x.unqueued;
  unscheduled = x.unscheduled;
  unfiled = x.unfiled;
}

pub queue_send_request_full-IsConsistent :
    (e : Env) (q : ℕ) (req : Option ℕ) (fresh code : ℕ) (response destroy : Option ℕ)
    (user_data : ℕ) (c : Channel)
    → IsFree fresh c
    → IsConsistent (index c)
    → IsConsistent
        (index (queue_send_request_full e q req fresh code response destroy user_data c).1)
unfolding queue_send_request_full
queue_send_request_full-IsConsistent e q (some p) fresh code response destroy user_data c f v =
    let d = queue_add q p c in
    elim (Bool-cases (status_eq (c.reqs p).status Status.new)) [
      | inl fits ↦ rw fits (
          send_request_full-IsConsistent e (some p) fresh code response destroy user_data d
            (queue_add-IsFree q p fresh c f) (IsConsistent-index c d (queue_add-index q p c) v))
      | inr other ↦ rw other v
    ]
queue_send_request_full-IsConsistent e q none fresh code response destroy user_data c f v =
    let n : Channel = modify fresh (λ _. request_new) c in
    let d = queue_add q fresh n in
    let s = (send_request_full e (some fresh) fresh code response destroy user_data d).1 in
    IsConsistent-index s (unref (some fresh) s) (unref-index (some fresh) s) (
      send_request_full-IsConsistent e (some fresh) fresh code response destroy user_data d
        (queue_add-IsFree q fresh fresh n (fresh-IsFree fresh c f))
        (IsConsistent-index n d (queue_add-index q fresh n) (fresh-IsConsistent fresh c f v)))

cancel_own-IsConsistent :
    (e : Env) (q id : ℕ) (notify : Bool) (o : Option ℕ) (c : Channel)
    → IsConsistent (index c)
    → IsConsistent (index (cancel_own e q id notify o c).1)
cancel_own-IsConsistent e q id notify none c v = v
cancel_own-IsConsistent e q id notify (some p) c v =
    pair-IsConsistent (ptr_eq (c.reqs p).queue (some q)) (cancel_request e id notify c) (false, c)
      (cancel_request-IsConsistent e id notify c v) v

pub queue_cancel_request-IsConsistent :
    (e : Env) (q id : ℕ) (notify : Bool) (c : Channel)
    → IsConsistent (index c)
    → IsConsistent (index (queue_cancel_request e q id notify c).1)
unfolding queue_cancel_request
queue_cancel_request-IsConsistent e q id notify c v =
    pair-IsConsistent (id == 0) (false, c) (cancel_own e q id notify (get_request id c) c) v
      (cancel_own-IsConsistent e q id notify (get_request id c) c v)

cancel_head-IsConsistent :
    (e : Env) (q : ℕ) (notify : Bool) (p : ℕ) (rest : List ℕ) (c : Channel)
    → IsConsistent (index c)
    → IsConsistent (index (cancel_head e q notify p rest c))
unfolding cancel_head
cancel_head-IsConsistent e q notify p rest c v =
    let off : Channel = record c { queues = set_chain q rest c.queues } in
    let d = modify p (λ r. record r { queue = none }) off in
    cancel_request-IsConsistent e (d.reqs p).id notify d (
      IsConsistent-index off d
        (modify-index_same p (λ r. record r { queue = none }) off (λ r. refl)) v)

cancel_round-IsConsistent :
    (again : Channel → Channel) (e : Env) (q : ℕ) (notify : Bool) (l : List ℕ) (c : Channel)
    → ((d : Channel) → IsConsistent (index d) → IsConsistent (index (again d)))
    → IsConsistent (index c)
    → IsConsistent (index (cancel_round again e q notify l c))
cancel_round-IsConsistent again e q notify [] c h v = v
cancel_round-IsConsistent again e q notify (p ∷ rest) c h v =
    h (cancel_head e q notify p rest c) (cancel_head-IsConsistent e q notify p rest c v)

cancel_loop-IsConsistent :
    (fuel : ℕ) (e : Env) (q : ℕ) (notify : Bool) (c : Channel)
    → IsConsistent (index c)
    → IsConsistent (index (cancel_loop fuel e q notify c))
unfolding cancel_loop
cancel_loop-IsConsistent zero e q notify c v = v
cancel_loop-IsConsistent (suc fuel) e q notify c v =
    cancel_round-IsConsistent (λ d. cancel_loop fuel e q notify d) e q notify (c.queues q) c
      (λ d w. cancel_loop-IsConsistent fuel e q notify d w) v

pub queue_cancel_all-IsConsistent :
    (e : Env) (q : ℕ) (notify : Bool) (c : Channel)
    → IsConsistent (index c)
    → IsConsistent (index (queue_cancel_all e q notify c))
unfolding queue_cancel_all
queue_cancel_all-IsConsistent e q notify c v =
    cancel_loop-IsConsistent (length (c.queues q)) e q notify c v

disown-index : (l : List ℕ) (c : Channel) → index (disown l c) ≡ index c
unfolding disown
disown-index [] c = refl
disown-index (p ∷ l) c =
    disown-index l (modify p (λ r. record r { queue = none }) c)
    ∙ modify-index_same p (λ r. record r { queue = none }) c (λ r. refl)

pub queue_free-IsConsistent :
    (e : Env) (q : ℕ) (c : Channel)
    → IsConsistent (index c)
    → IsConsistent (index (queue_free e q c))
unfolding queue_free
queue_free-IsConsistent e q c v =
    let d = disown (c.queues q) c in
    transaction_finish-IsConsistent e q (record d { queues = set_chain q [] d.queues })
      (IsConsistent-index c d (disown-index (c.queues q) c) v)

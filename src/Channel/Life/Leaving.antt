-- ===== src/Channel/Life/Leaving.antt =====
-- src/grilio_channel.c: a request leaves the table, to be answered, cancelled, or retried later.
use libgrilio.Base.{
  ℕ, ◌+◌, ◌*◌, ◌≡◌, refl, sym, ap, subst, ◌∙◌, inl, inr, Bool, true, false, List, arith, ◌==◌,
  Bool-cases,
}
use libgrilio.Request.{Status}
use libgrilio.Channel.State.{Channel, Env, modify, ref}
use libgrilio.Channel.Retry.{forget_ids, remove_request, schedule_retry, respond}
use libgrilio.Channel.Api.{mark_cancelled, notify_cancelled}
use libgrilio.Channel.Life.Lists.{IsOrdered-kept, insert_by, insert_sorted-insert_by}
use libgrilio.Channel.Life.Index.{
  Mark, Index, IsConsistent, mark, index, may_queue, may_wait, at, at_self, with_mark, with_status,
  forget, forget-with_mark, modify-index, modify-index_at, ref-index, forget_ids-index,
  remove_request-index,
}
use libgrilio.Channel.Life.Filing.{IsUnfiled, without-IsUnfiled, other-IsFiledIn}
use libgrilio.Channel.Life.Steps.{
  IsLoose, with_mark-IsConsistent, without-IsConsistent, insert_by-IsConsistent,
}

-- A request that stands in no list leaves the table, and changes.
left-IsConsistent :
    (p : ℕ) (g : Mark → Mark) (k : Index)
    → IsLoose p k
    → ((g (k.marks p)).status ≡ Status.new → (g (k.marks p)).deadline ≡ 0)
    → IsConsistent k
    → IsConsistent (with_mark p g (forget p k))
left-IsConsistent p g k out new v =
    let d = forget p k in
    with_mark-IsConsistent p g d (record { unqueued = out.unqueued; unscheduled = out.unscheduled })
      new
      (other-IsFiledIn k.marks p g d.table (without-IsUnfiled k.marks p k.table v.filed)
        (without-IsConsistent (k.marks p) k v).filed)
      (without-IsConsistent (k.marks p) k v)

at-cancelled :
    (P : Mark → Type 0) (marks : ℕ → Mark) (p q : ℕ)
    → (P (marks q) → P (with_status Status.cancelled (marks q)))
    → P (marks q)
    → P (at p (with_status Status.cancelled) marks q)
at-cancelled P marks p q h x = elim (Bool-cases (q == p)) [
  | inl same ↦ rw same (h x)
  | inr other ↦ rw other x
]

deadline-cancelled :
    (marks : ℕ → Mark) (p q : ℕ)
    → (at p (with_status Status.cancelled) marks q).deadline ≡ (marks q).deadline
deadline-cancelled marks p q = ground arith

-- A request is cancelled that is not in the table; it may stand in a list.
cancelled-IsConsistent :
    (p : ℕ) (k : Index)
    → IsUnfiled p k.table
    → IsConsistent k
    → IsConsistent (with_mark p (with_status Status.cancelled) k)
cancelled-IsConsistent p k u v = record {
  idle = λ q.
      at-cancelled (λ m. m.status ≡ Status.new → m.deadline ≡ 0) k.marks p q (λ x i. cc) (v.idle q);
  queued = λ q h.
      at-cancelled (λ m. (may_queue m.status ≡ true) × (m.deadline ≡ 0)) k.marks p q
        (λ x. (refl, x.1)) (v.queued q h);
  waiting =
      λ q h. at-cancelled (λ m. may_wait m.status ≡ true) k.marks p q (λ x. refl) (v.waiting q h);
  apart = v.apart;
  queued_once = v.queued_once;
  owned = v.owned;
  line_once = v.line_once;
  waiting_once = v.waiting_once;
  ordered =
      IsOrdered-kept (λ q. (k.marks q).deadline)
        (λ q. (at p (with_status Status.cancelled) k.marks q).deadline) k.retry
        (λ q h. deadline-cancelled k.marks p q) v.ordered;
  filed = other-IsFiledIn k.marks p (with_status Status.cancelled) k.table u v.filed;
}

abbrev pub retry_mark : ℕ → Mark → Mark
retry_mark t m = record m { deadline = t; status = Status.retry }

-- The retry queue takes a request in, by its deadline.
unfoldable pub wait_for : ℕ → Index → Index
wait_for p k = record k { retry = insert_by (λ q. (k.marks q).deadline) p k.retry }

pub schedule_retry-index :
    (e : Env) (p : ℕ) (c : Channel)
    → index (schedule_retry e p c)
      ≡ wait_for p
          (forget p (with_mark p (retry_mark (e.now + (c.reqs p).retry_period * 1000)) (index c)))
unfolding schedule_retry wait_for
schedule_retry-index e p c =
    let at_time : ℕ = e.now + (c.reqs p).retry_period * 1000 in
    let d : Channel =
      modify p (λ r. record r { deadline = e.now + r.retry_period * 1000; status = Status.retry })
        c in
    let f = forget_ids p (ref p d) in
    ap (λ (l : List ℕ). record (index f) { retry = l })
      (insert_sorted-insert_by f.reqs p f.retry_req)
    ∙ ap (λ k. wait_for p k)
        (forget_ids-index p (ref p d)
          ∙ ap (λ k. forget p k)
              (ref-index p d
                ∙ modify-index_at p
                    (λ r. record r {
                      deadline = e.now + r.retry_period * 1000;
                      status = Status.retry;
                    })
                    (retry_mark at_time) c (refl)))

-- A request that stands in no list is retried later.
pub schedule_retry-IsConsistent :
    (e : Env) (p : ℕ) (c : Channel)
    → IsLoose p (index c)
    → IsConsistent (index c)
    → IsConsistent (index (schedule_retry e p c))
schedule_retry-IsConsistent e p c out v =
    let g : Mark → Mark = retry_mark (e.now + (c.reqs p).retry_period * 1000) in
    let k = with_mark p g (forget p (index c)) in
    let swap : forget p (with_mark p g (index c)) ≡ k =
      forget-with_mark p g (index c) (refl) (refl) in
    let status : (k.marks p).status ≡ Status.retry =
      ap (λ (m : Mark). m.status) (at_self p g (index c).marks) ∙ (refl) in
    subst IsConsistent (sym (schedule_retry-index e p c ∙ ap (λ i. wait_for p i) swap)) (
      unfold wait_for in
      insert_by-IsConsistent p k (record { unqueued = out.unqueued; unscheduled = out.unscheduled })
        (rw status refl) (left-IsConsistent p g (index c) out (λ i. cc) v))

-- What takes a request off the table by its index.
pub remove_request-IsConsistent :
    (p : ℕ) (c : Channel) → IsConsistent (index c) → IsConsistent (index (remove_request p c))
remove_request-IsConsistent p c v =
    subst IsConsistent (sym (remove_request-index p c))
      (without-IsConsistent (mark (c.reqs p)) (index c) v)

-- A request that is answered, or has timed out for good.
pub removed_done-IsConsistent :
    (p : ℕ) (c : Channel)
    → IsLoose p (index c)
    → IsConsistent (index c)
    → IsConsistent (index (modify p (λ r. record r { status = Status.done }) (remove_request p c)))
removed_done-IsConsistent p c out v =
    let d = remove_request p c in
    subst IsConsistent
      (sym (
        modify-index p (λ r. record r { status = Status.done }) (with_status Status.done) d
          (λ r. refl)
        ∙ ap (λ k. with_mark p (with_status Status.done) k) (remove_request-index p c)))
      (left-IsConsistent p (with_status Status.done) (index c) out (λ i. cc) v)

pub mark_cancelled-index :
    (p : ℕ) (c : Channel)
    → index (mark_cancelled p c) ≡ with_mark p (with_status Status.cancelled) (index c)
unfolding mark_cancelled
mark_cancelled-index p c =
    modify-index p (λ r. record r { status = Status.cancelled }) (with_status Status.cancelled) c
      (λ r. refl)

-- A request leaves the table and is cancelled, in either order.
pub cancelled_gone :
    (p : ℕ) (c : Channel)
    → IsConsistent (index c)
    → IsConsistent (with_mark p (with_status Status.cancelled) (forget p (index c)))
cancelled_gone p c v =
    let k = index c in
    cancelled-IsConsistent p (forget p k) (without-IsUnfiled k.marks p k.table v.filed)
      (without-IsConsistent (k.marks p) k v)

pub removed_cancelled-index :
    (p : ℕ) (c : Channel)
    → index (mark_cancelled p (remove_request p c))
      ≡ with_mark p (with_status Status.cancelled) (forget p (index c))
removed_cancelled-index p c =
    mark_cancelled-index p (remove_request p c)
    ∙ ap (λ k. with_mark p (with_status Status.cancelled) k) (remove_request-index p c)

pub removed_cancelled-IsConsistent :
    (p : ℕ) (c : Channel)
    → IsConsistent (index c)
    → IsConsistent (index (mark_cancelled p (remove_request p c)))
removed_cancelled-IsConsistent p c v =
    subst IsConsistent (sym (removed_cancelled-index p c)) (cancelled_gone p c v)

pub cancelled_removed-IsConsistent :
    (p : ℕ) (c : Channel)
    → IsConsistent (index c)
    → IsConsistent (index (remove_request p (mark_cancelled p c)))
cancelled_removed-IsConsistent p c v =
    subst IsConsistent
      (sym (
        remove_request-index p (mark_cancelled p c)
        ∙ ap (λ k. forget p k) (mark_cancelled-index p c)
        ∙ forget-with_mark p (with_status Status.cancelled) (index c) refl refl))
      (cancelled_gone p c v)

pub notify_cancelled-index :
    (notify : Bool) (p : ℕ) (c : Channel) → index (notify_cancelled notify p c) ≡ index c
unfolding notify_cancelled respond
notify_cancelled-index true p c = refl
notify_cancelled-index false p c = refl

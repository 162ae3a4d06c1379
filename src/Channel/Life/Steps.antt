-- ===== src/Channel/Life/Steps.antt =====
-- The changes of an index, and what a consistent one asks of them.
use libgrilio.Base.{
  ℕ, ◌≡◌, refl, ap, subst, inl, inr, true, false, List, [], ◌∷◌, ◌++◌, arith, ◌==◌, Bool-cases,
}
use libgrilio.Base.Table.{remove, insert}
use libgrilio.Request.{Status}
use libgrilio.Channel.Send.{elem, unlink}
use libgrilio.Channel.Ownership.{distinct-snoc, distinct-unlink, elem-snoc, elem-unlink_none}
use libgrilio.Channel.Life.Lists.{
  elem-unlink_some, insert_by, elem-insert_by, distinct-insert_by, insert_by-IsOrdered,
  IsOrdered-kept, unlink-IsOrdered,
}
use libgrilio.Channel.Life.Index.{
  Mark, Index, IsConsistent, IsEntry, IsFiledIn, may_queue, may_wait, at, with_mark, without,
}
use libgrilio.Channel.Life.Filing.{remove-All, without-All}

-- A request stands in no list.
pub record IsLoose (p : ℕ) (k : Index) : Type 0 where
  pub unqueued : elem p k.first ≡ false
  pub unscheduled : elem p k.retry ≡ false

elem_other : (p q : ℕ) (l : List ℕ) → elem p l ≡ false → elem q l ≡ true → (q == p) ≡ false
elem_other p q l n h = elim (Bool-cases (q == p)) [
  | inl same ↦ let equal : q ≡ p = ground arith in cc (ap (λ r. elem r l) equal, n, h)
  | inr other ↦ other
]

pub with_mark-IsConsistent :
    (p : ℕ) (g : Mark → Mark) (k : Index)
    → IsLoose p k
    → ((g (k.marks p)).status ≡ Status.new → (g (k.marks p)).deadline ≡ 0)
    → IsFiledIn (at p g k.marks) k.table
    → IsConsistent k
    → IsConsistent (with_mark p g k)
with_mark-IsConsistent p g k out new filed v = record {
  idle = λ q h. elim (Bool-cases (q == p)) [
    | inl same ↦
        let equal : p ≡ q = ground arith in
        rw same (
          subst (λ r. (g (k.marks r)).status ≡ Status.new → (g (k.marks r)).deadline ≡ 0) equal new
            (rw same at h))
    | inr other ↦ rw other (v.idle q (rw other at h))
  ];
  queued = λ q h. rw (elem_other p q k.first out.unqueued h) (v.queued q h);
  waiting = λ q h. rw (elem_other p q k.retry out.unscheduled h) (v.waiting q h);
  apart = v.apart;
  queued_once = v.queued_once;
  owned = v.owned;
  line_once = v.line_once;
  waiting_once = v.waiting_once;
  ordered =
      IsOrdered-kept (λ q. (k.marks q).deadline) (λ q. (at p g k.marks q).deadline) k.retry
        (λ q h. rw (elem_other p q k.retry out.unscheduled h) refl) v.ordered;
  filed = filed;
}

-- Requests leave the chains, and entries the table.
pub unlink_first-IsConsistent :
    (p : ℕ) (k : Index) → IsConsistent k → IsConsistent (record k { first = unlink p k.first })
unlink_first-IsConsistent p k v = record {
  idle = v.idle;
  waiting = v.waiting;
  owned = v.owned;
  line_once = v.line_once;
  waiting_once = v.waiting_once;
  ordered = v.ordered;
  filed = v.filed;
  queued = λ q h. v.queued q (elem-unlink_some q p k.first h);
  apart = λ q h. v.apart q (elem-unlink_some q p k.first h);
  queued_once = distinct-unlink p k.first v.queued_once;
}

pub unlink_retry-IsConsistent :
    (p : ℕ) (k : Index) → IsConsistent k → IsConsistent (record k { retry = unlink p k.retry })
unlink_retry-IsConsistent p k v = record {
  idle = v.idle;
  queued = v.queued;
  queued_once = v.queued_once;
  filed = v.filed;
  waiting = λ q h. v.waiting q (elem-unlink_some q p k.retry h);
  apart = λ q h. elem-unlink_none q p k.retry (v.apart q h);
  owned = v.owned;
  line_once = v.line_once;
  waiting_once = distinct-unlink p k.retry v.waiting_once;
  ordered = unlink-IsOrdered (λ q. (k.marks q).deadline) p k.retry v.ordered;
}

pub remove-IsConsistent :
    (j : ℕ) (k : Index) → IsConsistent k → IsConsistent (record k { table = remove j k.table })
remove-IsConsistent j k v = record {
  idle = v.idle;
  queued = v.queued;
  waiting = v.waiting;
  apart = v.apart;
  queued_once = v.queued_once;
  owned = v.owned;
  line_once = v.line_once;
  waiting_once = v.waiting_once;
  ordered = v.ordered;
  filed = remove-All (λ (x : ℕ × ℕ). IsEntry x.0 (k.marks x.1)) j k.table v.filed;
}

pub without-IsConsistent :
    (m : Mark) (k : Index) → IsConsistent k → IsConsistent (record k { table = without m k.table })
without-IsConsistent m k v = record {
  idle = v.idle;
  queued = v.queued;
  waiting = v.waiting;
  apart = v.apart;
  queued_once = v.queued_once;
  owned = v.owned;
  line_once = v.line_once;
  waiting_once = v.waiting_once;
  ordered = v.ordered;
  filed = without-All (λ (x : ℕ × ℕ). IsEntry x.0 (k.marks x.1)) m k.table v.filed;
}

-- A request enters the table, the send queue, the retry queue.
pub insert-IsConsistent :
    (j p : ℕ) (k : Index)
    → IsEntry j (k.marks p)
    → IsConsistent k
    → IsConsistent (record k { table = insert j p k.table })
unfolding insert
insert-IsConsistent j p k e v = record {
  idle = v.idle;
  queued = v.queued;
  waiting = v.waiting;
  apart = v.apart;
  queued_once = v.queued_once;
  owned = v.owned;
  line_once = v.line_once;
  waiting_once = v.waiting_once;
  ordered = v.ordered;
  filed = (e, remove-All (λ (x : ℕ × ℕ). IsEntry x.0 (k.marks x.1)) j k.table v.filed);
}

pub push-IsConsistent :
    (p : ℕ) (k : Index)
    → IsLoose p k
    → (may_queue (k.marks p).status ≡ true) × ((k.marks p).deadline ≡ 0)
    → IsConsistent k
    → IsConsistent (record k { first = k.first ++ (p ∷ []) })
push-IsConsistent p k out h v = record {
  idle = v.idle;
  waiting = v.waiting;
  owned = v.owned;
  line_once = v.line_once;
  waiting_once = v.waiting_once;
  ordered = v.ordered;
  filed = v.filed;
  queued = λ q i. elim (Bool-cases (p == q)) [
    | inl same ↦
        let equal : p ≡ q = ground arith in
        subst (λ r. (may_queue (k.marks r).status ≡ true) × ((k.marks r).deadline ≡ 0)) equal h
    | inr other ↦ v.queued q (ground (arith, elem-snoc q p k.first))
  ];
  apart = λ q i. elim (Bool-cases (p == q)) [
    | inl same ↦
        let equal : p ≡ q = ground arith in
        subst (λ r. elem r k.retry ≡ false) equal out.unscheduled
    | inr other ↦ v.apart q (ground (arith, elem-snoc q p k.first))
  ];
  queued_once = distinct-snoc p k.first v.queued_once out.unqueued;
}

pub insert_by-IsConsistent :
    (p : ℕ) (k : Index)
    → IsLoose p k
    → may_wait (k.marks p).status ≡ true
    → IsConsistent k
    → IsConsistent (record k { retry = insert_by (λ q. (k.marks q).deadline) p k.retry })
insert_by-IsConsistent p k out h v =
    let time : ℕ → ℕ = λ q. (k.marks q).deadline in
    record {
      idle = v.idle;
      queued = v.queued;
      queued_once = v.queued_once;
      filed = v.filed;
      waiting = λ q i. elim (Bool-cases (p == q)) [
        | inl same ↦
            let equal : p ≡ q = ground arith in
            subst (λ r. may_wait (k.marks r).status ≡ true) equal h
        | inr other ↦ v.waiting q (ground (arith, elem-insert_by time q p k.retry))
      ];
      apart = λ q i. elim (Bool-cases (p == q)) [
        | inl same ↦
            let equal : p ≡ q = ground arith in cc (ap (λ r. elem r k.first) equal, out.unqueued, i)
        | inr other ↦ ground (arith, elem-insert_by time q p k.retry, v.apart q i)
      ];
      owned = v.owned;
      line_once = v.line_once;
      waiting_once = distinct-insert_by time p k.retry v.waiting_once out.unscheduled;
      ordered = insert_by-IsOrdered time p k.retry v.ordered;
    }

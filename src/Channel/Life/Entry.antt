-- ===== src/Channel/Life/Entry.antt =====
-- A request enters an index: the table under its ids, and the send queue.
use libgrilio.Base.{ℕ, ◌≡◌, refl, sym, ap, subst, ◌∙◌, ◌⊎◌, true, false, List, [], ◌∷◌, ◌++◌, All}
use libgrilio.Base.Table.{insert}
use libgrilio.Request.{Status, status_eq}
use libgrilio.Channel.State.{Channel, modify}
use libgrilio.Channel.Send.{queue_request}
use libgrilio.Channel.Life.Index.{
  Mark, Index, IsConsistent, IsEntry, index, is_live, may_queue, may_wait, at, at_self, with_mark,
  with_status, modify-index,
}
use libgrilio.Channel.Life.Filing.{IsUnfiled, other-IsFiledIn}
use libgrilio.Channel.Life.Steps.{
  IsLoose, with_mark-IsConsistent, insert-IsConsistent, push-IsConsistent,
}

unfoldable pub insert_keys : ℕ → List ℕ → List (ℕ × ℕ) → List (ℕ × ℕ)
insert_keys p [] t = t
insert_keys p (j ∷ l) t = insert_keys p l (insert j p t)

-- The request is given a new mark, is filed under the keys, and is queued.
unfoldable pub enter : ℕ → (Mark → Mark) → List ℕ → Index → Index
enter p g keys k = record {
  marks = at p (with_status Status.queued) (at p g k.marks);
  table = insert_keys p keys k.table;
  first = k.first ++ (p ∷ []);
  retry = k.retry;
  owner = k.owner;
  owner_queue = k.owner_queue;
}

insert_keys-IsConsistent :
    (p : ℕ) (keys : List ℕ) (k : Index)
    → All (λ j. IsEntry j (k.marks p)) keys
    → IsConsistent k
    → IsConsistent (record k { table = insert_keys p keys k.table })
unfolding insert_keys
insert_keys-IsConsistent p [] k h v = v
insert_keys-IsConsistent p (j ∷ keys) k h v =
    insert_keys-IsConsistent p keys (record k { table = insert j p k.table }) h.1
      (insert-IsConsistent j p k h.0 v)

-- The keys are the ids of a mark.
abbrev AreIds : Mark → List ℕ → Type 0
AreIds m = All (λ j. (j ≡ m.id) ⊎ (j ≡ m.current_id))

keys-IsEntry :
    (m n : Mark) (keys : List ℕ)
    → n ≡ with_status Status.queued m
    → AreIds m keys
    → All (λ j. IsEntry j n) keys
keys-IsEntry m n [] e h = tt
keys-IsEntry m n (j ∷ keys) e h =
    (subst (IsEntry j) (sym e) (h.0, refl), keys-IsEntry m n keys e h.1)

pub enter-IsConsistent :
    (p : ℕ) (g : Mark → Mark) (keys : List ℕ) (k : Index)
    → IsLoose p k
    → IsUnfiled p k.table
    → (g (k.marks p)).deadline ≡ 0
    → AreIds (g (k.marks p)) keys
    → IsConsistent k
    → IsConsistent (enter p g keys k)
unfolding enter
enter-IsConsistent p g keys k out u zero_deadline ids v =
    let a = with_mark p g k in
    let b = with_mark p (with_status Status.queued) a in
    let first_step : IsConsistent a =
      with_mark-IsConsistent p g k out (λ i. zero_deadline)
        (other-IsFiledIn k.marks p g k.table u v.filed) v in
    let marked : b.marks p ≡ with_status Status.queued (g (k.marks p)) =
      at_self p (with_status Status.queued) a.marks
      ∙ ap (with_status Status.queued) (at_self p g k.marks) in
    let second_step : IsConsistent b =
      with_mark-IsConsistent p (with_status Status.queued) a
        (record { unqueued = out.unqueued; unscheduled = out.unscheduled }) (λ i. cc)
        (other-IsFiledIn a.marks p (with_status Status.queued) k.table u first_step.filed)
        first_step in
    push-IsConsistent p (record b { table = insert_keys p keys k.table })
      (record { unqueued = out.unqueued; unscheduled = out.unscheduled })
      (
        ap (λ (m : Mark). may_queue m.status) marked,
        ap (λ (m : Mark). m.deadline) marked ∙ zero_deadline,
      )
      (insert_keys-IsConsistent p keys b (keys-IsEntry (g (k.marks p)) (b.marks p) keys marked ids)
        second_step)

pub queue_request-index :
    (p : ℕ) (c : Channel)
    → index (queue_request p c) ≡ record (with_mark p (with_status Status.queued) (index c)) {
      first = c.first_req ++ (p ∷ []);
    }
unfolding queue_request modify
queue_request-index p c =
    ap (λ (k : Index). record k { first = c.first_req ++ (p ∷ []) })
      (modify-index p (λ r. record r { status = Status.queued }) (with_status Status.queued) c
        (λ r. refl))

-- A request that is new, or waits for a retry, and has left that queue, is neither queued nor filed.
pub dead : (j : ℕ) (m : Mark) → is_live m.status ≡ false → ¬ IsEntry j m
dead j m h e = cc (h, e.1)

pub waiting_dead : (s : Status) → may_wait s ≡ true → is_live s ≡ false
waiting_dead Status.retry h = refl
waiting_dead Status.cancelled h = refl
waiting_dead Status.invalid h = cc
waiting_dead Status.new h = cc
waiting_dead Status.queued h = cc
waiting_dead Status.sending h = cc
waiting_dead Status.sent h = cc
waiting_dead Status.done h = cc

pub is_new : (s : Status) → status_eq s Status.new ≡ true → s ≡ Status.new
is_new Status.new h = refl
is_new Status.invalid h = cc
is_new Status.queued h = cc
is_new Status.sending h = cc
is_new Status.sent h = cc
is_new Status.cancelled h = cc
is_new Status.done h = cc
is_new Status.retry h = cc

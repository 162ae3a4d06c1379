-- ===== src/Channel/Life/Ending.antt =====
-- src/grilio_channel.c, grilio_channel_retry_request, grilio_channel_cancel_all and
-- grilio_channel_dispose, and the lists.
use libgrilio.Base.{
  ℕ, ◌≡◌, refl, sym, ap, subst, ◌∙◌, inl, inr, Bool, true, false, Option, none, some, List, [], ◌∷◌,
  arith, ◌==◌, ==_refl, Bool-cases,
}
use libgrilio.Base.Table.{lookup}
use libgrilio.Request.{Status, status_eq}
use libgrilio.Channel.State.{Channel, Env, ref, unref}
use libgrilio.Channel.Timers.{reset_timeout}
use libgrilio.Channel.Send.{elem, unlink, find_first}
use libgrilio.Channel.Retry.{remove_request, requeue, requeue_request}
use libgrilio.Channel.Response.{drop_pending_injects}
use libgrilio.Channel.Api.{
  mark_cancelled, notify_cancelled, has_id, holds_id, is_some, retry_now, retry_request, shutdown,
}
use libgrilio.Channel.Cancel.{
  cancel_current, cancel_linked, cancel_first, cancel_retries, cancel_key, cancel_keys, sorted_keys,
  stop_timer, cancel_all, dispose,
}
use libgrilio.Channel.Ownership.{elem-unlink_self}
use libgrilio.Channel.Life.Index.{
  Index, IsConsistent, IsConsistent-index, index, with_mark, with_status, forget, ref-index,
  unref-index,
}
use libgrilio.Channel.Life.Steps.{IsLoose, unlink_first-IsConsistent, unlink_retry-IsConsistent}
use libgrilio.Channel.Life.Holding.{Holds-own}
use libgrilio.Channel.Life.Sending.{schedule_write-Holds}
use libgrilio.Channel.Life.Leaving.{
  cancelled_gone, removed_cancelled-index, cancelled_removed-IsConsistent, notify_cancelled-index,
}
use libgrilio.Channel.Life.Entering.{requeue-Holds}
use libgrilio.Channel.Life.Answers.{reset_timeout-index}
use libgrilio.Channel.Life.Due.{requeue_request-retry_req}
use libgrilio.Channel.Life.Calls.{pair-IsConsistent}

find_first-elem :
    (test : ℕ → Bool) (l : List ℕ) (p : ℕ) → find_first test l ≡ some p → elem p l ≡ true
unfolding find_first elem
find_first-elem test [] p h = cc
find_first-elem test (q ∷ l) p h = ground (arith, find_first-elem test l p, ==_refl p)

-- A request that is found in the retry queue leaves it for the send queue.
retry_now-IsConsistent :
    (e : Env) (o : Option ℕ) (c : Channel)
    → ((p : ℕ) → o ≡ some p → elem p c.retry_req ≡ true)
    → IsConsistent (index c)
    → IsConsistent (index (retry_now e o c).1)
unfolding retry_now requeue_request
retry_now-IsConsistent e none c h v = v
retry_now-IsConsistent e (some p) c h v =
    let there : elem p c.retry_req ≡ true = h p refl in
    let w = unlink p c.retry_req in
    let d : Channel = record c { retry_req = w } in
    let loose : IsLoose p (index d) = record {
      unqueued = elim (Bool-cases (elem p c.first_req)) [
        | inl i ↦ cc (v.apart p i, there)
        | inr i ↦ i
      ];
      unscheduled = elem-unlink_self p c.retry_req v.waiting_once;
    } in
    let f = requeue_request e p d in
    IsConsistent-index f (reset_timeout e f) (reset_timeout-index e f) (
      Holds-own w f (requeue_request-retry_req e p d) (
        schedule_write-Holds e w (requeue p d) (
          requeue-Holds w p d loose (v.waiting p there) (unlink_retry-IsConsistent p (index c) v))))

pub retry_request-IsConsistent :
    (e : Env) (id : ℕ) (c : Channel)
    → IsConsistent (index c)
    → IsConsistent (index (retry_request e id c).1)
unfolding retry_request
retry_request-IsConsistent e id c v =
    let found = find_first (has_id id c) c.retry_req in
    pair-IsConsistent (id == 0) (false, c) _ v
      (pair-IsConsistent (holds_id id c c.block_req) (false, c) _ v
        (pair-IsConsistent (is_some (find_first (has_id id c) c.first_req)) (true, c) _ v
          (pair-IsConsistent (is_some (lookup id c.req_table)) (false, c) (retry_now e found c) v
            (retry_now-IsConsistent e found c (find_first-elem (has_id id c) c.retry_req) v))))

cancel_current-IsConsistent :
    (notify : Bool) (o : Option ℕ) (c : Channel)
    → IsConsistent (index c)
    → IsConsistent (index (cancel_current notify o c))
cancel_current-IsConsistent notify none c v = v
cancel_current-IsConsistent notify (some p) c v =
    let d = remove_request p (mark_cancelled p c) in
    elim (Bool-cases (status_eq (c.reqs p).status Status.cancelled)) [
      | inl already ↦ rw already v
      | inr other ↦ rw other (
          IsConsistent-index d (notify_cancelled notify p d) (notify_cancelled-index notify p d)
            (cancelled_removed-IsConsistent p c v))
    ]

abbrev cancelled_index : ℕ → Index → Index
cancelled_index p k = with_mark p (with_status Status.cancelled) (forget p k)

cancel_linked-index :
    (notify : Bool) (p : ℕ) (c : Channel)
    → index (cancel_linked notify p c) ≡ cancelled_index p (index c)
unfolding cancel_linked
cancel_linked-index notify p c =
    let d = mark_cancelled p (remove_request p c) in
    unref-index (some p) (notify_cancelled notify p d)
    ∙ notify_cancelled-index notify p d
    ∙ removed_cancelled-index p c

unlink_head : (p : ℕ) (l m : List ℕ) → m ≡ p ∷ l → l ≡ unlink p m
unfolding unlink
unlink_head p l m e = sym (ap (unlink p) e ∙ rw (==_refl p) refl)

cancel_first-IsConsistent :
    (notify : Bool) (l : List ℕ) (c : Channel)
    → c.first_req ≡ l
    → IsConsistent (index c)
    → IsConsistent (index (cancel_first notify l c))
unfolding cancel_first
cancel_first-IsConsistent notify [] c e v = v
cancel_first-IsConsistent notify (p ∷ l) c e v =
    let d : Channel = record (cancel_linked notify p c) { first_req = l } in
    let k = cancelled_index p (index c) in
    let same : index d ≡ record k { first = unlink p k.first } =
      ap (λ (i : Index). record i { first = l }) (cancel_linked-index notify p c)
      ∙ ap (λ m. record k { first = m }) (unlink_head p l c.first_req e) in
    cancel_first-IsConsistent notify l d refl
      (subst IsConsistent (sym same) (unlink_first-IsConsistent p k (cancelled_gone p c v)))

cancel_retries-IsConsistent :
    (notify : Bool) (l : List ℕ) (c : Channel)
    → c.retry_req ≡ l
    → IsConsistent (index c)
    → IsConsistent (index (cancel_retries notify l c))
unfolding cancel_retries
cancel_retries-IsConsistent notify [] c e v = v
cancel_retries-IsConsistent notify (p ∷ l) c e v =
    let d : Channel = record (cancel_linked notify p c) { retry_req = l } in
    let k = cancelled_index p (index c) in
    let same : index d ≡ record k { retry = unlink p k.retry } =
      ap (λ (i : Index). record i { retry = l }) (cancel_linked-index notify p c)
      ∙ ap (λ m. record k { retry = m }) (unlink_head p l c.retry_req e) in
    cancel_retries-IsConsistent notify l d refl
      (subst IsConsistent (sym same) (unlink_retry-IsConsistent p k (cancelled_gone p c v)))

cancel_key-IsConsistent :
    (notify : Bool) (o : Option ℕ) (c : Channel)
    → IsConsistent (index c)
    → IsConsistent (index (cancel_key notify o c))
cancel_key-IsConsistent notify none c v = v
cancel_key-IsConsistent notify (some p) c v =
    subst IsConsistent (sym (cancel_linked-index notify p (ref p c)))
      (cancelled_gone p (ref p c) (IsConsistent-index c (ref p c) (ref-index p c) v))

cancel_keys-IsConsistent :
    (notify : Bool) (l : List ℕ) (c : Channel)
    → IsConsistent (index c)
    → IsConsistent (index (cancel_keys notify l c))
unfolding cancel_keys
cancel_keys-IsConsistent notify [] c v = v
cancel_keys-IsConsistent notify (k ∷ l) c v =
    cancel_keys-IsConsistent notify l (cancel_key notify (lookup k c.req_table) c)
      (cancel_key-IsConsistent notify (lookup k c.req_table) c v)

stop_timer-index : (o : Option ℕ) (c : Channel) → index (stop_timer o c) ≡ index c
stop_timer-index none c = refl
stop_timer-index (some t) c = refl

pub cancel_all-IsConsistent :
    (notify : Bool) (c : Channel)
    → IsConsistent (index c)
    → IsConsistent (index (cancel_all notify c))
unfolding cancel_all
cancel_all-IsConsistent notify c v =
    let start : Channel = record c { block_req = none } in
    let sent = cancel_current notify start.send_req start in
    let queued = cancel_first notify sent.first_req sent in
    let tabled = cancel_keys notify (sorted_keys queued.req_table) queued in
    let waiting = cancel_retries notify tabled.retry_req tabled in
    let stopped = stop_timer waiting.timeout_id waiting in
    IsConsistent-index waiting (unref c.block_req stopped)
      (unref-index c.block_req stopped ∙ stop_timer-index waiting.timeout_id waiting)
      (cancel_retries-IsConsistent notify tabled.retry_req tabled refl (
        cancel_keys-IsConsistent notify (sorted_keys queued.req_table) queued (
          cancel_first-IsConsistent notify sent.first_req sent refl
            (cancel_current-IsConsistent notify start.send_req start v))))

pub dispose-IsConsistent : (c : Channel) → IsConsistent (index c) → IsConsistent (index (dispose c))
unfolding dispose shutdown drop_pending_injects
dispose-IsConsistent c v =
    let d = cancel_all true (shutdown c) in
    IsConsistent-index d (unref d.send_req d) (unref-index d.send_req d)
      (cancel_all-IsConsistent true (shutdown c) v)

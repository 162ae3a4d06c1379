-- ===== src/Channel/Life/Expiry.antt =====
-- src/grilio_channel.c, grilio_channel_timeout: what becomes of the expired requests.
use libgrilio.Base.{
  ℕ, ◌≡◌, refl, sym, ap, subst, ◌∙◌, inl, inr, Bool, true, false, ◌||◌, some, List, [], ◌∷◌, arith,
  ◌==◌, ==_refl, if◌then◌else◌, Bool-cases,
}
use libgrilio.Base.Int.{negsuc}
use libgrilio.Base.Table.{contains}
use libgrilio.Request.{Status, can_retry}
use libgrilio.Channel.State.{Channel, Env, modify, unref}
use libgrilio.Channel.Timers.{update_pending}
use libgrilio.Channel.Send.{elem}
use libgrilio.Channel.Retry.{
  table_remove, pending_remove, remove_request, schedule_retry, respond, collect_expired,
  finish_expired, expire_all,
}
use libgrilio.Channel.Ownership.{distinct}
use libgrilio.Channel.Life.Lists.{elem-insert_by}
use libgrilio.Channel.Life.Index.{
  IsConsistent, IsConsistent-index, index, index-if, with_mark, with_status, modify-index,
  unref-index, table_remove-index, remove_request-index,
}
use libgrilio.Channel.Life.Steps.{IsLoose, remove-IsConsistent}
use libgrilio.Channel.Life.Leaving.{
  wait_for, schedule_retry-index, schedule_retry-IsConsistent, removed_done-IsConsistent,
}
use libgrilio.Channel.Life.Answers.{pending_remove-index, respond-index}
use libgrilio.Channel.Life.Collecting.{collect_expired-Found}

-- The expired requests that are yet to be dealt with.
record Left (l : List ℕ) (c : Channel) : Type 0 where
  tidy : IsConsistent (index c)
  once : distinct l ≡ true
  out : (q : ℕ) → elem q l ≡ true → IsLoose q (index c)

Left-index : (l : List ℕ) (c d : Channel) → index d ≡ index c → Left l c → Left l d
Left-index l c d e v = record {
  tidy = IsConsistent-index c d e v.tidy;
  once = v.once;
  out = λ q h. subst (IsLoose q) (sym e) (v.out q h);
}

Left-if :
    (l : List ℕ) (b : Bool) (c d : Channel) → Left l c → Left l d → Left l (if b then c else d)
Left-if l true c d x y = x
Left-if l false c d x y = y

-- The next one, and those after it, which are others.
Left-tail :
    (p : ℕ) (l : List ℕ) (c : Channel)
    → Left (p ∷ l) c
    → IsLoose p (index c) × Left l c × (elem p l ≡ false)
unfolding elem
Left-tail p l c v =
    let other : elem p l ≡ false = ground (arith, v.once) in
    (
      v.out p (rw (==_refl p) refl),
      record { tidy = v.tidy; once = rw other at (v.once); out = λ q h. v.out q (ground arith) },
      other,
    )

table_remove-Left : (l : List ℕ) (k : ℕ) (c : Channel) → Left l c → Left l (table_remove k c)
table_remove-Left l k c v = record {
  tidy = subst IsConsistent (sym (table_remove-index k c)) (remove-IsConsistent k (index c) v.tidy);
  once = v.once;
  out = λ q h.
      let o = v.out q h in
      subst (IsLoose q) (sym (table_remove-index k c))
        (record { unqueued = o.unqueued; unscheduled = o.unscheduled });
}

ne_of_elem : (p q : ℕ) (l : List ℕ) → elem p l ≡ false → elem q l ≡ true → (p == q) ≡ false
ne_of_elem p q l n h = elim (Bool-cases (p == q)) [
  | inl same ↦ let equal : p ≡ q = ground arith in cc (ap (λ r. elem r l) equal, n, h)
  | inr other ↦ other
]

schedule_retry-Left :
    (e : Env) (p : ℕ) (l : List ℕ) (c : Channel)
    → IsLoose p (index c)
    → elem p l ≡ false
    → Left l c
    → Left l (schedule_retry e p c)
schedule_retry-Left e p l c loose n v = record {
  tidy = schedule_retry-IsConsistent e p c loose v.tidy;
  once = v.once;
  out = λ q h.
      let o = v.out q h in
      subst (IsLoose q) (sym (schedule_retry-index e p c)) (
        unfold wait_for in
        record {
          unqueued = o.unqueued;
          unscheduled = elem-insert_by _ q p c.retry_req ∙ rw (ne_of_elem p q l n h) o.unscheduled;
        });
}

removed_done-Left :
    (p : ℕ) (l : List ℕ) (c : Channel)
    → IsLoose p (index c)
    → Left l c
    → Left l (modify p (λ r. record r { status = Status.done }) (remove_request p c))
removed_done-Left p l c loose v =
    let d = remove_request p c in
    let e =
      modify-index p (λ r. record r { status = Status.done }) (with_status Status.done) d
        (λ r. refl)
      ∙ ap (λ k. with_mark p (with_status Status.done) k) (remove_request-index p c) in
    record {
      tidy = removed_done-IsConsistent p c loose v.tidy;
      once = v.once;
      out = λ q h.
          let o = v.out q h in
          subst (IsLoose q) (sym e) (record { unqueued = o.unqueued; unscheduled = o.unscheduled });
    }

finish_expired-Left :
    (e : Env) (p : ℕ) (l : List ℕ) (c : Channel) → Left (p ∷ l) c → Left l (finish_expired e p c)
unfolding finish_expired
finish_expired-Left e p l c v =
    let d = table_remove (c.reqs p).id c in
    let (loose, rest, other) = Left-tail p l d (table_remove-Left (p ∷ l) (c.reqs p).id c v) in
    let done : Channel = modify p (λ r. record r { status = Status.done }) (remove_request p d) in
    let after : Channel =
      if can_retry (d.reqs p) then schedule_retry e p d else respond p (negsuc 1) [] done in
    Left-index l after (unref (some p) after) (unref-index (some p) after) (
      Left-if l (can_retry (d.reqs p)) (schedule_retry e p d) (respond p (negsuc 1) [] done)
        (schedule_retry-Left e p l d loose other rest)
        (Left-index l done (respond p (negsuc 1) [] done) (respond-index p (negsuc 1) [] done)
          (removed_done-Left p l d loose rest)))

expire_all-IsConsistent :
    (e : Env) (l : List ℕ) (flag : Bool) (c : Channel)
    → Left l c
    → IsConsistent (index (expire_all e l (flag, c)).1)
unfolding expire_all
expire_all-IsConsistent e [] flag c v = v.tidy
expire_all-IsConsistent e (p ∷ l) flag c v =
    let k = (c.reqs p).current_id in
    let was_pending = contains k c.pending in
    let d : Channel = if was_pending then update_pending (pending_remove k c) else c in
    let same : index d ≡ index c =
      index-if was_pending (update_pending (pending_remove k c)) c c
        (unfold update_pending in pending_remove-index k c) refl in
    expire_all-IsConsistent e l (was_pending || flag) (finish_expired e p d)
      (finish_expired-Left e p l d (Left-index (p ∷ l) c d same v))

-- The two loops over the expired requests.
pub expired-IsConsistent :
    (e : Env) (c : Channel)
    → IsConsistent (index c)
    → IsConsistent (
        index
          (expire_all e
            (collect_expired e.now c.req_table ([], c)).0
            (false, (collect_expired e.now c.req_table ([], c)).1)).1)
unfolding elem
expired-IsConsistent e c v =
    let f =
      collect_expired-Found e.now c.req_table ([], c)
        (v.filed, record { tidy = v; once = refl; out = λ q h. cc; cleared = λ q h. cc }) in
    expire_all-IsConsistent e (collect_expired e.now c.req_table ([], c)).0 false _
      (record { tidy = f.tidy; once = f.once; out = f.out })

-- ===== src/Channel/Life/Calls.antt =====
-- src/grilio_channel.c: the calls of the clients, and the lists.
use libgrilio.Base.{
  ℕ, ◌≡◌, refl, ◌∙◌, Bool, true, false, not, ◌||◌, Option, none, some, arith, ◌==◌, ltb,
  if◌then◌else◌,
}
use libgrilio.Base.Int.{ℤ, is_positive, to_ℕ}
use libgrilio.Base.Table.{lookup, remove}
use libgrilio.Request.{Status, status_eq}
use libgrilio.Channel.State.{Channel, Env, modify, ref, unref}
use libgrilio.Channel.Timers.{reset_pending_timeout, reset_timeout, update_pending}
use libgrilio.Channel.Send.{unlink, find_first, serialized}
use libgrilio.Channel.Write.{schedule_write}
use libgrilio.Channel.Retry.{pending_remove, remove_request}
use libgrilio.Channel.Api.{
  notify_cancelled, mark_cancelled, cancel_sending, cancel_queued, cancel_tabled, cancel_waiting,
  cancel_found, lift_block, send_match, has_id, cancel_request, drop_pending, drop_request,
  lift_barrier, deserialize, set_pending_timeout,
}
use libgrilio.Channel.Life.Index.{
  IsConsistent, IsConsistent-index, IsConsistent-if, index, index-if, modify-index_same, ref-index,
  unref-index,
}
use libgrilio.Channel.Life.Steps.{unlink_first-IsConsistent, unlink_retry-IsConsistent}
use libgrilio.Channel.Life.Sending.{schedule_write-IsConsistent}
use libgrilio.Channel.Life.Leaving.{
  removed_cancelled-IsConsistent, cancelled_removed-IsConsistent, notify_cancelled-index,
}
use libgrilio.Channel.Life.Answers.{reset_timeout-index, pending_remove-index}

cancel_sending-IsConsistent :
    (e : Env) (notify : Bool) (p : ℕ) (block : Option ℕ) (c : Channel)
    → IsConsistent (index c)
    → IsConsistent (index (cancel_sending e notify p block c).1)
unfolding cancel_sending
cancel_sending-IsConsistent e notify p block c v =
    sending-if (status_eq (c.reqs p).status Status.cancelled)
  where
    removed : Channel
    removed = remove_request p (mark_cancelled p c)

    told : Channel
    told = unref block (notify_cancelled notify p removed)

    sending-if :
        (b : Bool)
        → IsConsistent (
            index
              (if◌then◌else◌ {A = Bool × Channel} b
                (false, unref block c)
                (true, schedule_write e told)).1)
    sending-if true = IsConsistent-index c (unref block c) (unref-index block c) v
    sending-if false = schedule_write-IsConsistent e told (
        IsConsistent-index removed told
          (unref-index block (notify_cancelled notify p removed)
            ∙ notify_cancelled-index notify p removed)
          (cancelled_removed-IsConsistent p c v))

cancel_queued-IsConsistent :
    (e : Env) (notify : Bool) (p : ℕ) (block : Option ℕ) (c : Channel)
    → IsConsistent (index c)
    → IsConsistent (index (cancel_queued e notify p block c))
unfolding cancel_queued
cancel_queued-IsConsistent e notify p block c v =
    let off : Channel = record c { first_req = unlink p c.first_req } in
    let d = mark_cancelled p (remove_request p off) in
    let told = notify_cancelled notify p d in
    schedule_write-IsConsistent e (unref block (unref (some p) told)) (
      IsConsistent-index d (unref block (unref (some p) told))
        (unref-index block (unref (some p) told)
          ∙ unref-index (some p) told
          ∙ notify_cancelled-index notify p d)
        (removed_cancelled-IsConsistent p off (unlink_first-IsConsistent p (index c) v)))

cancel_tabled-IsConsistent :
    (e : Env) (notify : Bool) (p : ℕ) (block : Option ℕ) (c : Channel)
    → IsConsistent (index c)
    → IsConsistent (index (cancel_tabled e notify p block c))
unfolding cancel_tabled
cancel_tabled-IsConsistent e notify p block c v =
    let d = mark_cancelled p (remove_request p (ref p c)) in
    let told = notify_cancelled notify p d in
    let last = reset_timeout e (unref block (unref (some p) told)) in
    schedule_write-IsConsistent e last (
      IsConsistent-index d last
        (reset_timeout-index e (unref block (unref (some p) told))
          ∙ unref-index block (unref (some p) told)
          ∙ unref-index (some p) told
          ∙ notify_cancelled-index notify p d)
        (removed_cancelled-IsConsistent p (ref p c)
          (IsConsistent-index c (ref p c) (ref-index p c) v)))

cancel_waiting-IsConsistent :
    (e : Env) (notify : Bool) (p : ℕ) (block : Option ℕ) (c : Channel)
    → IsConsistent (index c)
    → IsConsistent (index (cancel_waiting e notify p block c))
unfolding cancel_waiting
cancel_waiting-IsConsistent e notify p block c v =
    let off : Channel = record c { retry_req = unlink p c.retry_req } in
    let d = remove_request p (mark_cancelled p off) in
    let told = notify_cancelled notify p d in
    let last = reset_timeout e (unref block (unref (some p) told)) in
    schedule_write-IsConsistent e last (
      IsConsistent-index d last
        (reset_timeout-index e (unref block (unref (some p) told))
          ∙ unref-index block (unref (some p) told)
          ∙ unref-index (some p) told
          ∙ notify_cancelled-index notify p d)
        (cancelled_removed-IsConsistent p off (unlink_retry-IsConsistent p (index c) v)))

cancel_found-IsConsistent :
    (e : Env) (notify : Bool) (block queued tabled waiting : Option ℕ) (c : Channel)
    → IsConsistent (index c)
    → IsConsistent (index (cancel_found e notify block queued tabled waiting c).1)
unfolding cancel_found
cancel_found-IsConsistent e notify block (some p) tabled waiting c v =
    cancel_queued-IsConsistent e notify p block c v
cancel_found-IsConsistent e notify block none (some p) waiting c v =
    cancel_tabled-IsConsistent e notify p block c v
cancel_found-IsConsistent e notify block none none (some p) c v =
    cancel_waiting-IsConsistent e notify p block c v
cancel_found-IsConsistent e notify block none none none c v = v

lift_block-index : (id : ℕ) (c : Channel) → index (lift_block id c).1 ≡ index c
lift_block-index id c = ground arith

pub pair-IsConsistent :
    (b : Bool) (s t : Bool × Channel)
    → IsConsistent (index s.1)
    → IsConsistent (index t.1)
    → IsConsistent (index (if b then s else t).1)
pair-IsConsistent true s t x y = x
pair-IsConsistent false s t x y = y

pub cancel_request-IsConsistent :
    (e : Env) (id : ℕ) (notify : Bool) (c : Channel)
    → IsConsistent (index c)
    → IsConsistent (index (cancel_request e id notify c).1)
unfolding cancel_request
cancel_request-IsConsistent e id notify c v =
    pair-IsConsistent (id == 0) (false, c)
      (elim (send_match id d) as (λ _. Bool × Channel) [
        | some p ↦ cancel_sending e notify p block d
        | none ↦ looked
      ])
      v (match_lem (send_match id d))
  where
    block : Option ℕ
    block = (lift_block id c).0

    d : Channel
    d = (lift_block id c).1

    looked : Bool × Channel
    looked =
        cancel_found e notify block (find_first (has_id id d) d.first_req) (lookup id d.req_table)
          (find_first (has_id id d) d.retry_req) d

    kept : IsConsistent (index d)
    kept = IsConsistent-index c d (lift_block-index id c) v

    match_lem :
        (m : Option ℕ)
        → IsConsistent (
            index
              (elim m as (λ _. Bool × Channel) [
                | some p ↦ cancel_sending e notify p block d
                | none ↦ looked
              ]).1)
    match_lem (some p) = cancel_sending-IsConsistent e notify p block d kept
    match_lem none =
        cancel_found-IsConsistent e notify block (find_first (has_id id d) d.first_req)
          (lookup id d.req_table) (find_first (has_id id d) d.retry_req) d kept

drop_pending-IsConsistent :
    (e : Env) (id : ℕ) (o : Option ℕ) (c : Channel)
    → IsConsistent (index c)
    → IsConsistent (index (drop_pending e id o c))
unfolding drop_pending update_pending reset_pending_timeout
drop_pending-IsConsistent e id none c v = v
drop_pending-IsConsistent e id (some p) c v =
    let d : Channel = modify p (λ r. record r { submitted = 0 }) c in
    let f = pending_remove id d in
    schedule_write-IsConsistent e (reset_pending_timeout e f) (
      IsConsistent-index c f
        (pending_remove-index id d
          ∙ modify-index_same p (λ r. record r { submitted = 0 }) c (λ r. refl))
        v)

pub drop_request-IsConsistent :
    (e : Env) (id : ℕ) (c : Channel)
    → IsConsistent (index c)
    → IsConsistent (index (drop_request e id c))
unfolding drop_request
drop_request-IsConsistent e id c v =
    let d : Channel = (cancel_request e id false c).1 in
    drop_pending-IsConsistent e id (lookup id d.pending) d
      (cancel_request-IsConsistent e id false c v)

lift_barrier-index : (c : Channel) → index (lift_barrier c) ≡ index c
unfolding lift_barrier
lift_barrier-index c = barrier c.block_req
  where
    barrier :
        (o : Option ℕ)
        → index (elim o as (λ _. Channel) [
          | none ↦ c
          | some p ↦
              if (c.reqs p).blocking then c else record (unref (some p) c) { block_req = none }
        ])
          ≡ index c
    barrier none = refl
    barrier (some p) = index-if (c.reqs p).blocking c _ c refl (unref-index (some p) c)

pub deserialize-IsConsistent :
    (e : Env) (id : ℕ) (c : Channel)
    → IsConsistent (index c)
    → IsConsistent (index (deserialize e id c))
unfolding deserialize
deserialize-IsConsistent e id c v =
    let d : Channel = record c { block_ids = remove id c.block_ids } in
    IsConsistent-if (id == 0 || not (serialized c)) c _ v (
      IsConsistent-if (serialized d) d (schedule_write e (lift_barrier d)) v (
        schedule_write-IsConsistent e (lift_barrier d)
          (IsConsistent-index d (lift_barrier d) (lift_barrier-index d) v)))

pub set_pending_timeout-index :
    (e : Env) (ms : ℤ) (c : Channel) → index (set_pending_timeout e ms c) ≡ index c
unfolding set_pending_timeout reset_pending_timeout
set_pending_timeout-index e ms c =
    let d : Channel = record c { pending_timeout = to_ℕ ms } in
    let f : Channel = if ltb c.pending_timeout (to_ℕ ms) then reset_pending_timeout e d else d in
    index-if (not (is_positive ms)) c f c refl
      (index-if (ltb c.pending_timeout (to_ℕ ms)) (reset_pending_timeout e d) d c refl refl)

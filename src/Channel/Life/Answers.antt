-- ===== src/Channel/Life/Answers.antt =====
-- src/grilio_channel.c: what the transport signals, and the lists.
use libgrilio.Base.{
  ℕ, ◌+◌, ◌%◌, ◌^◌, ◌≡◌, refl, sym, subst, ◌∙◌, inl, inr, true, ◌&&◌, Option, none, some, List,
  Bool-cases,
}
use libgrilio.Base.Int.{ℤ, signed32}
use libgrilio.Base.Table.{lookup, contains}
use libgrilio.Request.{Status, status_eq, can_retry}
use libgrilio.Channel.State.{Channel, Env, Event, PacketType, modify, ref, unref, emit}
use libgrilio.Channel.Log.{log}
use libgrilio.Channel.Timers.{reset_pending_timeout, reset_timeout, update_pending}
use libgrilio.Channel.Send.{request_sent}
use libgrilio.Channel.Retry.{pending_remove, remove_request, schedule_retry, respond}
use libgrilio.Channel.Response.{
  ResponseType, IndicationType, queue_ack, clear_submitted, answer_pending, is_block, release_block,
  settle, settle_sent, complete, handle_response, handle_request_sent, process_injects,
  handle_connected, handle_indication,
}
use libgrilio.Channel.Life.Index.{
  IsConsistent, IsConsistent-index, index, index-if, modify-index_same, ref-index, unref-index,
}
use libgrilio.Channel.Life.Steps.{IsLoose}
use libgrilio.Channel.Life.Holding.{status-IsLoose}
use libgrilio.Channel.Life.Sending.{schedule_write-IsConsistent, request_sent-IsConsistent}
use libgrilio.Channel.Life.Leaving.{schedule_retry-IsConsistent, removed_done-IsConsistent}
use libgrilio.Channel.Life.Entering.{IsFree, queue_ack-IsConsistent}

pub pending_remove-index : (k : ℕ) (c : Channel) → index (pending_remove k c) ≡ index c
unfolding pending_remove
pending_remove-index k c = unref-index (lookup k c.pending) c

clear_submitted-index : (req : Option ℕ) (c : Channel) → index (clear_submitted req c) ≡ index c
clear_submitted-index none c = refl
clear_submitted-index (some p) c =
    modify-index_same p (λ r. record r { submitted = 0 }) c (λ r. refl)

answer_pending-index :
    (e : Env) (id : ℕ) (req : Option ℕ) (c : Channel) → index (answer_pending e id req c) ≡ index c
unfolding answer_pending reset_pending_timeout
answer_pending-index e id req c =
    index-if (contains id c.pending) _ c c
      (clear_submitted-index req (pending_remove id c) ∙ pending_remove-index id c) refl

release_block-index : (id : ℕ) (c : Channel) → index (release_block id c) ≡ index c
unfolding release_block
release_block-index id c =
    index-if (is_block id c c.block_req) _ c c (unref-index c.block_req c) refl

pub reset_timeout-index : (e : Env) (c : Channel) → index (reset_timeout e c) ≡ index c
unfolding reset_timeout
reset_timeout-index e c = refl

pub respond-index :
    (p : ℕ) (status : ℤ) (resp : List ℕ) (c : Channel) → index (respond p status resp c) ≡ index c
unfolding respond
respond-index p status resp c = refl

pub ref-IsLoose : (p : ℕ) (c : Channel) → IsLoose p (index c) → IsLoose p (index (ref p c))
ref-IsLoose p c out = subst (IsLoose p) (sym (ref-index p c)) out

-- A request that stands in no list is answered, or is retried later.
settle-IsConsistent :
    (e : Env) (status : ℤ) (resp : List ℕ) (p : ℕ) (c : Channel)
    → IsLoose p (index c)
    → IsConsistent (index c)
    → IsConsistent (index (settle e status resp p c))
unfolding settle
settle-IsConsistent e status resp p c out v =
    let d = ref p c in
    let w : IsConsistent (index d) = IsConsistent-index c d (ref-index p c) v in
    let loose = ref-IsLoose p c out in
    let done : Channel = modify p (λ r. record r { status = Status.done }) (remove_request p d) in
    let r = c.reqs p in
    elim (Bool-cases (can_retry r && r.retry status resp)) [
      | inl again ↦ rw again (
          IsConsistent-index (schedule_retry e p d)
            (unref (some p) (reset_timeout e (schedule_retry e p d)))
            (unref-index (some p) (reset_timeout e (schedule_retry e p d))
              ∙ reset_timeout-index e (schedule_retry e p d))
            (schedule_retry-IsConsistent e p d loose w))
      | inr last ↦ rw last (
          IsConsistent-index done (unref (some p) (respond p status resp done))
            (unref-index (some p) (respond p status resp done) ∙ respond-index p status resp done)
            (removed_done-IsConsistent p d loose w))
    ]

is_sent : (s : Status) → status_eq s Status.sent ≡ true → s ≡ Status.sent
is_sent Status.sent h = refl
is_sent Status.invalid h = cc
is_sent Status.new h = cc
is_sent Status.queued h = cc
is_sent Status.sending h = cc
is_sent Status.cancelled h = cc
is_sent Status.done h = cc
is_sent Status.retry h = cc

settle_sent-IsConsistent :
    (e : Env) (status : ℤ) (resp : List ℕ) (req : Option ℕ) (c : Channel)
    → IsConsistent (index c)
    → IsConsistent (index (settle_sent e status resp req c))
settle_sent-IsConsistent e status resp none c v = v
settle_sent-IsConsistent e status resp (some p) c v =
    elim (Bool-cases (status_eq (c.reqs p).status Status.sent)) [
      | inl sent ↦
          let s = is_sent (c.reqs p).status sent in
          rw sent (
            settle-IsConsistent e status resp p c
              (status-IsLoose c.retry_req p c v (rw s refl) (rw s refl)) v)
      | inr other ↦ rw other v
    ]

complete-IsConsistent :
    (e : Env) (ptype : PacketType) (id status : ℕ) (resp : List ℕ) (req : Option ℕ) (c : Channel)
    → IsConsistent (index c)
    → IsConsistent (index (complete e ptype id status resp req c))
unfolding complete update_pending
complete-IsConsistent e ptype id status resp req c v =
    let a = answer_pending e id req c in
    let d = release_block id (log ptype id status resp a) in
    schedule_write-IsConsistent e (settle_sent e (signed32 status) resp req d) (
      settle_sent-IsConsistent e (signed32 status) resp req d (
        IsConsistent-index c d
          (release_block-index id (log ptype id status resp a)
            ∙ (unfold log in answer_pending-index e id req c))
          v))

pub handle_response-IsConsistent :
    (e : Env) (type : ResponseType) (id status : ℕ) (resp : List ℕ) (fresh : ℕ) (c : Channel)
    → IsFree fresh c
    → IsConsistent (index c)
    → IsConsistent (index (handle_response e type id status resp fresh c))
unfolding handle_response
handle_response-IsConsistent e ResponseType.solicited id status resp fresh c f v =
    complete-IsConsistent e PacketType.resp id status resp (lookup id c.req_table) c v
handle_response-IsConsistent e ResponseType.solicited_ack id status resp fresh c f v =
    unfold log in v
handle_response-IsConsistent e ResponseType.solicited_ack_exp id status resp fresh c f v =
    complete-IsConsistent e PacketType.resp_ack_exp id status resp (lookup id c.req_table)
      (queue_ack fresh c) (queue_ack-IsConsistent fresh c f v)

pub handle_request_sent-IsConsistent :
    (e : Env) (p : ℕ) (c : Channel)
    → IsConsistent (index c)
    → IsConsistent (index (handle_request_sent e p c))
unfolding handle_request_sent
handle_request_sent-IsConsistent e p c v =
    schedule_write-IsConsistent e (request_sent p c) (request_sent-IsConsistent p c v)

pub handle_connected-IsConsistent :
    (e : Env) (version offset : ℕ) (c : Channel)
    → IsConsistent (index c)
    → IsConsistent (index (handle_connected e version offset c))
unfolding handle_connected process_injects
handle_connected-IsConsistent e version offset c v =
    schedule_write-IsConsistent e
      (process_injects (
        emit Event.signal_connected
          (record c { connected = true; ril_version = (version + offset) % 2 ^ 32 })))
      v

pub handle_indication-IsConsistent :
    (e : Env) (type : IndicationType) (code : ℕ) (body : List ℕ) (fresh : ℕ) (c : Channel)
    → IsFree fresh c
    → IsConsistent (index c)
    → IsConsistent (index (handle_indication e type code body fresh c))
unfolding handle_indication log
handle_indication-IsConsistent e IndicationType.unsolicited code body fresh c f v =
    schedule_write-IsConsistent e
      (emit (Event.signal_unsol code body) (log PacketType.unsol 0 code body c)) v
handle_indication-IsConsistent e IndicationType.unsolicited_ack_exp code body fresh c f v =
    schedule_write-IsConsistent e
      (emit (Event.signal_unsol code body)
        (log PacketType.unsol_ack_exp 0 code body (queue_ack fresh c)))
      (queue_ack-IsConsistent fresh c f v)

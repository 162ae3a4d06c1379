-- ===== src/Channel/Life/Stranded.antt =====
-- src/grilio_channel.c, grilio_channel_cancel_request: a request that the transport still has, and that
-- has timed out meanwhile.
use libgrilio.Base.{ℕ, ◌≡◌, ◌≢◌, refl, ap, ◌∙◌, Bool, true, false, Option, some, arith, ◌==◌}
use libgrilio.Request.{Status, status_eq}
use libgrilio.Channel.State.{Channel, Env, unref}
use libgrilio.Channel.Send.{elem}
use libgrilio.Channel.Write.{schedule_write}
use libgrilio.Channel.Retry.{remove_request}
use libgrilio.Channel.Api.{
  notify_cancelled, mark_cancelled, cancel_sending, lift_block, send_match, cancel_request,
}
use libgrilio.Channel.Frame.{schedule_write-frame}
use libgrilio.Channel.Life.Index.{Index, unref-index, remove_request-index}
use libgrilio.Channel.Life.Leaving.{mark_cancelled-index, notify_cancelled-index}

cancel_sending-retry_req :
    (e : Env) (notify : Bool) (p : ℕ) (block : Option ℕ) (c : Channel)
    → status_eq (c.reqs p).status Status.cancelled ≡ false
    → ((cancel_sending e notify p block c).0 ≡ true)
      × ((cancel_sending e notify p block c).1.retry_req ≡ c.retry_req)
unfolding cancel_sending
cancel_sending-retry_req e notify p block c h =
    let m = mark_cancelled p c in
    let d = remove_request p m in
    let told = notify_cancelled notify p d in
    let same : (schedule_write e (unref block told)).retry_req ≡ c.retry_req =
      ap (λ f. f.retry_req) (schedule_write-frame e (unref block told))
      ∙ ap (λ (k : Index). k.retry)
          (unref-index block told ∙ notify_cancelled-index notify p d ∙ remove_request-index p m)
      ∙ ap (λ (k : Index). k.retry) (mark_cancelled-index p c) in
    rw h (refl, same)

lift_block-fields :
    (id : ℕ) (c : Channel)
    → ((lift_block id c).1.send_req ≡ c.send_req)
      × ((lift_block id c).1.retry_req ≡ c.retry_req)
      × ((lift_block id c).1.reqs ≡ c.reqs)
lift_block-fields id c = ground arith

send_match_found :
    (id p : ℕ) (c : Channel) → c.send_req ≡ some p → (c.reqs p).id ≡ id → send_match id c ≡ some p
send_match_found id p c sending own = rw sending (ground arith)

-- A request that the transport has in hand, and that timed out meanwhile and waits for its next try, is
-- cancelled by its id with success, and waits for its next try all the same.
pub cancel_request_waits :
    (e : Env) (id : ℕ) (notify : Bool) (p : ℕ) (c : Channel)
    → id ≢ 0
    → c.send_req ≡ some p
    → (c.reqs p).id ≡ id
    → status_eq (c.reqs p).status Status.cancelled ≡ false
    → elem p c.retry_req ≡ true
    → ((cancel_request e id notify c).0 ≡ true)
      × (elem p (cancel_request e id notify c).1.retry_req ≡ true)
unfolding cancel_request
cancel_request_waits e id notify p c nonzero sending own live waits =
    let d = (lift_block id c).1 in
    let block = (lift_block id c).0 in
    let fields = lift_block-fields id c in
    let alive : status_eq (d.reqs p).status Status.cancelled ≡ false =
      ap (λ r. status_eq (r p).status Status.cancelled) fields.2 ∙ live in
    let done = cancel_sending-retry_req e notify p block d alive in
    let zero : (id == 0) ≡ false = ground arith in
    let match : send_match id d ≡ some p =
      send_match_found id p d (fields.0 ∙ sending) (ap (λ r. (r p).id) fields.2 ∙ own) in
    rw (zero, match) (done.0, ap (elem p) (done.1 ∙ fields.1) ∙ waits)

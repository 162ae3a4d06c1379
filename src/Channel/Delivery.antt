-- ===== src/Channel/Delivery.antt =====
-- src/grilio_channel.c, grilio_channel_handle_response: the table when a response has been handled.
use libgrilio.Base.{
  ℕ, ◌+◌, ◌*◌, ◌&&◌, ◌≡◌, ◌≢◌, refl, ap, subst, ◌∙◌, inl, inr, Bool, true, false, Option, none,
  some, List, arith, ◌==◌, ==_refl, if◌then◌else◌, Bool-cases,
}
use libgrilio.Base.Table.{lookup, contains, remove, contains-remove}
use libgrilio.Base.Int.{ℤ, signed32}
use libgrilio.Request.{Request, Status, can_retry}
use libgrilio.Channel.State.{Channel, Env, PacketType, modify, update, ref, unref}
use libgrilio.Channel.Log.{log}
use libgrilio.Channel.Timers.{reset_pending_timeout, reset_timeout, update_pending}
use libgrilio.Channel.Send.{queue_remove}
use libgrilio.Channel.Retry.{
  pending_remove, table_remove, forget_ids, remove_request, schedule_retry, respond,
}
use libgrilio.Channel.Response.{
  ResponseType, answer_pending, release_block, settle, complete, handle_response, queue_ack,
}
use libgrilio.Channel.Life.Index.{mark}
use libgrilio.Channel.Life.Entering.{queue_ack-mark}
use libgrilio.Channel.Frame.{schedule_write-frame}

-- What a response looks at: the table, and the request `p`.
record View : Type 0 where
  table : List (ℕ × ℕ)
  pub id : ℕ
  pub current_id : ℕ
  status : Status

abbrev seen : List (ℕ × ℕ) → Request → View
seen t r = record { table = t; id = r.id; current_id = r.current_id; status = r.status }

abbrev view : ℕ → Channel → View
view p c = seen c.req_table (c.reqs p)

seen-if :
    (b : Bool) (t : List (ℕ × ℕ)) (r q : Request)
    → seen t r ≡ seen t q
    → seen t (if b then r else q) ≡ seen t q
seen-if true t r q h = h
seen-if false t r q h = refl

unref-view : (p : ℕ) (o : Option ℕ) (c : Channel) → view p (unref o c) ≡ view p c
unfolding unref
unref-view p none c = refl
unref-view p (some q) c = seen-if (p == q) c.req_table _ (c.reqs p) refl

modify-view :
    (p q : ℕ) (f : Request → Request) (c : Channel)
    → seen c.req_table (f (c.reqs p)) ≡ view p c
    → view p (modify q f c) ≡ view p c
unfolding modify update
modify-view p q f c h = seen-if (p == q) c.req_table _ (c.reqs p) h

view-if :
    (b : Bool) (p : ℕ) (c d f : Channel)
    → view p c ≡ view p f
    → view p d ≡ view p f
    → view p (if b then c else d) ≡ view p f
view-if true p c d f x y = x
view-if false p c d f x y = y

pending_remove-view : (p k : ℕ) (c : Channel) → view p (pending_remove k c) ≡ view p c
unfolding pending_remove
pending_remove-view p k c = unref-view p (lookup k c.pending) c

release_block-view : (p id : ℕ) (c : Channel) → view p (release_block id c) ≡ view p c
unfolding release_block
release_block-view p id c = view-if _ p _ c c (unref-view p c.block_req c) refl

answer_pending-view :
    (e : Env) (id p : ℕ) (c : Channel) → view p (answer_pending e id (some p) c) ≡ view p c
unfolding answer_pending reset_pending_timeout
answer_pending-view e id p c =
    view-if _ p _ c c (modify-view p p _ (pending_remove id c) refl ∙ pending_remove-view p id c)
      refl

-- The two ids of a request.
pub record Ids : Type 0 where
  pub id : ℕ
  pub current_id : ℕ

abbrev pub ids : Request → Ids
ids r = record { id = r.id; current_id = r.current_id }

pub ids-if : (b : Bool) (r q : Request) → ids r ≡ ids q → ids (if b then r else q) ≡ ids q
ids-if true r q h = h
ids-if false r q h = refl

-- The table without the ids of a request.
abbrev pub cleared : Ids → List (ℕ × ℕ) → List (ℕ × ℕ)
cleared r t = let d = remove r.current_id t in if r.id == r.current_id then d else remove r.id d

pub cleared-contains :
    (r : Ids) (t : List (ℕ × ℕ))
    → (contains r.id (cleared r t) ≡ false) × (contains r.current_id (cleared r t) ≡ false)
cleared-contains r t =
    let d = remove r.current_id t in
    ground (
      arith,
      contains-remove r.current_id r.current_id t,
      contains-remove r.id r.id d,
      contains-remove r.id r.current_id d,
      ==_refl r.id,
      ==_refl r.current_id,
    )

req_table-if :
    (b : Bool) (c d : Channel)
    → (if b then c else d).req_table ≡ (if b then c.req_table else d.req_table)
req_table-if true c d = refl
req_table-if false c d = refl

forget_ids-req_table :
    (p : ℕ) (c : Channel) → (forget_ids p c).req_table ≡ cleared (ids (c.reqs p)) c.req_table
unfolding forget_ids table_remove
forget_ids-req_table p c = req_table-if ((c.reqs p).id == (c.reqs p).current_id) _ _

modify-ids :
    (p q : ℕ) (f : Request → Request) (c : Channel)
    → ids (f (c.reqs p)) ≡ ids (c.reqs p)
    → ids ((modify q f c).reqs p) ≡ ids (c.reqs p)
unfolding modify update
modify-ids p q f c h = ids-if (p == q) (f (c.reqs p)) (c.reqs p) h

ref-ids : (p : ℕ) (c : Channel) → ids ((ref p c).reqs p) ≡ ids (c.reqs p)
unfolding ref
ref-ids p c = modify-ids p p (λ r. record r { refcount = r.refcount + 1 }) c refl

schedule_retry-req_table :
    (e : Env) (p : ℕ) (c : Channel)
    → (schedule_retry e p c).req_table ≡ cleared (ids (c.reqs p)) c.req_table
unfolding schedule_retry ref modify
schedule_retry-req_table e p c =
    let f : Request → Request =
      λ r. record r { deadline = e.now + r.retry_period * 1000; status = Status.retry } in
    forget_ids-req_table p (ref p (modify p f c))
    ∙ ap (λ r. cleared r c.req_table) (ref-ids p (modify p f c) ∙ modify-ids p p f c refl)

queue_remove-ids : (p : ℕ) (c : Channel) → ids ((queue_remove p c).reqs p) ≡ ids (c.reqs p)
unfolding queue_remove update
queue_remove-ids p c = ids-if (p == p) _ (c.reqs p) refl

pub remove_request-req_table :
    (p : ℕ) (c : Channel) → (remove_request p c).req_table ≡ cleared (ids (c.reqs p)) c.req_table
unfolding remove_request queue_remove
remove_request-req_table p c =
    forget_ids-req_table p (queue_remove p c)
    ∙ ap (λ r. cleared r c.req_table) (queue_remove-ids p c)

settle-req_table :
    (e : Env) (status : ℤ) (resp : List ℕ) (p : ℕ) (c : Channel)
    → (settle e status resp p c).req_table ≡ cleared (ids (c.reqs p)) c.req_table
unfolding settle unref reset_timeout respond modify ref
settle-req_table e status resp p c =
    elim (Bool-cases (can_retry (c.reqs p) && (c.reqs p).retry status resp)) [
      | inl again ↦
          rw again
            (schedule_retry-req_table e p (ref p c) ∙ ap (λ r. cleared r c.req_table) (ref-ids p c))
      | inr done ↦
          rw done
            (remove_request-req_table p (ref p c) ∙ ap (λ r. cleared r c.req_table) (ref-ids p c))
    ]

log-view :
    (p : ℕ) (type : PacketType) (id code : ℕ) (body : List ℕ) (c : Channel)
    → view p (log type id code body c) ≡ view p c
unfolding log
log-view p type id code body c = refl

-- What is left of the table when a response came for a request that was sent.
complete-req_table :
    (e : Env) (ptype : PacketType) (id status : ℕ) (resp : List ℕ) (p : ℕ) (c : Channel)
    → (c.reqs p).status ≡ Status.sent
    → (complete e ptype id status resp (some p) c).req_table ≡ cleared (ids (c.reqs p)) c.req_table
unfolding complete update_pending
complete-req_table e ptype id status resp p c sent =
    let before : Channel =
      release_block id (log ptype id status resp (answer_pending e id (some p) c)) in
    let same : view p before ≡ view p c =
      release_block-view p id (log ptype id status resp (answer_pending e id (some p) c))
      ∙ log-view p ptype id status resp (answer_pending e id (some p) c)
      ∙ answer_pending-view e id p c in
    let here : (before.reqs p).status ≡ Status.sent = ap (λ v. v.status) same ∙ sent in
    ap (λ f. f.req_table) (schedule_write-frame e _)
    ∙ rw here (
        settle-req_table e (signed32 status) resp p before
        ∙ ap (λ v. cleared (record { id = v.id; current_id = v.current_id }) v.table) same)

-- Two ids under which the table has nothing.
abbrev pub IsGone : (id own : ℕ) → Channel → Type 0
IsGone id own c = (contains id c.req_table ≡ false) × (contains own c.req_table ≡ false)

complete-IsGone :
    (e : Env) (ptype : PacketType) (id status : ℕ) (resp : List ℕ) (p : ℕ) (r : Request)
    (c : Channel)
    → mark (c.reqs p) ≡ mark r
    → r.status ≡ Status.sent
    → r.current_id ≡ id
    → IsGone id r.id (complete e ptype id status resp (some p) c)
complete-IsGone e ptype id status resp p r c same sent own =
    let gone = cleared-contains (ids (c.reqs p)) c.req_table in
    let table = complete-req_table e ptype id status resp p c (ap (λ m. m.status) same ∙ sent) in
    rw table (
      subst (λ k. contains k (cleared (ids (c.reqs p)) c.req_table) ≡ false)
          (ap (λ m. m.current_id) same ∙ own) gone.1,
      subst (λ k. contains k (cleared (ids (c.reqs p)) c.req_table) ≡ false) (ap (λ m. m.id) same)
          gone.0,
    )

-- When a response, plain or one that wants an acknowledgement, has been handled that came for a sent
-- request under the id of its last transmission, neither this id nor the one that the client knows is
-- in the table: not if the request is done, and not if it waits for a retry, until it is queued again.
-- The acknowledgement is a request other than this one.
pub handle_response-contains :
    (e : Env) (type : ResponseType) (id status : ℕ) (resp : List ℕ) (fresh p : ℕ) (c : Channel)
    → type ≢ ResponseType.solicited_ack
    → fresh ≢ p
    → lookup id c.req_table ≡ some p
    → (c.reqs p).status ≡ Status.sent
    → (c.reqs p).current_id ≡ id
    → IsGone id (c.reqs p).id (handle_response e type id status resp fresh c)
unfolding handle_response
handle_response-contains e ResponseType.solicited_ack id status resp fresh p c plain other found
      sent own =
    absurd (plain refl)
handle_response-contains e ResponseType.solicited id status resp fresh p c plain other found sent
      own =
    rw found (complete-IsGone e PacketType.resp id status resp p (c.reqs p) c refl sent own)
handle_response-contains e ResponseType.solicited_ack_exp id status resp fresh p c plain other found
      sent own =
    rw found (
      complete-IsGone e PacketType.resp_ack_exp id status resp p (c.reqs p) (queue_ack fresh c)
        (queue_ack-mark fresh p c other) sent own)

-- ===== src/Channel/Life/Entering.antt =====
-- src/grilio_channel.c: a request enters the table and the send queue, to be sent for the first time or
-- again.
use libgrilio.Base.{
  ℕ, ◌+◌, ◌≡◌, ◌≢◌, arith, refl, sym, ap, subst, ◌∙◌, inl, inr, true, false, Option, none, some,
  List, [], ◌∷◌, ◌++◌, ==_refl, Bool-cases,
}
use libgrilio.Base.Table.{insert}
use libgrilio.Request.{Request, Status, status_eq, request_new, sized_new}
use libgrilio.Channel.Ids.{generate_id}
use libgrilio.Channel.State.{Channel, Env, modify, update, ref}
use libgrilio.Channel.Send.{elem}
use libgrilio.Channel.Write.{schedule_write}
use libgrilio.Channel.Retry.{table_insert, requeue}
use libgrilio.Channel.Response.{queue_ack}
use libgrilio.Channel.Api.{address, enqueue, send_request_full}
use libgrilio.Channel.Life.Index.{
  Mark, Index, IsConsistent, mark, index, may_wait, at_self, with_mark, with_status, modify-index,
  ref-index, unref-index, table_insert-index,
}
use libgrilio.Channel.Life.Filing.{IsUnfiled, other-IsFiledIn, dead-IsUnfiled}
use libgrilio.Channel.Life.Steps.{IsLoose, with_mark-IsConsistent}
use libgrilio.Channel.Life.Holding.{Holds, holding, status-IsLoose}
use libgrilio.Channel.Life.Sending.{schedule_write-IsConsistent}
use libgrilio.Channel.Life.Entry.{
  insert_keys, enter, enter-IsConsistent, queue_request-index, dead, waiting_dead, is_new,
}

-- Memory that no list of the channel refers to.
pub record IsFree (p : ℕ) (c : Channel) : Type 0 where
  pub unqueued : elem p c.first_req ≡ false
  pub unscheduled : elem p c.retry_req ≡ false
  pub unfiled : IsUnfiled p c.req_table

addressed : ℕ → Mark → Mark
addressed id m = record m { id = id; current_id = id }

enqueue-index :
    (p code : ℕ) (response destroy : Option ℕ) (user_data : ℕ) (c : Channel)
    → index (enqueue p code response destroy user_data c).1
      ≡ enter p
          (addressed (generate_id c.req_table c.last_req_id))
          (generate_id c.req_table c.last_req_id ∷ [])
          (index c)
unfolding enqueue enter insert_keys addressed
enqueue-index p code response destroy user_data c =
    let id = generate_id c.req_table c.last_req_id in
    let start : Channel = record c { last_req_id = id } in
    let d : Channel = modify p (address id code response destroy user_data) start in
    queue_request-index p (ref p (table_insert id p d))
    ∙ ap
        (λ (k : Index). record (with_mark p (with_status Status.queued) k) {
          first = k.first ++ (p ∷ []);
        })
        (ref-index p (table_insert id p d)
          ∙ table_insert-index id p d
          ∙ ap (λ (k : Index). record k { table = insert id p k.table })
              (modify-index p (address id code response destroy user_data) (addressed id) start
                (λ r. refl)))

-- A request that is new is queued.
pub enqueue-IsConsistent :
    (p code : ℕ) (response destroy : Option ℕ) (user_data : ℕ) (c : Channel)
    → (c.reqs p).status ≡ Status.new
    → IsConsistent (index c)
    → IsConsistent (index (enqueue p code response destroy user_data c).1)
enqueue-IsConsistent p code response destroy user_data c new v =
    let id = generate_id c.req_table c.last_req_id in
    subst IsConsistent (sym (enqueue-index p code response destroy user_data c)) (
      enter-IsConsistent p (addressed id) (id ∷ []) (index c)
        (status-IsLoose c.retry_req p c v (rw new refl) (rw new refl))
        (dead-IsUnfiled (index c).marks p c.req_table (λ j. dead j (mark (c.reqs p)) (rw new refl))
          v.filed)
        (unfold addressed in v.idle p new) (unfold addressed in (inl refl, tt)) v)

abbrev pub requeued_mark : ℕ → Mark → Mark
requeued_mark id m = record m { current_id = id; deadline = 0 }

pub requeue-index :
    (p : ℕ) (c : Channel)
    → index (requeue p c)
      ≡ enter p
          (requeued_mark (generate_id c.req_table c.last_req_id))
          ((c.reqs p).id ∷ generate_id c.req_table c.last_req_id ∷ [])
          (index c)
unfolding requeue enter insert_keys
requeue-index p c =
    let id = generate_id c.req_table c.last_req_id in
    let start : Channel = record c { last_req_id = id } in
    let f : Request → Request =
      λ r. record r { current_id = id; deadline = 0; retry_count = r.retry_count + 1 } in
    let d : Channel = modify p f start in
    let marked : index d ≡ with_mark p (requeued_mark id) (index c) =
      modify-index p f (requeued_mark id) start (λ r. refl) in
    let same : (d.reqs p).id ≡ (c.reqs p).id =
      ap (λ (k : Index). (k.marks p).id) marked
      ∙ ap (λ (m : Mark). m.id) (at_self p (requeued_mark id) (index c).marks) in
    let one = table_insert (d.reqs p).id p d in
    queue_request-index p (table_insert id p one)
    ∙ ap
        (λ (k : Index). record (with_mark p (with_status Status.queued) k) {
          first = k.first ++ (p ∷ []);
        })
        (table_insert-index id p one
          ∙ ap (λ (k : Index). record k { table = insert id p k.table })
              (table_insert-index (d.reqs p).id p d
                ∙ ap (λ j. record (index d) { table = insert j p d.req_table }) same
                ∙ ap (λ (k : Index). record k { table = insert (c.reqs p).id p k.table }) marked))

-- A request that has left the retry queue is queued.
pub requeue-Holds :
    (w : List ℕ) (p : ℕ) (c : Channel)
    → IsLoose p (holding w (index c))
    → may_wait (c.reqs p).status ≡ true
    → Holds w c
    → Holds w (requeue p c)
requeue-Holds w p c out h v =
    let id = generate_id c.req_table c.last_req_id in
    subst (λ k. IsConsistent (holding w k)) (sym (requeue-index p c))
      (unfold enter in
        enter-IsConsistent p (requeued_mark id) ((c.reqs p).id ∷ id ∷ []) (holding w (index c)) out
          (dead-IsUnfiled (index c).marks p c.req_table
            (λ j. dead j (mark (c.reqs p)) (waiting_dead (c.reqs p).status h)) v.filed)
          refl (inl refl, (inr refl, tt)) v)

ack_mark : ℕ → Mark → Mark
ack_mark id m = record { id = id; current_id = id; status = Status.new; deadline = 0 }

queue_ack-index :
    (p : ℕ) (c : Channel)
    → index (queue_ack p c)
      ≡ enter p
          (ack_mark (generate_id c.req_table c.last_req_id))
          (generate_id c.req_table c.last_req_id ∷ [])
          (index c)
unfolding queue_ack enter insert_keys ack_mark
queue_ack-index p c =
    let id = generate_id c.req_table c.last_req_id in
    let start : Channel = record c { last_req_id = id } in
    let f : Request → Request = λ _. record request_new {
      id = id;
      current_id = id;
      code = 800;
      internal = true;
      no_reply = true;
    } in
    let d : Channel = modify p f start in
    queue_request-index p (table_insert id p d)
    ∙ ap
        (λ (k : Index). record (with_mark p (with_status Status.queued) k) {
          first = k.first ++ (p ∷ []);
        })
        (table_insert-index id p d
          ∙ ap (λ (k : Index). record k { table = insert id p k.table })
              (modify-index p f (ack_mark id) start (λ r. unfold sized_new in refl)))

-- The acknowledgement is a request of its own.
pub queue_ack-mark :
    (fresh p : ℕ) (c : Channel) → fresh ≢ p → mark ((queue_ack fresh c).reqs p) ≡ mark (c.reqs p)
queue_ack-mark fresh p c other =
    let id = generate_id c.req_table c.last_req_id in
    ap (λ (k : Index). k.marks p) (queue_ack-index fresh c) ∙ unfold enter in ground (arith, other)

-- An acknowledgement is queued, at memory that nothing refers to.
pub queue_ack-IsConsistent :
    (p : ℕ) (c : Channel)
    → IsFree p c
    → IsConsistent (index c)
    → IsConsistent (index (queue_ack p c))
queue_ack-IsConsistent p c f v =
    let id = generate_id c.req_table c.last_req_id in
    subst IsConsistent (sym (queue_ack-index p c)) (
      enter-IsConsistent p (ack_mark id) (id ∷ []) (index c)
        (record { unqueued = f.unqueued; unscheduled = f.unscheduled }) f.unfiled
        (unfold ack_mark in refl) (unfold ack_mark in (inl refl, tt)) v)

-- A request is allocated.
pub fresh-IsConsistent :
    (p : ℕ) (c : Channel)
    → IsFree p c
    → IsConsistent (index c)
    → IsConsistent (index (modify p (λ _. request_new) c))
fresh-IsConsistent p c f v =
    let g : Mark → Mark = λ _. mark request_new in
    subst IsConsistent (sym (modify-index p (λ _. request_new) g c (λ r. refl))) (
      with_mark-IsConsistent p g (index c)
        (record { unqueued = f.unqueued; unscheduled = f.unscheduled })
        (λ i. unfold sized_new in refl)
        (other-IsFiledIn (index c).marks p g c.req_table f.unfiled v.filed) v)

fresh-status : (p : ℕ) (c : Channel) → ((modify p (λ _. request_new) c).reqs p).status ≡ Status.new
unfolding modify update sized_new
fresh-status p c = rw (==_refl p) refl

pub send_request_full-IsConsistent :
    (e : Env) (req : Option ℕ) (fresh code : ℕ) (response destroy : Option ℕ) (user_data : ℕ)
    (c : Channel)
    → IsFree fresh c
    → IsConsistent (index c)
    → IsConsistent (index (send_request_full e req fresh code response destroy user_data c).1)
unfolding send_request_full
send_request_full-IsConsistent e (some p) fresh code response destroy user_data c f v =
    elim (Bool-cases (status_eq (c.reqs p).status Status.new)) [
      | inl yes_new ↦
          let d = (enqueue p code response destroy user_data c).1 in
          rw yes_new (
            schedule_write-IsConsistent e d (
              enqueue-IsConsistent p code response destroy user_data c
                (is_new (c.reqs p).status yes_new) v))
      | inr other ↦ rw other v
    ]
send_request_full-IsConsistent e none fresh code response destroy user_data c f v =
    let d : Channel = modify fresh (λ _. request_new) c in
    let q = (enqueue fresh code response destroy user_data d).1 in
    subst IsConsistent (sym (unref-index (some fresh) (schedule_write e q))) (
      schedule_write-IsConsistent e q (
        enqueue-IsConsistent fresh code response destroy user_data d (fresh-status fresh c)
          (fresh-IsConsistent fresh c f v)))

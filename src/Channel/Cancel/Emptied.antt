-- ===== src/Channel/Cancel/Emptied.antt =====
-- src/grilio_channel.c, grilio_channel_cancel_all: nothing is left.
use libgrilio.Base.{
  ℕ, ◌≡◌, refl, ap, subst, ◌∙◌, Bool, true, false, Option, none, some, List, [], ◌∷◌, ◌==◌,
  if◌then◌else◌, All, All-map,
}
use libgrilio.Base.Table.{lookup}
use libgrilio.Request.{Status, status_eq}
use libgrilio.Channel.State.{Channel, ref, unref, modify}
use libgrilio.Channel.Send.{queue_remove}
use libgrilio.Channel.Retry.{table_remove, forget_ids, remove_request, respond}
use libgrilio.Channel.Api.{notify_cancelled, mark_cancelled}
use libgrilio.Channel.Cancel.{
  cancel_current, cancel_linked, cancel_first, cancel_retries, cancel_key, cancel_keys, sorted_keys,
  stop_timer, cancel_all,
}
use libgrilio.Channel.Cancel.Effect.{
  Less, Less-refl, Less-trans, unref-Less, notify_cancelled-Less, mark_cancelled-Less,
  remove_request-Less,
}
use libgrilio.Channel.Cancel.Table.{
  IsFiled, Less-IsFiled, Less-link, cancel_linked-Less, cancel_linked-status, cancel_keys-Less,
  cancel_keys-req_table,
}

cancel_first-Less : (notify : Bool) (l : List ℕ) (c : Channel) → Less c (cancel_first notify l c)
unfolding cancel_first
cancel_first-Less notify [] c = Less-refl c
cancel_first-Less notify (p ∷ l) c =
    let d : Channel = record (cancel_linked notify p c) { first_req = l } in
    Less-trans (cancel_linked-Less notify p c) (
      Less-trans {d = d} (Less-link (cancel_linked notify p c) d (λ q. refl) refl)
        (cancel_first-Less notify l d))

cancel_retries-Less :
    (notify : Bool) (l : List ℕ) (c : Channel) → Less c (cancel_retries notify l c)
unfolding cancel_retries
cancel_retries-Less notify [] c = Less-refl c
cancel_retries-Less notify (p ∷ l) c =
    let d : Channel = record (cancel_linked notify p c) { retry_req = l } in
    Less-trans (cancel_linked-Less notify p c) (
      Less-trans {d = d} (Less-link (cancel_linked notify p c) d (λ q. refl) refl)
        (cancel_retries-Less notify l d))

cancel_first-status :
    (notify : Bool) (l : List ℕ) (c : Channel)
    → All (λ p. ((cancel_first notify l c).reqs p).status ≡ Status.cancelled) l
unfolding cancel_first
cancel_first-status notify [] c = tt
cancel_first-status notify (p ∷ l) c =
    let d : Channel = record (cancel_linked notify p c) { first_req = l } in
    (
      (cancel_first-Less notify l d).marked p (cancel_linked-status notify p c),
      cancel_first-status notify l d,
    )

cancel_retries-status :
    (notify : Bool) (l : List ℕ) (c : Channel)
    → All (λ p. ((cancel_retries notify l c).reqs p).status ≡ Status.cancelled) l
unfolding cancel_retries
cancel_retries-status notify [] c = tt
cancel_retries-status notify (p ∷ l) c =
    let d : Channel = record (cancel_linked notify p c) { retry_req = l } in
    (
      (cancel_retries-Less notify l d).marked p (cancel_linked-status notify p c),
      cancel_retries-status notify l d,
    )

-- The lists that the loops go over, and what they leave alone.
record Chains : Type 0 where
  first_req : List ℕ
  retry_req : List ℕ
  block_req : Option ℕ
  send_req : Option ℕ
  pending_timeout_id : Option ℕ

abbrev chains : Channel → Chains
chains c = record {
  first_req = c.first_req;
  retry_req = c.retry_req;
  block_req = c.block_req;
  send_req = c.send_req;
  pending_timeout_id = c.pending_timeout_id;
}

chains-if :
    (b : Bool) (c d f : Channel)
    → chains c ≡ chains f
    → chains d ≡ chains f
    → chains (if b then c else d) ≡ chains f
chains-if true c d f x y = x
chains-if false c d f x y = y

forget_ids-chains : (p : ℕ) (c : Channel) → chains (forget_ids p c) ≡ chains c
unfolding forget_ids table_remove unref
forget_ids-chains p c =
    let d = table_remove (c.reqs p).current_id c in
    chains-if ((c.reqs p).id == (c.reqs p).current_id) d (table_remove (c.reqs p).id d) c refl refl

remove_request-chains : (p : ℕ) (c : Channel) → chains (remove_request p c) ≡ chains c
unfolding remove_request queue_remove
remove_request-chains p c = forget_ids-chains p (queue_remove p c)

notify_cancelled-chains :
    (notify : Bool) (p : ℕ) (c : Channel) → chains (notify_cancelled notify p c) ≡ chains c
unfolding notify_cancelled respond
notify_cancelled-chains true p c = refl
notify_cancelled-chains false p c = refl

cancel_linked-chains :
    (notify : Bool) (p : ℕ) (c : Channel) → chains (cancel_linked notify p c) ≡ chains c
unfolding cancel_linked unref mark_cancelled modify
cancel_linked-chains notify p c =
    notify_cancelled-chains notify p (mark_cancelled p (remove_request p c))
    ∙ remove_request-chains p c

Less-if : (b : Bool) (f c d : Channel) → Less f c → Less f d → Less f (if b then c else d)
Less-if true f c d x y = x
Less-if false f c d x y = y

cancel_current-Less :
    (notify : Bool) (o : Option ℕ) (c : Channel) → Less c (cancel_current notify o c)
cancel_current-Less notify none c = Less-refl c
cancel_current-Less notify (some p) c =
    Less-if (status_eq (c.reqs p).status Status.cancelled) c c _ (Less-refl c) (
      Less-trans (mark_cancelled-Less p c) (
        Less-trans (remove_request-Less p (mark_cancelled p c))
          (notify_cancelled-Less notify p (remove_request p (mark_cancelled p c)))))

cancel_current-chains :
    (notify : Bool) (o : Option ℕ) (c : Channel) → chains (cancel_current notify o c) ≡ chains c
unfolding mark_cancelled modify
cancel_current-chains notify none c = refl
cancel_current-chains notify (some p) c =
    chains-if (status_eq (c.reqs p).status Status.cancelled) c _ c refl (
      notify_cancelled-chains notify p (remove_request p (mark_cancelled p c))
      ∙ remove_request-chains p (mark_cancelled p c))

cancel_first-chains :
    (notify : Bool) (l : List ℕ) (c : Channel)
    → c.first_req ≡ l
    → chains (cancel_first notify l c) ≡ record (chains c) { first_req = [] }
unfolding cancel_first
cancel_first-chains notify [] c e = ap (λ f. record (chains c) { first_req = f }) e
cancel_first-chains notify (p ∷ l) c e =
    cancel_first-chains notify l (record (cancel_linked notify p c) { first_req = l }) refl
    ∙ ap (λ (x : Chains). record x { first_req = [] }) (cancel_linked-chains notify p c)

cancel_retries-chains :
    (notify : Bool) (l : List ℕ) (c : Channel)
    → c.retry_req ≡ l
    → chains (cancel_retries notify l c) ≡ record (chains c) { retry_req = [] }
unfolding cancel_retries
cancel_retries-chains notify [] c e = ap (λ f. record (chains c) { retry_req = f }) e
cancel_retries-chains notify (p ∷ l) c e =
    cancel_retries-chains notify l (record (cancel_linked notify p c) { retry_req = l }) refl
    ∙ ap (λ (x : Chains). record x { retry_req = [] }) (cancel_linked-chains notify p c)

cancel_key-chains :
    (notify : Bool) (o : Option ℕ) (c : Channel) → chains (cancel_key notify o c) ≡ chains c
unfolding ref modify
cancel_key-chains notify none c = refl
cancel_key-chains notify (some p) c = cancel_linked-chains notify p (ref p c)

cancel_keys-chains :
    (notify : Bool) (l : List ℕ) (c : Channel) → chains (cancel_keys notify l c) ≡ chains c
unfolding cancel_keys
cancel_keys-chains notify [] c = refl
cancel_keys-chains notify (k ∷ l) c =
    cancel_keys-chains notify l (cancel_key notify (lookup k c.req_table) c)
    ∙ cancel_key-chains notify (lookup k c.req_table) c

-- After the cancellation of everything: no list, no table and no deadline timer, and what the lists held
-- is cancelled. The timer of the pending requests is left as it was.
pub record IsEmptied (c d : Channel) : Type 0 where
  pub no_queued : d.first_req ≡ []
  pub no_retries : d.retry_req ≡ []
  pub no_table : d.req_table ≡ []
  pub no_block : d.block_req ≡ none
  pub no_deadline_timer : d.timeout_id ≡ none
  pub pending_timer : d.pending_timeout_id ≡ c.pending_timeout_id
  pub queued_cancelled : All (λ p. (d.reqs p).status ≡ Status.cancelled) c.first_req
  pub retries_cancelled : All (λ p. (d.reqs p).status ≡ Status.cancelled) c.retry_req

stop_timer-timeout_id :
    (o : Option ℕ) (c : Channel) → c.timeout_id ≡ o → (stop_timer o c).timeout_id ≡ none
stop_timer-timeout_id none c e = e
stop_timer-timeout_id (some t) c e = refl

stop_timer-Less : (o : Option ℕ) (c : Channel) → Less c (stop_timer o c)
stop_timer-Less none c = Less-refl c
stop_timer-Less (some t) c = Less-link c _ (λ q. refl) refl

stop_timer-chains : (o : Option ℕ) (c : Channel) → chains (stop_timer o c) ≡ chains c
stop_timer-chains none c = refl
stop_timer-chains (some t) c = refl

-- Where each entry of the table is a request under one of its ids, cancelling everything empties the
-- send queue, the table and the retry queue, and leaves no blocking request and no deadline timer; each
-- request that was queued or waited for a retry is cancelled. The timer of the pending requests stays.
pub cancel_all-IsEmptied :
    (notify : Bool) (c : Channel) → IsFiled c → IsEmptied c (cancel_all notify c)
unfolding cancel_all unref
cancel_all-IsEmptied notify c filed =
    let start : Channel = record c { block_req = none } in
    let sent = cancel_current notify start.send_req start in
    let queued = cancel_first notify sent.first_req sent in
    let tabled = cancel_keys notify (sorted_keys queued.req_table) queued in
    let waiting = cancel_retries notify tabled.retry_req tabled in
    let stopped = stop_timer waiting.timeout_id waiting in
    let last =
      Less-trans (stop_timer-Less waiting.timeout_id waiting) (unref-Less c.block_req stopped) in
    let from_tabled = Less-trans (cancel_retries-Less notify tabled.retry_req tabled) last in
    let from_queued =
      Less-trans (cancel_keys-Less notify (sorted_keys queued.req_table) queued) from_tabled in
    let to_queued = Less-trans (Less-link c start (λ q. refl) refl) (
      Less-trans (cancel_current-Less notify start.send_req start)
        (cancel_first-Less notify sent.first_req sent)) in
    let sent_chains = cancel_current-chains notify start.send_req start in
    let tabled_chains =
      cancel_keys-chains notify (sorted_keys queued.req_table) queued
      ∙ cancel_first-chains notify sent.first_req sent refl
      ∙ ap (λ (x : Chains). record x { first_req = [] }) sent_chains in
    let end_chains =
      stop_timer-chains waiting.timeout_id waiting
      ∙ cancel_retries-chains notify tabled.retry_req tabled refl
      ∙ ap (λ (x : Chains). record x { retry_req = [] }) tabled_chains in
    record {
      no_queued = ap (λ x. x.first_req) end_chains;
      no_retries = ap (λ x. x.retry_req) end_chains;
      no_table =
          cancel_keys-req_table notify queued (unref c.block_req stopped)
            (Less-IsFiled to_queued filed) from_tabled;
      no_block = ap (λ x. x.block_req) end_chains;
      pending_timer = ap (λ x. x.pending_timeout_id) end_chains;
      no_deadline_timer = stop_timer-timeout_id waiting.timeout_id waiting refl;
      queued_cancelled =
          subst (λ l. All (λ p. ((unref c.block_req stopped).reqs p).status ≡ Status.cancelled) l)
            (ap (λ x. x.first_req) sent_chains)
            (All-map (λ p h. from_queued.marked p h) sent.first_req
              (cancel_first-status notify sent.first_req sent));
      retries_cancelled =
          subst (λ l. All (λ p. ((unref c.block_req stopped).reqs p).status ≡ Status.cancelled) l)
            (ap (λ x. x.retry_req) tabled_chains)
            (All-map (λ p h. last.marked p h) tabled.retry_req
              (cancel_retries-status notify tabled.retry_req tabled));
    }

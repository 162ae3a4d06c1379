-- ===== src/Channel/Cancel/Effect.antt =====
-- src/grilio_channel.c: what cancelling one request does to the table and to the requests.
use libgrilio.Base.{
  ℕ, ◌≡◌, refl, sym, ap, ◌∙◌, ◌⊎◌, inl, inr, Bool, true, false, Option, none, some, List, arith,
  ◌==◌, ==_refl, if◌then◌else◌,
}
use libgrilio.Base.Table.{lookup, contains, remove, lookup-remove, contains-lookup}
use libgrilio.Request.{Request, Status}
use libgrilio.Channel.State.{Channel, modify, update, ref, unref}
use libgrilio.Channel.Send.{queue_remove}
use libgrilio.Channel.Retry.{table_remove, forget_ids, remove_request, respond}
use libgrilio.Channel.Api.{notify_cancelled, mark_cancelled}
use libgrilio.Channel.Delivery.{
  Ids, ids, ids-if, cleared, cleared-contains, remove_request-req_table,
}

-- What cancelling keeps: the ids, what is cancelled already, and the table but for what leaves it.
pub record Less (c d : Channel) : Type 0 where
  pub ids_same : (q : ℕ) → ids (d.reqs q) ≡ ids (c.reqs q)
  pub marked : (q : ℕ) → (c.reqs q).status ≡ Status.cancelled → (d.reqs q).status ≡ Status.cancelled
  pub kept : (k p : ℕ) → lookup k d.req_table ≡ some p → lookup k c.req_table ≡ some p

pub Less-refl : (c : Channel) → Less c c
Less-refl c = record { ids_same = λ q. refl; marked = λ q h. h; kept = λ k p h. h }

pub Less-trans : {c d f : Channel} → Less c d → Less d f → Less c f
Less-trans x y = record {
  ids_same = λ q. y.ids_same q ∙ x.ids_same q;
  marked = λ q h. y.marked q (x.marked q h);
  kept = λ k p h. x.kept k p (y.kept k p h);
}

-- What is looked at in a request.
record Face : Type 0 where
  id : ℕ
  current_id : ℕ
  status : Status

abbrev face : Request → Face
face r = record { id = r.id; current_id = r.current_id; status = r.status }

face-if : (b : Bool) (r q : Request) → face r ≡ face q → face (if b then r else q) ≡ face q
face-if true r q h = h
face-if false r q h = refl

-- A step that leaves the faces and the table alone.
Less-faces :
    (c d : Channel)
    → ((q : ℕ) → face (d.reqs q) ≡ face (c.reqs q))
    → d.req_table ≡ c.req_table
    → Less c d
Less-faces c d f t = record {
  ids_same = λ q. ap (λ v. record { id = v.id; current_id = v.current_id }) (f q);
  marked = λ q h. ap (λ v. v.status) (f q) ∙ h;
  kept = λ k p h. sym (ap (λ l. lookup k l) t) ∙ h;
}

pub unref-Less : (o : Option ℕ) (c : Channel) → Less c (unref o c)
unfolding unref
unref-Less none c = Less-refl c
unref-Less (some p) c =
    Less-faces c (unref (some p) c) (λ q. face-if (q == p) _ (c.reqs q) refl) refl

pub ref-Less : (p : ℕ) (c : Channel) → Less c (ref p c)
unfolding ref modify update
ref-Less p c = Less-faces c (ref p c) (λ q. face-if (q == p) _ (c.reqs q) refl) refl

pub notify_cancelled-Less :
    (notify : Bool) (p : ℕ) (c : Channel) → Less c (notify_cancelled notify p c)
unfolding notify_cancelled respond
notify_cancelled-Less true p c = Less-faces c _ (λ q. refl) refl
notify_cancelled-Less false p c = Less-refl c

status-if :
    (b : Bool) (r q : Request)
    → r.status ≡ Status.cancelled
    → q.status ≡ Status.cancelled
    → (if b then r else q).status ≡ Status.cancelled
status-if true r q x y = x
status-if false r q x y = y

pub mark_cancelled-Less : (p : ℕ) (c : Channel) → Less c (mark_cancelled p c)
unfolding mark_cancelled modify update
mark_cancelled-Less p c = record {
  ids_same = λ q. ids-if (q == p) _ (c.reqs q) refl;
  marked = λ q h. status-if (q == p) _ (c.reqs q) refl h;
  kept = λ k q h. h;
}

pub mark_cancelled-status :
    (p : ℕ) (c : Channel) → ((mark_cancelled p c).reqs p).status ≡ Status.cancelled
unfolding mark_cancelled modify update
mark_cancelled-status p c = rw (==_refl p)

channel_if-face :
    (b : Bool) (q : ℕ) (c d f : Channel)
    → face (c.reqs q) ≡ face (f.reqs q)
    → face (d.reqs q) ≡ face (f.reqs q)
    → face ((if b then c else d).reqs q) ≡ face (f.reqs q)
channel_if-face true q c d f x y = x
channel_if-face false q c d f x y = y

unref-face : (q : ℕ) (o : Option ℕ) (c : Channel) → face ((unref o c).reqs q) ≡ face (c.reqs q)
unfolding unref
unref-face q none c = refl
unref-face q (some p) c = face-if (q == p) _ (c.reqs q) refl

table_remove-face : (q k : ℕ) (c : Channel) → face ((table_remove k c).reqs q) ≡ face (c.reqs q)
unfolding table_remove
table_remove-face q k c = unref-face q (lookup k c.req_table) c

forget_ids-face : (q p : ℕ) (c : Channel) → face ((forget_ids p c).reqs q) ≡ face (c.reqs q)
unfolding forget_ids
forget_ids-face q p c =
    let d = table_remove (c.reqs p).current_id c in
    let one = table_remove-face q (c.reqs p).current_id c in
    channel_if-face _ q d (table_remove (c.reqs p).id d) c one
      (table_remove-face q (c.reqs p).id d ∙ one)

queue_remove-face : (q p : ℕ) (c : Channel) → face ((queue_remove p c).reqs q) ≡ face (c.reqs q)
unfolding queue_remove update
queue_remove-face q p c = face-if (q == p) _ (c.reqs q) refl

remove_request-face : (q p : ℕ) (c : Channel) → face ((remove_request p c).reqs q) ≡ face (c.reqs q)
unfolding remove_request
remove_request-face q p c = forget_ids-face q p (queue_remove p c) ∙ queue_remove-face q p c

cleared_kept :
    (r : Ids) (t : List (ℕ × ℕ)) (k p : ℕ) → lookup k (cleared r t) ≡ some p → lookup k t ≡ some p
cleared_kept r t k p h =
    grind (arith, lookup-remove r.current_id k t, lookup-remove r.id k (remove r.current_id t))

pub remove_request-Less : (p : ℕ) (c : Channel) → Less c (remove_request p c)
remove_request-Less p c = record {
  ids_same =
      λ q. ap (λ v. record { id = v.id; current_id = v.current_id }) (remove_request-face q p c);
  marked = λ q h. ap (λ v. v.status) (remove_request-face q p c) ∙ h;
  kept = λ k q h.
      cleared_kept (ids (c.reqs p)) c.req_table k q
        (sym (ap (λ t. lookup k t) (remove_request-req_table p c)) ∙ h);
}

-- Both ids of a request that is removed are gone.
pub remove_request-lookup :
    (p k : ℕ) (c : Channel)
    → (k ≡ (c.reqs p).id) ⊎ (k ≡ (c.reqs p).current_id)
    → lookup k (remove_request p c).req_table ≡ none
remove_request-lookup p k c own =
    let gone = cleared-contains (ids (c.reqs p)) c.req_table in
    ap (λ t. lookup k t) (remove_request-req_table p c)
    ∙ contains-lookup k (cleared (ids (c.reqs p)) c.req_table) (elim own [
      | inl e ↦ ap (λ j. contains j (cleared (ids (c.reqs p)) c.req_table)) e ∙ gone.0
      | inr e ↦ ap (λ j. contains j (cleared (ids (c.reqs p)) c.req_table)) e ∙ gone.1
    ])

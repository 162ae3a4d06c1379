-- ===== src/Channel/Cancel/Table.antt =====
-- src/grilio_channel.c, grilio_channel_cancel_all: the table is emptied.
use libgrilio.Base.{
  ℕ, ◌≡◌, refl, sym, ap, subst, ◌∙◌, ◌⊎◌, inl, inr, Bool, true, Option, none, some, List, [], ◌∷◌,
  arith, ◌==◌, ==_refl, if◌then◌else◌, Bool-cases, Option-cases,
}
use libgrilio.Base.Table.{lookup}
use libgrilio.Request.{Status}
use libgrilio.Channel.State.{Channel, ref, modify}
use libgrilio.Channel.Send.{elem}
use libgrilio.Channel.Retry.{remove_request}
use libgrilio.Channel.Api.{mark_cancelled}
use libgrilio.Channel.Cancel.{cancel_linked, cancel_key, cancel_keys, insert_key, sorted_keys}
use libgrilio.Channel.Delivery.{ids}
use libgrilio.Channel.Cancel.Effect.{
  Less, Less-refl, Less-trans, unref-Less, ref-Less, notify_cancelled-Less, mark_cancelled-Less,
  mark_cancelled-status, remove_request-Less, remove_request-lookup,
}

-- Each entry of the table is a request under one of its two ids.
abbrev pub IsFiled : Channel → Type 0
IsFiled c =
    (k p : ℕ) → lookup k c.req_table ≡ some p → (k ≡ (c.reqs p).id) ⊎ (k ≡ (c.reqs p).current_id)

pub Less-IsFiled : {c d : Channel} → Less c d → IsFiled c → IsFiled d
Less-IsFiled x f k p h = elim (f k p (x.kept k p h)) [
  | inl e ↦ inl (e ∙ ap (λ i. i.id) (sym (x.ids_same p)))
  | inr e ↦ inr (e ∙ ap (λ i. i.current_id) (sym (x.ids_same p)))
]

-- A step that only moves requests between lists.
pub Less-link :
    (c d : Channel) → ((q : ℕ) → d.reqs q ≡ c.reqs q) → d.req_table ≡ c.req_table → Less c d
Less-link c d r t = record {
  ids_same = λ q. ap (λ x. ids x) (r q);
  marked = λ q h. ap (λ x. x.status) (r q) ∙ h;
  kept = λ k p h. sym (ap (λ l. lookup k l) t) ∙ h;
}

Less-none :
    {c d : Channel} → Less c d → (k : ℕ) → lookup k c.req_table ≡ none → lookup k d.req_table ≡ none
Less-none {d = d} x k h = elim (Option-cases (lookup k d.req_table)) [
  | inl e ↦ e
  | inr (p, e) ↦ cc (x.kept k p e, h)
]

pub cancel_linked-Less : (notify : Bool) (p : ℕ) (c : Channel) → Less c (cancel_linked notify p c)
unfolding cancel_linked
cancel_linked-Less notify p c = Less-trans (remove_request-Less p c) (
    Less-trans (mark_cancelled-Less p (remove_request p c)) (
      Less-trans (notify_cancelled-Less notify p (mark_cancelled p (remove_request p c)))
        (unref-Less (some p) _)))

-- What is cancelled stays so until the reference is given back.
pub cancel_linked-status :
    (notify : Bool) (p : ℕ) (c : Channel)
    → ((cancel_linked notify p c).reqs p).status ≡ Status.cancelled
unfolding cancel_linked
cancel_linked-status notify p c =
    let d = mark_cancelled p (remove_request p c) in
    let after = Less-trans (notify_cancelled-Less notify p d) (unref-Less (some p) _) in
    after.marked p (mark_cancelled-status p (remove_request p c))

cancel_linked-lookup :
    (notify : Bool) (p k : ℕ) (c : Channel)
    → (k ≡ (c.reqs p).id) ⊎ (k ≡ (c.reqs p).current_id)
    → lookup k (cancel_linked notify p c).req_table ≡ none
unfolding cancel_linked
cancel_linked-lookup notify p k c own =
    let d = mark_cancelled p (remove_request p c) in
    let after =
      Less-trans (mark_cancelled-Less p (remove_request p c))
        (Less-trans (notify_cancelled-Less notify p d) (unref-Less (some p) _)) in
    Less-none after k (remove_request-lookup p k c own)

cancel_key-Less : (notify : Bool) (o : Option ℕ) (c : Channel) → Less c (cancel_key notify o c)
cancel_key-Less notify none c = Less-refl c
cancel_key-Less notify (some p) c =
    Less-trans (ref-Less p c) (cancel_linked-Less notify p (ref p c))

cancel_key-lookup :
    (notify : Bool) (k : ℕ) (o : Option ℕ) (c : Channel)
    → IsFiled c
    → lookup k c.req_table ≡ o
    → lookup k (cancel_key notify o c).req_table ≡ none
cancel_key-lookup notify k none c f h = h
cancel_key-lookup notify k (some p) c f h =
    cancel_linked-lookup notify p k (ref p c)
      (Less-IsFiled (ref-Less p c) f k p (unfold ref modify in h))

pub cancel_keys-Less : (notify : Bool) (l : List ℕ) (c : Channel) → Less c (cancel_keys notify l c)
unfolding cancel_keys
cancel_keys-Less notify [] c = Less-refl c
cancel_keys-Less notify (k ∷ l) c =
    Less-trans (cancel_key-Less notify (lookup k c.req_table) c)
      (cancel_keys-Less notify l (cancel_key notify (lookup k c.req_table) c))

cancel_keys-lookup :
    (notify : Bool) (l : List ℕ) (k : ℕ) (c : Channel)
    → IsFiled c
    → elem k l ≡ true
    → lookup k (cancel_keys notify l c).req_table ≡ none
unfolding cancel_keys elem
cancel_keys-lookup notify [] k c f h = cc
cancel_keys-lookup notify (j ∷ l) k c f h =
    let d = cancel_key notify (lookup j c.req_table) c in
    elim (Bool-cases (j == k)) [
      | inl same ↦
          let equal : j ≡ k = ground arith in
          Less-none (cancel_keys-Less notify l d) k (
            subst (λ i. lookup i d.req_table ≡ none) equal
              (cancel_key-lookup notify j (lookup j c.req_table) c f refl))
      | inr other ↦
          cancel_keys-lookup notify l k d
            (Less-IsFiled (cancel_key-Less notify (lookup j c.req_table) c) f) (rw other at h)
    ]

elem-insert_key :
    (k j : ℕ) (l : List ℕ) → elem k (insert_key j l) ≡ (if j == k then true else elem k l)
unfolding elem insert_key
elem-insert_key k j [] = refl
elem-insert_key k j (i ∷ l) = ground (arith, elem-insert_key k j l)

elem-sorted_keys :
    (k p : ℕ) (t : List (ℕ × ℕ)) → lookup k t ≡ some p → elem k (sorted_keys t) ≡ true
unfolding sorted_keys lookup
elem-sorted_keys k p [] h = cc
elem-sorted_keys k p ((j, q) ∷ t) h =
    ground (arith, elem-insert_key k j (sorted_keys t), elem-sorted_keys k p t)

table_empty : (t : List (ℕ × ℕ)) → ((k p : ℕ) → lookup k t ≡ some p → t ≡ []) → t ≡ []
unfolding lookup
table_empty [] h = refl
table_empty ((k, p) ∷ t) h = h k p (rw (==_refl k))

-- Whatever is looked up in the end was there before, and is a key that was gone through.
pub cancel_keys-req_table :
    (notify : Bool) (c d : Channel)
    → IsFiled c
    → Less (cancel_keys notify (sorted_keys c.req_table) c) d
    → d.req_table ≡ []
cancel_keys-req_table notify c d f x =
    let done = cancel_keys notify (sorted_keys c.req_table) c in
    table_empty d.req_table λ k p h.
      let before = (cancel_keys-Less notify (sorted_keys c.req_table) c).kept k p (x.kept k p h) in
      let gone = Less-none x k (
        cancel_keys-lookup notify (sorted_keys c.req_table) k c f
          (elem-sorted_keys k p c.req_table before)) in
      cc (gone, h)

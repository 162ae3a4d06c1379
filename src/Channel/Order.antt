-- ===== src/Channel/Order.antt =====
-- src/grilio_channel.c: the retry queue is sorted by deadline, and what is taken from it is due.
use libgrilio.Base.{
  ℕ, ◌+◌, ◌*◌, ◌≤◌, ◌<◌, ◌≡◌, refl, ap, ◌∙◌, inl, inr, Bool, true, false, Option, none, some, List,
  [], ◌∷◌, ◌++◌, arith, ◌==◌, ltb, leb, leb→le, ltb→lt, not_lt_of_ltb, if◌then◌else◌, Bool-cases,
  All, All-map,
}
use libgrilio.Base.Table.{lookup}
use libgrilio.Request.{Request, Status}
use libgrilio.Channel.State.{Channel, Env, modify, update, ref, unref}
use libgrilio.Channel.Send.{elem}
use libgrilio.Channel.Retry.{insert_sorted, table_remove, forget_ids, schedule_retry, due_retries}

-- No request of the list is due before an earlier one.
abbrev pub IsSorted : (ℕ → Request) → List ℕ → Type 0
IsSorted reqs [] = Unit {0}
IsSorted reqs (p ∷ l) = All (λ q. (reqs p).deadline ≤ (reqs q).deadline) l × IsSorted reqs l

insert_sorted-All :
    (reqs : ℕ → Request) (test : ℕ → Type 0) (p : ℕ) (l : List ℕ)
    → test p
    → All test l
    → All test (insert_sorted reqs p l)
unfolding insert_sorted
insert_sorted-All reqs test p [] h a = (h, a)
insert_sorted-All reqs test p (q ∷ l) h a =
    elim (Bool-cases (ltb (reqs q).deadline (reqs p).deadline)) [
      | inl before ↦ rw before (a.0, insert_sorted-All reqs test p l h a.1)
      | inr here ↦ rw here (h, a)
    ]

insert_sorted-IsSorted :
    (reqs : ℕ → Request) (p : ℕ) (l : List ℕ)
    → IsSorted reqs l
    → IsSorted reqs (insert_sorted reqs p l)
unfolding insert_sorted
insert_sorted-IsSorted reqs p [] s = (tt, tt)
insert_sorted-IsSorted reqs p (q ∷ l) s =
    elim (Bool-cases (ltb (reqs q).deadline (reqs p).deadline)) [
      | inl before ↦ rw before (
        insert_sorted-All reqs (λ r. (reqs q).deadline ≤ (reqs r).deadline) p l
            (omega (arith, ltb→lt _ _ before)) s.0,
        insert_sorted-IsSorted reqs p l s.1,
      )
      | inr here ↦
          let least : (reqs p).deadline ≤ (reqs q).deadline = not_lt_of_ltb _ _ here in
          rw here (
            (
              least,
              All-map (λ r (h : (reqs q).deadline ≤ (reqs r).deadline). omega (arith, h, least)) l
                  s.0,
            ),
            s,
          )
    ]

lt_of_leb : (a b : ℕ) → leb a b ≡ false → b < a
lt_of_leb a b h = ground arith

-- What `due_retries` makes of a sorted queue.
pub record Parts (reqs : ℕ → Request) (now : ℕ) (l : List ℕ) (r : List ℕ × List ℕ) : Type 0 where
  pub split : l ≡ r.0 ++ r.1
  pub due : All (λ p. (reqs p).deadline ≤ now) r.0
  pub later : All (λ p. now < (reqs p).deadline) r.1
  pub sorted : IsSorted reqs r.1

-- Of a sorted retry queue, a timeout takes just the requests whose time has come, in their order, and
-- leaves the others, which are sorted.
pub due_retries-Parts :
    (reqs : ℕ → Request) (now : ℕ) (l : List ℕ)
    → IsSorted reqs l
    → Parts reqs now l (due_retries reqs now l)
unfolding due_retries
due_retries-Parts reqs now [] s = record { split = refl; due = tt; later = tt; sorted = tt }
due_retries-Parts reqs now (p ∷ l) s = elim (Bool-cases (leb (reqs p).deadline now)) [
  | inl ready ↦
      let rest = due_retries-Parts reqs now l s.1 in
      rw ready (record {
        split = ap (λ t. p ∷ t) rest.split;
        due = (leb→le _ _ ready, rest.due);
        later = rest.later;
        sorted = rest.sorted;
      })
  | inr waits ↦
      let late : now < (reqs p).deadline = lt_of_leb _ _ waits in
      rw waits (record {
        split = refl;
        due = tt;
        later = (
          late,
          All-map (λ q (h : (reqs p).deadline ≤ (reqs q).deadline). omega (arith, h, late)) l s.0,
        );
        sorted = s;
      })
]

deadline-if :
    (b : Bool) (r q : Request)
    → r.deadline ≡ q.deadline
    → (if b then r else q).deadline ≡ q.deadline
deadline-if true r q h = h
deadline-if false r q h = refl

unref-deadline :
    (q : ℕ) (o : Option ℕ) (c : Channel) → ((unref o c).reqs q).deadline ≡ (c.reqs q).deadline
unfolding unref
unref-deadline q none c = refl
unref-deadline q (some p) c = deadline-if (q == p) _ (c.reqs q) refl

table_remove-deadline :
    (q k : ℕ) (c : Channel) → ((table_remove k c).reqs q).deadline ≡ (c.reqs q).deadline
unfolding table_remove
table_remove-deadline q k c = unref-deadline q (lookup k c.req_table) c

channel_if-deadline :
    (b : Bool) (q : ℕ) (c d f : Channel)
    → (c.reqs q).deadline ≡ (f.reqs q).deadline
    → (d.reqs q).deadline ≡ (f.reqs q).deadline
    → ((if b then c else d).reqs q).deadline ≡ (f.reqs q).deadline
channel_if-deadline true q c d f x y = x
channel_if-deadline false q c d f x y = y

retry_req-if :
    (b : Bool) (c d f : Channel)
    → c.retry_req ≡ f.retry_req
    → d.retry_req ≡ f.retry_req
    → (if b then c else d).retry_req ≡ f.retry_req
retry_req-if true c d f x y = x
retry_req-if false c d f x y = y

forget_ids-deadline :
    (q p : ℕ) (c : Channel) → ((forget_ids p c).reqs q).deadline ≡ (c.reqs q).deadline
unfolding forget_ids
forget_ids-deadline q p c =
    let d = table_remove (c.reqs p).current_id c in
    let one = table_remove-deadline q (c.reqs p).current_id c in
    channel_if-deadline _ q d (table_remove (c.reqs p).id d) c one
      (table_remove-deadline q (c.reqs p).id d ∙ one)

forget_ids-retry_req : (p : ℕ) (c : Channel) → (forget_ids p c).retry_req ≡ c.retry_req
unfolding forget_ids table_remove
forget_ids-retry_req p c = retry_req-if ((c.reqs p).id == (c.reqs p).current_id) _ _ c refl refl

ref-deadline : (q p : ℕ) (c : Channel) → ((ref p c).reqs q).deadline ≡ (c.reqs q).deadline
unfolding ref modify update
ref-deadline q p c = deadline-if (q == p) _ (c.reqs q) refl

modify-other :
    (p q : ℕ) (f : Request → Request) (c : Channel)
    → (q == p) ≡ false
    → (modify p f c).reqs q ≡ c.reqs q
unfolding modify update
modify-other p q f c h = rw h

All-zip :
    {P Q R : ℕ → Type 0} (f : (a : ℕ) → P a → Q a → R a) (xs : List ℕ)
    → All P xs
    → All Q xs
    → All R xs
All-zip f [] h k = tt
All-zip f (x ∷ xs) h k = (f x h.0 k.0, All-zip f xs h.1 k.1)

-- A list stays sorted when the deadlines on it stay.
IsSorted-same :
    (reqs other : ℕ → Request) (l : List ℕ)
    → All (λ q. (other q).deadline ≡ (reqs q).deadline) l
    → IsSorted reqs l
    → IsSorted other l
IsSorted-same reqs other [] h s = tt
IsSorted-same reqs other (p ∷ l) h s = (
  All-zip
      (λ q (g : (other q).deadline ≡ (reqs q).deadline) (k : (reqs p).deadline ≤ (reqs q).deadline).
        omega (arith, g, k, h.0))
      l h.1 s.0,
  IsSorted-same reqs other l h.1 s.1,
)

others : (p : ℕ) (l : List ℕ) → elem p l ≡ false → All (λ q. (q == p) ≡ false) l
unfolding elem
others p [] h = tt
others p (q ∷ l) h = elim (Bool-cases (q == p)) [
  | inl same ↦ cc (rw same at h)
  | inr other ↦ (other, others p l (rw other at h))
]

-- A sorted retry queue stays sorted when a request that is not on it is put there, with the deadline
-- that its retry period gives.
pub schedule_retry-IsSorted :
    (e : Env) (p : ℕ) (c : Channel)
    → elem p c.retry_req ≡ false
    → IsSorted c.reqs c.retry_req
    → IsSorted (schedule_retry e p c).reqs (schedule_retry e p c).retry_req
unfolding schedule_retry ref modify
schedule_retry-IsSorted e p c new s =
    let f : Request → Request =
      λ r. record r { deadline = e.now + r.retry_period * 1000; status = Status.retry } in
    let d = ref p (modify p f c) in
    let same = λ (q : ℕ) (other : (q == p) ≡ false).
      forget_ids-deadline q p d
      ∙ ref-deadline q p (modify p f c)
      ∙ ap (λ r. r.deadline) (modify-other p q f c other) in
    let kept : IsSorted (forget_ids p d).reqs c.retry_req =
      IsSorted-same c.reqs (forget_ids p d).reqs c.retry_req
        (All-map same c.retry_req (others p c.retry_req new)) s in
    insert_sorted-IsSorted (forget_ids p d).reqs p (forget_ids p d).retry_req
      (rw (forget_ids-retry_req p d) kept)

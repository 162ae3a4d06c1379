-- ===== src/Channel/Life/Index.antt =====
-- What the lists of a channel say of its requests: of a request, its ids, its status and its deadline;
-- and the table, the two chains, and the line of the transactions.
use libgrilio.Base.{
  ℕ, ◌≡◌, refl, sym, ap, subst, fun_ext, ◌∙◌, ◌⊎◌, inl, inr, Bool, true, false, ◌||◌, Option, none,
  some, List, ◌+◌, arith, ◌==◌, ==_refl, if◌then◌else◌, Bool-cases, All,
}
use libgrilio.Base.Table.{remove, insert, lookup}
use libgrilio.Request.{Request, Status, status_eq}
use libgrilio.Channel.State.{Channel, modify, update, ref, unref}
use libgrilio.Channel.Send.{elem, queue_remove}
use libgrilio.Channel.Retry.{table_remove, table_insert, forget_ids, remove_request}
use libgrilio.Channel.Ownership.{distinct, IsOwned, line_of}
use libgrilio.Channel.Life.Lists.{IsOrdered}

pub record Mark : Type 0 where
  pub id : ℕ
  pub current_id : ℕ
  pub status : Status
  pub deadline : ℕ

abbrev pub mark : Request → Mark
mark r = record { id = r.id; current_id = r.current_id; status = r.status; deadline = r.deadline }

pub record Index : Type 0 where
  pub marks : ℕ → Mark
  pub table : List (ℕ × ℕ)
  pub first : List ℕ
  pub retry : List ℕ
  pub owner : Option ℕ
  pub owner_queue : List ℕ

abbrev pub index : Channel → Index
index c = record {
  marks = λ q. mark (c.reqs q);
  table = c.req_table;
  first = c.first_req;
  retry = c.retry_req;
  owner = c.owner;
  owner_queue = c.owner_queue;
}

-- The states in which a request may stand in a list. A request that was cancelled in the send queue or
-- in the retry queue may still stand there.
abbrev pub may_queue : Status → Bool
may_queue s = status_eq s Status.queued || status_eq s Status.cancelled

abbrev pub may_wait : Status → Bool
may_wait s = status_eq s Status.retry || status_eq s Status.cancelled

abbrev pub is_live : Status → Bool
is_live s = status_eq s Status.queued || (status_eq s Status.sending || status_eq s Status.sent)

-- An entry of the table: under one of its ids, a request that is queued, being sent or sent.
abbrev pub IsEntry : ℕ → Mark → Type 0
IsEntry k m = ((k ≡ m.id) ⊎ (k ≡ m.current_id)) × (is_live m.status ≡ true)

abbrev pub IsFiledIn : (ℕ → Mark) → List (ℕ × ℕ) → Type 0
IsFiledIn marks = All (λ (x : ℕ × ℕ). IsEntry x.0 (marks x.1))

-- A request that is new has no deadline; what is queued is marked so and has none; what waits for a
-- retry is marked so, in the order of the deadlines; no list has a request twice, and no request is
-- in both; the table is filed; and the owner and the queues that wait for the channel are a line.
pub record IsConsistent (k : Index) : Type 0 where
  pub idle : (q : ℕ) → (k.marks q).status ≡ Status.new → (k.marks q).deadline ≡ 0
  pub queued :
      (q : ℕ)
      → elem q k.first ≡ true
      → (may_queue (k.marks q).status ≡ true) × ((k.marks q).deadline ≡ 0)
  pub waiting : (q : ℕ) → elem q k.retry ≡ true → may_wait (k.marks q).status ≡ true
  pub apart : (q : ℕ) → elem q k.first ≡ true → elem q k.retry ≡ false
  pub queued_once : distinct k.first ≡ true
  pub waiting_once : distinct k.retry ≡ true
  pub ordered : IsOrdered (λ q. (k.marks q).deadline) k.retry
  pub filed : IsFiledIn k.marks k.table
  pub owned : IsOwned k.owner k.owner_queue
  pub line_once : distinct (line_of k.owner k.owner_queue) ≡ true

pub IsConsistent-index :
    (c d : Channel) → index d ≡ index c → IsConsistent (index c) → IsConsistent (index d)
IsConsistent-index c d e v = subst IsConsistent (sym e) v

pub IsConsistent-if :
    (b : Bool) (c d : Channel)
    → IsConsistent (index c)
    → IsConsistent (index d)
    → IsConsistent (index (if b then c else d))
IsConsistent-if true c d x y = x
IsConsistent-if false c d x y = y

-- The changes of an index.
abbrev pub at : ℕ → (Mark → Mark) → (ℕ → Mark) → ℕ → Mark
at p g marks q = if q == p then g (marks q) else marks q

abbrev pub with_mark : ℕ → (Mark → Mark) → Index → Index
with_mark p g k = record k { marks = at p g k.marks }

abbrev pub with_status : Status → Mark → Mark
with_status s m = record m { status = s }

abbrev pub with_deadline : ℕ → Mark → Mark
with_deadline t m = record m { deadline = t }

pub at_self : (p : ℕ) (g : Mark → Mark) (marks : ℕ → Mark) → at p g marks p ≡ g (marks p)
at_self p g marks = rw (==_refl p) refl

-- The table without the ids of a request.
abbrev pub without : Mark → List (ℕ × ℕ) → List (ℕ × ℕ)
without m t = let d = remove m.current_id t in if m.id == m.current_id then d else remove m.id d

-- Both ids of a request leave the table.
abbrev pub forget : ℕ → Index → Index
forget p k = record k { table = without (k.marks p) k.table }

mark-if : (b : Bool) (r q : Request) → mark (if b then r else q) ≡ (if b then mark r else mark q)
mark-if true r q = refl
mark-if false r q = refl

pub mark-if_same : (b : Bool) (r q : Request) → mark r ≡ mark q → mark (if b then r else q) ≡ mark q
mark-if_same true r q h = h
mark-if_same false r q h = refl

-- A channel whose marks are given pointwise.
pub index-marks :
    (c : Channel) (marks : ℕ → Mark)
    → ((q : ℕ) → mark (c.reqs q) ≡ marks q)
    → index c ≡ record (index c) { marks = marks }
index-marks c marks h = ap (λ (m : ℕ → Mark). record (index c) { marks = m }) (fun_ext h)

pub index-if :
    (b : Bool) (c d f : Channel)
    → index c ≡ index f
    → index d ≡ index f
    → index (if b then c else d) ≡ index f
index-if true c d f x y = x
index-if false c d f x y = y

pub modify-index :
    (p : ℕ) (f : Request → Request) (g : Mark → Mark) (c : Channel)
    → ((r : Request) → mark (f r) ≡ g (mark r))
    → index (modify p f c) ≡ with_mark p g (index c)
unfolding modify update
modify-index p f g c h = index-marks (modify p f c) (at p g (index c).marks) λ q.
    mark-if (q == p) (f (c.reqs q)) (c.reqs q)
    ∙ ap (λ m. if q == p then m else mark (c.reqs q)) (h (c.reqs q))

-- A write that is known at the request that is there.
pub modify-index_at :
    (p : ℕ) (f : Request → Request) (g : Mark → Mark) (c : Channel)
    → mark (f (c.reqs p)) ≡ g (mark (c.reqs p))
    → index (modify p f c) ≡ with_mark p g (index c)
unfolding modify update
modify-index_at p f g c h = index-marks (modify p f c) (at p g (index c).marks) λ q.
    elim (Bool-cases (q == p)) [
      | inl same ↦
          let equal : p ≡ q = ground arith in
          rw same (subst (λ r. mark (f (c.reqs r)) ≡ g (mark (c.reqs r))) equal h)
      | inr other ↦ rw other refl
    ]

-- A write to a request that leaves its mark.
pub modify-index_same :
    (p : ℕ) (f : Request → Request) (c : Channel)
    → ((r : Request) → mark (f r) ≡ mark r)
    → index (modify p f c) ≡ index c
unfolding modify update
modify-index_same p f c h =
    index-marks (modify p f c) (index c).marks
      λ q. mark-if_same (q == p) (f (c.reqs q)) (c.reqs q) (h (c.reqs q))

pub unref-index : (o : Option ℕ) (c : Channel) → index (unref o c) ≡ index c
unfolding unref
unref-index none c = refl
unref-index (some p) c =
    index-marks (unref (some p) c) (index c).marks λ q. mark-if_same (q == p) _ (c.reqs q) refl

pub ref-index : (p : ℕ) (c : Channel) → index (ref p c) ≡ index c
unfolding ref
ref-index p c = modify-index_same p (λ r. record r { refcount = r.refcount + 1 }) c (λ r. refl)

pub table_remove-index :
    (k : ℕ) (c : Channel)
    → index (table_remove k c) ≡ record (index c) { table = remove k c.req_table }
unfolding table_remove
table_remove-index k c =
    ap (λ (i : Index). record i { table = remove k c.req_table })
      (unref-index (lookup k c.req_table) c)

pub table_insert-index :
    (k p : ℕ) (c : Channel)
    → index (table_insert k p c) ≡ record (index c) { table = insert k p c.req_table }
unfolding table_insert ref modify
table_insert-index k p c =
    ap (λ (i : Index). record i { table = insert k p c.req_table })
      (unref-index (lookup k (ref p c).req_table) (ref p c) ∙ ref-index p c)

forget-if :
    (b : Bool) (j i : ℕ) (t : List (ℕ × ℕ)) (c d f : Channel)
    → index c ≡ record (index f) { table = remove i t }
    → index d ≡ record (index f) { table = remove j (remove i t) }
    → index (if b then c else d)
      ≡ record (index f) { table = if b then remove i t else remove j (remove i t) }
forget-if true j i t c d f x y = x
forget-if false j i t c d f x y = y

pub forget_ids-index : (p : ℕ) (c : Channel) → index (forget_ids p c) ≡ forget p (index c)
unfolding forget_ids
forget_ids-index p c =
    let r = c.reqs p in
    let d = table_remove r.current_id c in
    let one = table_remove-index r.current_id c in
    forget-if (r.id == r.current_id) r.id r.current_id c.req_table d (table_remove r.id d) c one
      (table_remove-index r.id d ∙ ap (λ (k : Index). record k { table = remove r.id k.table }) one)

pub queue_remove-index : (p : ℕ) (c : Channel) → index (queue_remove p c) ≡ index c
unfolding queue_remove update
queue_remove-index p c =
    index-marks (queue_remove p c) (index c).marks λ q. mark-if_same (q == p) _ (c.reqs q) refl

pub remove_request-index : (p : ℕ) (c : Channel) → index (remove_request p c) ≡ forget p (index c)
unfolding remove_request
remove_request-index p c =
    forget_ids-index p (queue_remove p c) ∙ ap (λ k. forget p k) (queue_remove-index p c)

-- The ids stay when the mark changes otherwise.
pub forget-with_mark :
    (p : ℕ) (g : Mark → Mark) (k : Index)
    → (g (k.marks p)).id ≡ (k.marks p).id
    → (g (k.marks p)).current_id ≡ (k.marks p).current_id
    → forget p (with_mark p g k) ≡ with_mark p g (forget p k)
forget-with_mark p g k i j =
    ap (λ (t : List (ℕ × ℕ)). record (with_mark p g k) { table = t }) (rw (==_refl p, i, j) refl)

-- ===== src/Channel/Life/Collecting.antt =====
-- src/grilio_channel.c, grilio_channel_pending_timeout, and the search for the expired requests in
-- grilio_channel_timeout.
use libgrilio.Base.{
  ℕ, ◌≡◌, refl, sym, subst, ◌∙◌, inl, inr, Bool, true, false, none, some, List, [], ◌∷◌, arith,
  ◌==◌, ==_refl, leb, if◌then◌else◌, Bool-cases,
}
use libgrilio.Request.{Request}
use libgrilio.Channel.State.{Channel, Env, modify, ref, unref}
use libgrilio.Channel.Timers.{pending_deadline, reset_pending_timeout, update_pending}
use libgrilio.Channel.Send.{elem, ptr_eq}
use libgrilio.Channel.Retry.{
  pending_remove, expire_pending, pending_timeout, is_expired, take_expired, collect_expired,
}
use libgrilio.Channel.Ownership.{distinct}
use libgrilio.Channel.Life.Index.{
  Mark, Index, IsConsistent, IsConsistent-index, IsFiledIn, index, index-if, is_live, at, with_mark,
  with_deadline, modify-index, ref-index, unref-index,
}
use libgrilio.Channel.Life.Filing.{kept-IsFiledIn}
use libgrilio.Channel.Life.Steps.{IsLoose, with_mark-IsConsistent}
use libgrilio.Channel.Life.Sending.{schedule_write-IsConsistent}
use libgrilio.Channel.Life.Entry.{waiting_dead}
use libgrilio.Channel.Life.Answers.{pending_remove-index}

expire_pending-index :
    (now : ℕ) (t : List (ℕ × ℕ)) (c : Channel) → index (expire_pending now t c) ≡ index c
unfolding expire_pending
expire_pending-index now [] c = refl
expire_pending-index now ((k, p) ∷ t) c =
    let lifted : Channel = record (unref (some p) c) { block_req = none } in
    let d = if ptr_eq c.block_req (some p) then lifted else c in
    let f = if leb (pending_deadline c (c.reqs p)) now then pending_remove k d else c in
    expire_pending-index now t f
    ∙ index-if (leb (pending_deadline c (c.reqs p)) now) (pending_remove k d) c c
        (pending_remove-index k d
          ∙ index-if (ptr_eq c.block_req (some p)) lifted c c (unref-index (some p) c) refl)
        refl

pub pending_timeout-IsConsistent :
    (e : Env) (c : Channel) → IsConsistent (index c) → IsConsistent (index (pending_timeout e c))
unfolding pending_timeout update_pending reset_pending_timeout
pending_timeout-IsConsistent e c v =
    let start : Channel = record c { pending_timeout_id = none } in
    let d = expire_pending e.now c.pending start in
    schedule_write-IsConsistent e (reset_pending_timeout e d)
      (IsConsistent-index start d (expire_pending-index e.now c.pending start) v)

take_expired-index :
    (p : ℕ) (c : Channel) → index (take_expired p c) ≡ with_mark p (with_deadline 0) (index c)
unfolding take_expired
take_expired-index p c =
    let d : Channel = modify p (λ r. record r { deadline = 0 }) c in
    index-if (ptr_eq d.block_req (some p)) (record d { block_req = none }) (ref p d) d refl
      (ref-index p d)
    ∙ modify-index p (λ r. record r { deadline = 0 }) (with_deadline 0) c (λ r. refl)

-- The expired requests that were found: each once, in no list, and with no deadline any more.
pub record Found (l : List ℕ) (k : Index) : Type 0 where
  pub tidy : IsConsistent k
  pub once : distinct l ≡ true
  pub out : (q : ℕ) → elem q l ≡ true → IsLoose q k
  pub cleared : (q : ℕ) → elem q l ≡ true → (k.marks q).deadline ≡ 0

-- A request of the table that has a deadline stands in no list.
expired-IsLoose :
    (k : Index) (p : ℕ)
    → IsConsistent k
    → is_live (k.marks p).status ≡ true
    → ((k.marks p).deadline == 0) ≡ false
    → IsLoose p k
expired-IsLoose k p v live late = record {
  unqueued = elim (Bool-cases (elem p k.first)) [ inl i ↦ cc (late, (v.queued p i).1) | inr i ↦ i ];
  unscheduled = elim (Bool-cases (elem p k.retry)) [
    | inl i ↦ cc (live, waiting_dead (k.marks p).status (v.waiting p i))
    | inr i ↦ i
  ];
}

deadline_at :
    (p q : ℕ) (marks : ℕ → Mark)
    → (marks q).deadline ≡ 0
    → (at p (with_deadline 0) marks q).deadline ≡ 0
deadline_at p q marks h = ground arith

Found-cons :
    (l : List ℕ) (p : ℕ) (k : Index)
    → is_live (k.marks p).status ≡ true
    → ((k.marks p).deadline == 0) ≡ false
    → Found l k
    → Found (p ∷ l) (with_mark p (with_deadline 0) k)
unfolding elem
Found-cons l p k live late f =
    let loose = expired-IsLoose k p f.tidy live late in
    let other : elem p l ≡ false = elim (Bool-cases (elem p l)) [
      | inl i ↦ cc (late, f.cleared p i)
      | inr i ↦ i
    ] in
    record {
      tidy =
          with_mark-IsConsistent p (with_deadline 0) k loose (λ i. refl)
            (kept-IsFiledIn k.marks p (with_deadline 0) k.table (λ j i. i) f.tidy.filed) f.tidy;
      once = rw other (f.once);
      out = λ q i. elim (Bool-cases (p == q)) [
        | inl same ↦
            let equal : p ≡ q = ground arith in
            subst (λ r. IsLoose r (with_mark p (with_deadline 0) k)) equal
              (record { unqueued = loose.unqueued; unscheduled = loose.unscheduled })
        | inr different ↦
            let o = f.out q (rw different at i) in
            record { unqueued = o.unqueued; unscheduled = o.unscheduled }
      ];
      cleared = λ q i. elim (Bool-cases (p == q)) [
        | inl same ↦
            let equal : p ≡ q = ground arith in
            subst (λ r. (at p (with_deadline 0) k.marks r).deadline ≡ 0) equal (rw (==_refl p) refl)
        | inr different ↦ deadline_at p q k.marks (f.cleared q (rw different at i))
      ];
    }

pair-if :
    (P : List ℕ × Channel → Type 0) (b : Bool) (x y : List ℕ × Channel)
    → (b ≡ true → P x)
    → P y
    → P (if b then x else y)
pair-if P true x y h k = h refl
pair-if P false x y h k = k

-- What has been found, while a part of the table is still to be searched.
abbrev FoundIn : List (ℕ × ℕ) → List ℕ × Channel → Type 0
FoundIn t s = IsFiledIn (index s.1).marks t × Found s.0 (index s.1)

late_of_is_expired :
    (now k : ℕ) (r : Request) → is_expired now k r ≡ true → (r.deadline == 0) ≡ false
late_of_is_expired now k r h = ground arith

-- The first loop over a part of the table.
pub collect_expired-Found :
    (now : ℕ) (t : List (ℕ × ℕ)) (s : List ℕ × Channel)
    → FoundIn t s
    → Found (collect_expired now t s).0 (index (collect_expired now t s).1)
unfolding collect_expired
collect_expired-Found now [] (l, c) a = a.1
collect_expired-Found now ((k, p) ∷ t) (l, c) a =
    let taken = take_expired-index p c in
    collect_expired-Found now t
      (if is_expired now k (c.reqs p) then (p ∷ l, take_expired p c) else (l, c))
      (pair-if (FoundIn t) (is_expired now k (c.reqs p)) (p ∷ l, take_expired p c) (l, c)
        (λ h. (
          subst (λ (i : Index). IsFiledIn i.marks t) (sym taken)
              (kept-IsFiledIn (index c).marks p (with_deadline 0) t (λ j i. i) a.0.1),
          subst (Found (p ∷ l)) (sym taken)
              (Found-cons l p (index c) a.0.0.1 (late_of_is_expired now k (c.reqs p) h) a.1),
        ))
        (a.0.1, a.1))

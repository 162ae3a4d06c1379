-- ===== src/Channel/Deadlines.antt =====
-- src/grilio_channel.c, grilio_channel_reset_timeout: the deadlines, and when the timer is called.
use libgrilio.Base.{
  ℕ, ◌+◌, ◌≤◌, ◌<◌, ◌≡◌, refl, ◌||◌, Bool, true, false, ltb, ◌⊎◌, inl, inr, Option, none, some,
  List, [], ◌∷◌, arith, ◌==◌, if◌then◌else◌, All, All-map,
}
use libgrilio.Request.{Request}
use libgrilio.Channel.State.{Channel, Env}
use libgrilio.Channel.Timers.{
  earlier, due, retry_deadline, block_deadline, table_min, first_deadline, timer, reset_timeout,
}
use libgrilio.Channel.Order.{IsSorted}

-- A time `m` is not behind a deadline, if that is one: 0 is none.
abbrev pub IsCovered : ℕ → ℕ → Type 0
IsCovered m deadline = (deadline ≡ 0) ⊎ ((0 < m) × (m ≤ deadline))

earlier-IsCovered : (m a b : ℕ) → 0 < b → IsCovered m (earlier a b) → IsCovered m a × IsCovered m b
earlier-IsCovered m a b pos h = grind arith

skip-IsCovered :
    (m a b : ℕ) → IsCovered m (if b == 0 then a else earlier a b) → IsCovered m a × IsCovered m b
skip-IsCovered m a b h = grind arith

table_min-IsCovered :
    (reqs : ℕ → Request) (t : List (ℕ × ℕ)) (start m : ℕ)
    → IsCovered m (table_min reqs t start)
    → IsCovered m start × All (λ (x : ℕ × ℕ). IsCovered m (reqs x.1).deadline) t
unfolding table_min
table_min-IsCovered reqs [] start m h = (h, tt)
table_min-IsCovered reqs ((k, p) ∷ t) start m h =
    let rest = table_min-IsCovered reqs t _ m h in
    let here = skip-IsCovered m start (reqs p).deadline rest.0 in (here.0, (here.1, rest.1))

-- A source that is called at `at` serves `deadline`: not before it, and less than a millisecond after
-- it, or after the present time if that is later.
abbrev pub IsTimely : (now deadline at : ℕ) → Type 0
IsTimely now deadline at = (deadline ≤ at) × ((at < now + 1000) ⊎ (at < deadline + 1000))

-- A source and what it is set for: 0, or a deadline that it serves.
abbrev IsServed : ℕ → Option ℕ × ℕ → Type 0
IsServed now r = (r.1 ≡ 0) ⊎ ((u : ℕ) × (r.0 ≡ some u) × IsTimely now r.1 u)

-- A deadline that the timer is set for has a source, which is called in time.
abbrev pub IsArmed : ℕ → Channel → Type 0
IsArmed now c = IsServed now (c.timeout_id, c.next_deadline)

due-IsTimely : (now deadline : ℕ) → IsTimely now deadline (due now deadline)
due-IsTimely now deadline = ground arith

-- What the timer is set for, and 0 without a source.
abbrev pub armed_for : Option ℕ → ℕ → ℕ
armed_for none deadline = 0
armed_for (some u) deadline = deadline

timer-IsCovered :
    (e : Env) (c : Channel)
    → IsArmed e.now c
    → IsCovered (armed_for (timer e c).0 (timer e c).1) (first_deadline c)
unfolding timer
timer-IsCovered e c (inl free) = grind arith
timer-IsCovered e c (inr (u, set, on_time)) = rw set (grind arith)

retry-IsCovered :
    (reqs : ℕ → Request) (l : List ℕ) (start m : ℕ)
    → IsSorted reqs l
    → All (λ p. 0 < (reqs p).deadline) l
    → IsCovered m (retry_deadline reqs l start)
    → IsCovered m start × All (λ p. IsCovered m (reqs p).deadline) l
retry-IsCovered reqs [] start m s pos h = (h, tt)
retry-IsCovered reqs (p ∷ l) start m s pos h =
    let both = earlier-IsCovered m start (reqs p).deadline pos.0 h in
    (
      both.0,
      (
        both.1,
        All-map (λ q (k : (reqs p).deadline ≤ (reqs q).deadline). grind (arith, k, both.1, pos.0)) l
            s.0,
      ),
    )

-- What a timer that is set for `m` has to see to.
pub record SeesAll (c : Channel) (m : ℕ) : Type 0 where
  pub block : IsCovered m (block_deadline c.reqs c.block_req)
  pub table : All (λ (x : ℕ × ℕ). IsCovered m (c.reqs x.1).deadline) c.req_table
  pub retries : All (λ p. IsCovered m (c.reqs p).deadline) c.retry_req

if-IsServed :
    (now : ℕ) (b : Bool) (r q : Option ℕ × ℕ)
    → IsServed now r
    → IsServed now q
    → IsServed now (if b then r else q)
if-IsServed now true r q x y = x
if-IsServed now false r q x y = y

stopped-IsServed :
    (now : ℕ) (o : Option ℕ) (m : ℕ)
    → IsServed now (o, m)
    → IsServed now (elim o [ none ↦ (none, m) | some t ↦ (none, 0) ])
stopped-IsServed now none m h = h
stopped-IsServed now (some t) m h = inl refl

reset_timeout-IsArmed :
    (e : Env) (c : Channel) → IsArmed e.now c → IsArmed e.now (reset_timeout e c)
unfolding reset_timeout timer
reset_timeout-IsArmed e c a =
    let m = first_deadline c in
    if-IsServed e.now (m == 0) _ _ (stopped-IsServed e.now c.timeout_id c.next_deadline a) (
      if-IsServed e.now (c.next_deadline == 0 || ltb m c.next_deadline) _ _
        (inr (due e.now m, refl, due-IsTimely e.now m)) a)

-- Where a deadline that was set has a source that is called in time, and the retry queue is sorted and
-- its deadlines are not 0, reset_timeout leaves the timer in the same condition: the source is called
-- not before the time it is set for, and less than a millisecond after that time or after now,
-- whichever is later. That time is not behind any deadline: of the blocking request, of the requests
-- in the table, and of those that wait for a retry. If there is any deadline there is a source.
pub reset_timeout-SeesAll :
    (e : Env) (c : Channel)
    → IsArmed e.now c
    → IsSorted c.reqs c.retry_req
    → All (λ p. 0 < (c.reqs p).deadline) c.retry_req
    → IsArmed e.now (reset_timeout e c)
      × SeesAll c (armed_for (reset_timeout e c).timeout_id (reset_timeout e c).next_deadline)
unfolding reset_timeout first_deadline
reset_timeout-SeesAll e c a s pos =
    let m = armed_for (timer e c).0 (timer e c).1 in
    let start = block_deadline c.reqs c.block_req in
    let retry =
      retry-IsCovered c.reqs c.retry_req (table_min c.reqs c.req_table start) m s pos
        (timer-IsCovered e c a) in
    let table = table_min-IsCovered c.reqs c.req_table start m retry.0 in
    (reset_timeout-IsArmed e c a, record { block = table.0; table = table.1; retries = retry.1 })

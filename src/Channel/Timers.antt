-- ===== src/Channel/Timers.antt =====
-- src/grilio_channel.c: the set of pending requests, and the two timers.
use libgrilio.Base.{
  ℕ, ◌+◌, ◌-◌, ◌*◌, ◌/◌, Bool, true, false, not, ◌||◌, Option, none, some, List, [], ◌∷◌, ltb, ◌==◌,
  if◌then◌else◌, length,
}
use libgrilio.Base.Int.{is_positive, to_ℕ}
use libgrilio.Request.{Request}
use libgrilio.Channel.State.{Channel, Env, Event}

-- `grilio_channel_has_pending_requests`
abbrev pub has_pending_requests : Channel → Bool
has_pending_requests c = ltb 0 (length c.pending)

-- priv->last_pending != has_pending
abbrev pub differs : Bool → Bool → Bool
differs true b = not b
differs false b = b

-- `grilio_channel_update_pending`
unfoldable pub update_pending : Channel → Channel
update_pending c = record c {
  last_pending = has_pending_requests c;
  out =
      if differs c.last_pending (has_pending_requests c)
      then Event.signal_pending ∷ c.out
      else c.out;
}

-- `grilio_channel_pending_deadline`; MICROSEC(ms) is ms * 1000.
unfoldable pub pending_deadline : Channel → Request → ℕ
pending_deadline c r =
    r.submitted + (if is_positive r.timeout then to_ℕ r.timeout else c.pending_timeout) * 1000

-- if (!deadline || deadline > t) deadline = t;
abbrev pub earlier : ℕ → ℕ → ℕ
earlier deadline t = if deadline == 0 then t else if ltb t deadline then t else deadline

-- The loop that looks for the earliest deadline of the pending requests.
unfoldable pub pending_min : Channel → List (ℕ × ℕ) → ℕ → ℕ
unfolding pending_deadline
pending_min c [] deadline = deadline
pending_min c ((k, p) ∷ t) deadline =
    pending_min c t (earlier deadline (pending_deadline c (c.reqs p)))

-- When a source set for `deadline` is called: g_timeout_add takes milliseconds, rounded up; a deadline
-- in the past takes g_idle_add.
abbrev pub due : ℕ → ℕ → ℕ
due now deadline = if ltb now deadline then now + (deadline - now + 999) / 1000 * 1000 else now

-- The source that is set, if any, and `next_pending_deadline`.
unfoldable pub pending_timer : Env → Channel → Option ℕ × ℕ
pending_timer e c =
    let deadline = pending_min c c.pending 0 in
    if has_pending_requests c
    then (if c.next_pending_deadline == deadline
        then (c.pending_timeout_id, c.next_pending_deadline)
        else (some (due e.now deadline), deadline))
    else (none, c.next_pending_deadline)

-- `grilio_channel_reset_pending_timeout`
unfoldable pub reset_pending_timeout : Env → Channel → Channel
reset_pending_timeout e c = record c {
  pending_timeout_id = (pending_timer e c).0;
  next_pending_deadline = (pending_timer e c).1;
}

-- The loop over the request table: a deadline of 0 is none.
unfoldable pub table_min : (ℕ → Request) → List (ℕ × ℕ) → ℕ → ℕ
table_min reqs [] deadline = deadline
table_min reqs ((k, p) ∷ t) deadline =
    table_min reqs t (let d = (reqs p).deadline in if d == 0 then deadline else earlier deadline d)

abbrev pub retry_deadline : (ℕ → Request) → List ℕ → ℕ → ℕ
retry_deadline reqs [] deadline = deadline
retry_deadline reqs (p ∷ l) deadline = earlier deadline (reqs p).deadline

abbrev pub block_deadline : (ℕ → Request) → Option ℕ → ℕ
block_deadline reqs none = 0
block_deadline reqs (some p) = (reqs p).deadline

-- The deadline that `grilio_channel_reset_timeout` finds, 0 if there is none.
unfoldable pub first_deadline : Channel → ℕ
unfolding table_min
first_deadline c =
    retry_deadline c.reqs c.retry_req
      (table_min c.reqs c.req_table (block_deadline c.reqs c.block_req))

-- The source that `grilio_channel_reset_timeout` leaves, and `next_deadline`.
unfoldable pub timer : Env → Channel → Option ℕ × ℕ
timer e c =
    let deadline = first_deadline c in
    if deadline == 0
    then elim c.timeout_id [ none ↦ (none, c.next_deadline) | some t ↦ (none, 0) ]
    else if c.next_deadline == 0 || ltb deadline c.next_deadline
    then (some (due e.now deadline), deadline)
    else (c.timeout_id, c.next_deadline)

unfoldable pub reset_timeout : Env → Channel → Channel
reset_timeout e c = record c { timeout_id = (timer e c).0; next_deadline = (timer e c).1 }

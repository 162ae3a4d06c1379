-- ===== src/Channel/Life/Holding.antt =====
-- A channel that is consistent while a part of its retry queue is in other hands.
use libgrilio.Base.{
  ℕ, ◌≡◌, sym, subst, inl, inr, Bool, true, false, List, if◌then◌else◌, Bool-cases,
}
use libgrilio.Channel.State.{Channel}
use libgrilio.Channel.Send.{elem}
use libgrilio.Channel.Life.Index.{Index, IsConsistent, index, may_queue, may_wait}
use libgrilio.Channel.Life.Steps.{IsLoose}

-- The index of a channel, with `w` for its retry queue: a part of that may be in other hands.
abbrev pub holding : List ℕ → Index → Index
holding w k = record k { retry = w }

-- The channel is consistent, with `w` for its retry queue.
abbrev pub Holds : List ℕ → Channel → Type 0
Holds w c = IsConsistent (holding w (index c))

pub Holds-index : (w : List ℕ) (c d : Channel) → index d ≡ index c → Holds w c → Holds w d
Holds-index w c d e v = subst (λ k. IsConsistent (holding w k)) (sym e) v

-- A channel that holds its own retry queue.
pub Holds-own : (w : List ℕ) (c : Channel) → c.retry_req ≡ w → Holds w c → IsConsistent (index c)
Holds-own w c e v = subst (λ l. Holds l c) (sym e) v

pub Holds-if :
    (w : List ℕ) (b : Bool) (c d : Channel) → Holds w c → Holds w d → Holds w (if b then c else d)
Holds-if w true c d x y = x
Holds-if w false c d x y = y

-- What is neither queued nor waiting by its status stands in no list.
pub status-IsLoose :
    (w : List ℕ) (p : ℕ) (c : Channel)
    → Holds w c
    → may_queue (c.reqs p).status ≡ false
    → may_wait (c.reqs p).status ≡ false
    → IsLoose p (holding w (index c))
status-IsLoose w p c v a b = record {
  unqueued = elim (Bool-cases (elem p c.first_req)) [
    | inl e ↦ cc (a, (v.queued p e).0)
    | inr e ↦ e
  ];
  unscheduled = elim (Bool-cases (elem p w)) [ inl e ↦ cc (b, v.waiting p e) | inr e ↦ e ];
}

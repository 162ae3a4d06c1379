-- ===== src/Queue/Links.antt =====
-- src/grilio_queue.c, grilio_queue_add and grilio_queue_remove with their pointers: `first_req` and
-- `last_req` of a queue, and the `qnext` of each request. The walk along the chain runs on fuel.
use libgrilio.Base.{ℕ, zero, suc, Option, none, some, ◌==◌, if◌then◌else◌}

pub record Links : Type 0 where
  pub first_req : Option ℕ
  pub last_req : Option ℕ
  pub qnext : ℕ → Option ℕ

-- A write to a `qnext`.
abbrev pub set_next : ℕ → Option ℕ → (ℕ → Option ℕ) → ℕ → Option ℕ
set_next p o qnext r = if r == p then o else qnext r

abbrev pub link_after : Option ℕ → ℕ → Links → Links
link_after none p l = record l { first_req = some p; last_req = some p }
link_after (some r) p l = record l { qnext = set_next r (some p) l.qnext; last_req = some p }

-- The pointers of `grilio_queue_add`.
unfoldable pub add : ℕ → Links → Links
add p l = link_after l.last_req p l

-- prev->qnext = req->qnext, or queue->first_req = req->qnext
abbrev pub bypass : Option ℕ → ℕ → Links → Links
bypass none p l = record l { first_req = l.qnext p }
bypass (some r) p l = record l { qnext = set_next r (l.qnext p) l.qnext }

-- if (req->qnext) req->qnext = NULL; else queue->last_req = prev;
abbrev pub clear_next : Option ℕ → Option ℕ → ℕ → Links → Links
clear_next none prev p l = record l { last_req = prev }
clear_next (some n) prev p l = record l { qnext = set_next p none l.qnext }

abbrev pub cut_out : Option ℕ → ℕ → Links → Links
cut_out prev p l = let d = bypass prev p l in clear_next (d.qnext p) prev p d

-- for (ptr = queue->first_req; ptr; ptr = ptr->qnext)
abbrev pub walk_on : (Option ℕ → Option ℕ → Links) → Option ℕ → Option ℕ → ℕ → Links → Links
walk_on next none prev p l = l
walk_on next (some r) prev p l =
    let further = next (l.qnext r) (some r) in if r == p then cut_out prev p l else further

unfoldable pub walk : ℕ → Option ℕ → Option ℕ → ℕ → Links → Links
walk zero ptr prev p l = l
walk (suc fuel) ptr prev p l = walk_on (λ n r. walk fuel n r p l) ptr prev p l

-- The pointers of `grilio_queue_remove`.
unfoldable pub remove : ℕ → ℕ → Links → Links
remove fuel p l = walk fuel l.first_req none p l

-- ===== src/Channel/Cancel.antt =====
-- src/grilio_channel.c: cancelling everything, and the end of a channel's life. A callback's own calls
-- are further steps, so each loop goes over the list that it finds. The assertions of the
-- deinitialization are left out, and the handlers on the transport, which GObject keeps.
pub mod Effect
pub mod Table
pub mod Emptied
use libgrilio.Base.{ℕ, Bool, true, Option, none, some, List, [], ◌∷◌, ltb, if◌then◌else◌}
use libgrilio.Base.Table.{lookup}
use libgrilio.Request.{Status, status_eq}
use libgrilio.Channel.State.{Channel, ref, unref}
use libgrilio.Channel.Retry.{remove_request}
use libgrilio.Channel.Api.{notify_cancelled, mark_cancelled, shutdown}

-- The request in the transport's hands is released once it is sent.
abbrev pub cancel_current : Bool → Option ℕ → Channel → Channel
cancel_current notify none c = c
cancel_current notify (some p) c =
    if status_eq (c.reqs p).status Status.cancelled
    then c
    else notify_cancelled notify p (remove_request p (mark_cancelled p c))

-- A request that waits in the send queue or in the retry queue, which it has left.
unfoldable pub cancel_linked : Bool → ℕ → Channel → Channel
cancel_linked notify p c =
    unref (some p) (notify_cancelled notify p (mark_cancelled p (remove_request p c)))

-- while (priv->first_req)
unfoldable pub cancel_first : Bool → List ℕ → Channel → Channel
cancel_first notify [] c = c
cancel_first notify (p ∷ l) c =
    cancel_first notify l (record (cancel_linked notify p c) { first_req = l })

-- while (priv->retry_req)
unfoldable pub cancel_retries : Bool → List ℕ → Channel → Channel
cancel_retries notify [] c = c
cancel_retries notify (p ∷ l) c =
    cancel_retries notify l (record (cancel_linked notify p c) { retry_req = l })

-- The keys of the table, sorted by `grilio_channel_id_sort_func`.
unfoldable pub insert_key : ℕ → List ℕ → List ℕ
insert_key k [] = k ∷ []
insert_key k (j ∷ l) = if ltb j k then j ∷ insert_key k l else k ∷ j ∷ l

unfoldable pub sorted_keys : List (ℕ × ℕ) → List ℕ
sorted_keys [] = []
sorted_keys ((k, p) ∷ t) = insert_key k (sorted_keys t)

-- The request of a key, if it is still there.
abbrev pub cancel_key : Bool → Option ℕ → Channel → Channel
cancel_key notify none c = c
cancel_key notify (some p) c = cancel_linked notify p (ref p c)

unfoldable pub cancel_keys : Bool → List ℕ → Channel → Channel
cancel_keys notify [] c = c
cancel_keys notify (k ∷ l) c = cancel_keys notify l (cancel_key notify (lookup k c.req_table) c)

abbrev pub stop_timer : Option ℕ → Channel → Channel
stop_timer none c = c
stop_timer (some t) c = record c { timeout_id = none; next_deadline = 0 }

-- `grilio_channel_cancel_all`
unfoldable pub cancel_all : Bool → Channel → Channel
cancel_all notify c =
    let start : Channel = record c { block_req = none } in
    let sent = cancel_current notify start.send_req start in
    let queued = cancel_first notify sent.first_req sent in
    let tabled = cancel_keys notify (sorted_keys queued.req_table) queued in
    let waiting = cancel_retries notify tabled.retry_req tabled in
    unref c.block_req (stop_timer waiting.timeout_id waiting)

-- `grilio_channel_dispose`
unfoldable pub dispose : Channel → Channel
dispose c =
    let d = cancel_all true (shutdown c) in
    record (unref d.send_req d) { send_req = none; block_ids = [] }

-- A table of requests is destroyed: each entry gives its reference back.
unfoldable pub unref_table : List (ℕ × ℕ) → Channel → Channel
unref_table [] c = c
unref_table ((k, p) ∷ t) c = unref_table t (unref (some p) c)

-- `grilio_channel_finalize`
unfoldable pub finalize : Channel → Channel
finalize c =
    let d = unref_table c.pending (unref_table c.req_table c) in
    record d { pending_timeout_id = none; req_table = []; pending = []; log_list = [] }

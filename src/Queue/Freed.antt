-- ===== src/Queue/Freed.antt =====
-- src/grilio_queue.c, grilio_queue_free: the channel and the requests know nothing of the queue any more.
use libgrilio.Base.{ℕ, ◌≡◌, refl, sym, ap, subst, ◌∙◌, none, List, [], ◌∷◌}
use libgrilio.Channel.State.{Channel, Env, modify}
use libgrilio.Channel.Send.{unlink}
use libgrilio.Channel.Transaction.{TransactionState, transaction_state}
use libgrilio.Channel.Ownership.{IsLine, IsOwned, line_of, distinct, line, transaction_finish-line}
use libgrilio.Queue.{set_chain, disown, queue_free}

disown-line :
    (l : List ℕ) (c : Channel)
    → ((disown l c).owner ≡ c.owner) × ((disown l c).owner_queue ≡ c.owner_queue)
unfolding disown modify
disown-line [] c = (refl, refl)
disown-line (p ∷ l) c = disown-line l (modify p (λ r. record r { queue = none }) c)

-- A queue that is freed leaves the line of owner and waiting queues wherever it stands, which stays well
-- formed.
pub queue_free-line :
    (e : Env) (q : ℕ) (c : Channel)
    → IsLine c
    → (line (queue_free e q c) ≡ unlink q (line c))
      × (transaction_state q (queue_free e q c) ≡ TransactionState.no_transaction)
      × IsLine (queue_free e q c)
unfolding queue_free
queue_free-line e q c v =
    let d = disown (c.queues q) c in
    let before : Channel = record d { queues = set_chain q [] d.queues } in
    let same = disown-line (c.queues q) c in
    let line_same : line before ≡ line c =
      ap (λ o. line_of o d.owner_queue) same.0 ∙ ap (λ l. line_of c.owner l) same.1 in
    let owned =
      subst (λ o. IsOwned o d.owner_queue) (sym same.0)
        (subst (λ l. IsOwned c.owner l) (sym same.1) v.owned) in
    let once = ap distinct line_same ∙ v.once in
    let finished = transaction_finish-line e q before (record { owned = owned; once = once }) in
    (finished.0 ∙ ap (unlink q) line_same, finished.1, finished.2)

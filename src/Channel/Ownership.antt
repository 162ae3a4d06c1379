-- ===== src/Channel/Ownership.antt =====
-- Transactions: the owner and the waiting queues are a line, first come first served.
use libgrilio.Base.{
  ℕ, ◌≡◌, refl, sym, ap, subst, ◌∙◌, ◌≢◌, inl, inr, Option-cases, Bool-cases, Bool, true, false,
  Option, none, some, List, [], ◌∷◌, ◌++◌, arith, ◌==◌, if◌then◌else◌,
}
use libgrilio.Channel.State.{Channel, Env, Event, emit}
use libgrilio.Channel.Send.{elem, unlink, ptr_eq}
use libgrilio.Channel.Write.{schedule_write}
use libgrilio.Channel.Frame.{schedule_write-frame}
use libgrilio.Channel.Transaction.{
  hand_over, TransactionState, add_waiter, transaction_start, transaction_state, transaction_finish,
}

-- The specification: who holds the channel, then who waits, in order.
abbrev pub line_of : Option ℕ → List ℕ → List ℕ
line_of none l = l
line_of (some q) l = q ∷ l

abbrev pub line : Channel → List ℕ
line c = line_of c.owner c.owner_queue

-- A place in the line: the first is the owner.
abbrev pub place : ℕ → List ℕ → TransactionState
place q [] = TransactionState.no_transaction
place q (p ∷ l) =
    if p == q
    then TransactionState.started
    else if elem q l
    then TransactionState.queued
    else TransactionState.no_transaction

abbrev pub distinct : List ℕ → Bool
distinct [] = true
distinct (p ∷ l) = if elem p l then false else distinct l

-- Nobody waits while nobody holds the channel, and nobody stands in the line twice.
abbrev pub IsOwned : Option ℕ → List ℕ → Type 0
IsOwned none l = l ≡ []
IsOwned (some q) l = Unit {0}

pub record IsLine (c : Channel) : Type 0 where
  pub owned : IsOwned c.owner c.owner_queue
  pub once : distinct (line c) ≡ true

pub elem-snoc :
    (q p : ℕ) (l : List ℕ) → elem q (l ++ (p ∷ [])) ≡ (if p == q then true else elem q l)
unfolding elem
elem-snoc q p [] = refl
elem-snoc q p (x ∷ l) = ground (arith, elem-snoc q p l)

pub distinct-snoc :
    (q : ℕ) (l : List ℕ) → distinct l ≡ true → elem q l ≡ false → distinct (l ++ (q ∷ [])) ≡ true
unfolding elem
distinct-snoc q [] d n = refl
distinct-snoc q (x ∷ l) d n = ground (arith, elem-snoc x q l, distinct-snoc q l)

pub elem-unlink-ne : (q p : ℕ) (l : List ℕ) → q ≢ p → elem q (unlink p l) ≡ elem q l
unfolding elem unlink
elem-unlink-ne q p [] h = refl
elem-unlink-ne q p (x ∷ l) h = ground (arith, elem-unlink-ne q p l h)

pub elem-unlink_self : (p : ℕ) (l : List ℕ) → distinct l ≡ true → elem p (unlink p l) ≡ false
unfolding elem unlink
elem-unlink_self p [] d = refl
elem-unlink_self p (x ∷ l) d = ground (arith, elem-unlink_self p l)

pub elem-unlink_none : (q p : ℕ) (l : List ℕ) → elem q l ≡ false → elem q (unlink p l) ≡ false
unfolding elem unlink
elem-unlink_none q p [] n = refl
elem-unlink_none q p (x ∷ l) n = ground (arith, elem-unlink_none q p l)

pub distinct-unlink : (p : ℕ) (l : List ℕ) → distinct l ≡ true → distinct (unlink p l) ≡ true
unfolding elem unlink
distinct-unlink p [] d = refl
distinct-unlink p (x ∷ l) d = ground (arith, distinct-unlink p l, elem-unlink_none x p l)

-- Starting a transaction puts the queue at the end of the line, unless it stands there already, and
-- answers with the place that it then has.
pub transaction_start-line :
    (q : ℕ) (c : Channel)
    → IsLine c
    → (line (transaction_start q c).1 ≡ add_waiter q (line c))
      × ((transaction_start q c).0 ≡ place q (line (transaction_start q c).1))
      × IsLine (transaction_start q c).1
unfolding transaction_start add_waiter elem
transaction_start-line q c v = elim (Option-cases c.owner) [
  | inl free ↦ ground arith
  | inr (o, held) ↦ ground (
    arith,
    elem-snoc q q c.owner_queue,
    elem-snoc o q c.owner_queue,
    distinct-snoc q c.owner_queue,
  )
]

-- What the channel says about a queue is the place of the queue in the line.
pub transaction_state-place :
    (q : ℕ) (c : Channel) → IsLine c → transaction_state q c ≡ place q (line c)
unfolding transaction_state elem
transaction_state-place q c v = elim (Option-cases c.owner) [
  | inl free ↦ ground arith
  | inr (o, held) ↦ ground arith
]

schedule_write-line : (e : Env) (c : Channel) → line (schedule_write e c) ≡ line c
schedule_write-line e c = ap (λ f. line_of f.owner f.owner_queue) (schedule_write-frame e c)

schedule_write-IsLine : (e : Env) (c : Channel) → IsLine c → IsLine (schedule_write e c)
schedule_write-IsLine e c v = record {
  owned = subst (λ f. IsOwned f.owner f.owner_queue) (sym (schedule_write-frame e c)) v.owned;
  once = rw (schedule_write-line e c) v.once;
}

hand_over-line :
    (q : ℕ) (l : List ℕ) (c : Channel)
    → c.owner_queue ≡ l
    → c.owner ≡ some q
    → distinct (q ∷ l) ≡ true
    → (line (hand_over l c) ≡ l) × IsLine (hand_over l c)
unfolding elem
hand_over-line q [] c e o d = ground arith
hand_over-line q (p ∷ l) c e o d = ground arith

place-unlink :
    (q : ℕ) (l : List ℕ)
    → distinct l ≡ true
    → place q (unlink q l) ≡ TransactionState.no_transaction
unfolding unlink elem
place-unlink q [] d = refl
place-unlink q (p ∷ []) d = ground arith
place-unlink q (p ∷ x ∷ l) d =
    ground (arith, elem-unlink_self q (p ∷ x ∷ l) d, elem-unlink_self q (x ∷ l))

pub hand_over-owner :
    (q : ℕ) (c : Channel)
    → IsLine c
    → ptr_eq c.owner (some q) ≡ true
    → (line (hand_over c.owner_queue c) ≡ unlink q (line c)) × IsLine (hand_over c.owner_queue c)
unfolding unlink
hand_over-owner q c v o = elim (Option-cases c.owner) [
  | inl free ↦ ground arith
  | inr (p, held) ↦ ground (arith, hand_over-line p c.owner_queue c refl held)
]

-- The step from the owner, and from any other queue.
finish_owner :
    (e : Env) (q : ℕ) (c : Channel)
    → IsLine c
    → ptr_eq c.owner (some q) ≡ true
    → (line (transaction_finish e q c) ≡ unlink q (line c)) × IsLine (transaction_finish e q c)
unfolding transaction_finish
finish_owner e q c v o =
    let d : Channel = emit Event.signal_owner (hand_over c.owner_queue c) in
    let (l, w) = hand_over-owner q c v o in
    rw o (
      schedule_write-line e d ∙ l,
      schedule_write-IsLine e d (record { owned = w.owned; once = w.once }),
    )

finish_other :
    (e : Env) (q : ℕ) (c : Channel)
    → IsLine c
    → ptr_eq c.owner (some q) ≡ false
    → (line (transaction_finish e q c) ≡ unlink q (line c)) × IsLine (transaction_finish e q c)
unfolding transaction_finish unlink elem
finish_other e q c v o = elim (Option-cases c.owner) [
  | inl free ↦ ground arith
  | inr (p, held) ↦
      ground (arith, distinct-unlink q c.owner_queue, elem-unlink_none p q c.owner_queue)
]

-- Finishing a transaction takes the queue out of the line, wherever it stands: if it was the owner,
-- the next in line is the owner then, and otherwise the owner stays. The queue has no transaction any
-- more, and the line is still one.
pub transaction_finish-line :
    (e : Env) (q : ℕ) (c : Channel)
    → IsLine c
    → (line (transaction_finish e q c) ≡ unlink q (line c))
      × (transaction_state q (transaction_finish e q c) ≡ TransactionState.no_transaction)
      × IsLine (transaction_finish e q c)
transaction_finish-line e q c v = (
  both.0,
  transaction_state-place q (transaction_finish e q c) both.1
      ∙ rw both.0 (place-unlink q (line c) v.once),
  both.1,
)
  where
    both : (line (transaction_finish e q c) ≡ unlink q (line c)) × IsLine (transaction_finish e q c)
    both = elim (Bool-cases (ptr_eq c.owner (some q))) [
      | inl o ↦ finish_owner e q c v o
      | inr o ↦ finish_other e q c v o
    ]

-- ===== src/Queue/Chain.antt =====
-- src/grilio_queue.c, grilio_queue_add: the pointers of a queue are a chain that ends in its last request.
use libgrilio.Base.{
  ℕ, ◌≡◌, refl, sym, subst, ◌∙◌, inl, inr, true, false, Option, none, some, List, [], ◌∷◌, ◌++◌,
  arith, ◌==◌, Option-cases,
}
use libgrilio.Channel.Send.{elem}
use libgrilio.Channel.Ownership.{distinct, distinct-snoc}
use libgrilio.Queue.Links.{Links, set_next, link_after, add}

-- The requests that are met from a pointer on.
abbrev pub IsChain : (ℕ → Option ℕ) → Option ℕ → List ℕ → Type 0
IsChain qnext o [] = o ≡ none
IsChain qnext o (p ∷ l) = (o ≡ some p) × IsChain qnext (qnext p) l

abbrev pub last_of : Option ℕ → List ℕ → Option ℕ
last_of o [] = o
last_of o (p ∷ l) = last_of (some p) l

-- A queue whose chain is the list.
pub record IsQueue (l : Links) (chain : List ℕ) : Type 0 where
  pub chained : IsChain l.qnext l.first_req chain
  pub ended : l.last_req ≡ last_of none chain
  pub once : distinct chain ≡ true

-- A write to the `qnext` of a request that is not on the chain.
pub IsChain-other :
    (qnext : ℕ → Option ℕ) (r : ℕ) (n o : Option ℕ) (chain : List ℕ)
    → elem r chain ≡ false
    → IsChain qnext o chain
    → IsChain (set_next r n qnext) o chain
unfolding elem
IsChain-other qnext r n o [] h c = c
IsChain-other qnext r n o (p ∷ l) h c =
    let same : set_next r n qnext p ≡ qnext p = ground arith in
    (
      c.0,
      subst (λ q. IsChain (set_next r n qnext) q l) (sym same)
          (IsChain-other qnext r n (qnext p) l (ground arith) c.1),
    )

last_of-elem : (r x : ℕ) (l : List ℕ) → last_of (some x) l ≡ some r → elem r (x ∷ l) ≡ true
unfolding elem
last_of-elem r x [] h = ground arith
last_of-elem r x (y ∷ l) h = ground (arith, last_of-elem r y l h)

pub elem-ne : (r x : ℕ) (l : List ℕ) → elem r l ≡ true → elem x l ≡ false → (x == r) ≡ false
unfolding elem
elem-ne r x [] h n = ground arith
elem-ne r x (y ∷ l) h n = ground (arith, elem-ne r x l)

-- The pointer of `add` behind the last request.
IsChain-snoc :
    (qnext : ℕ → Option ℕ) (r p : ℕ) (o : Option ℕ) (x : ℕ) (l : List ℕ)
    → distinct (x ∷ l) ≡ true
    → elem p (x ∷ l) ≡ false
    → last_of (some x) l ≡ some r
    → qnext p ≡ none
    → IsChain qnext o (x ∷ l)
    → IsChain (set_next r (some p) qnext) o (x ∷ l ++ (p ∷ []))
unfolding elem
IsChain-snoc qnext r p o x [] d n h e c = (c.0, (ground arith, ground arith))
IsChain-snoc qnext r p o x (y ∷ l) d n h e c =
    let distant = elem-ne r x (y ∷ l) (last_of-elem r y l h) (ground arith) in
    let same : set_next r (some p) qnext x ≡ qnext x = ground arith in
    (
      c.0,
      subst (λ q. IsChain (set_next r (some p) qnext) q (y ∷ l ++ (p ∷ []))) (sym same)
          (IsChain-snoc qnext r p (qnext x) y l (ground arith) (ground arith) h e c.1),
    )

last_of-snoc : (o : Option ℕ) (p : ℕ) (l : List ℕ) → last_of o (l ++ (p ∷ [])) ≡ some p
last_of-snoc o p [] = refl
last_of-snoc o p (x ∷ l) = last_of-snoc (some x) p l

last_of-some : (x : ℕ) (l : List ℕ) → ¬ (last_of (some x) l ≡ none)
last_of-some x [] = λ e. ground arith
last_of-some x (y ∷ l) = last_of-some y l

link_after-IsQueue :
    (p x r : ℕ) (l : Links) (chain : List ℕ)
    → IsQueue l (x ∷ chain)
    → elem p (x ∷ chain) ≡ false
    → l.qnext p ≡ none
    → last_of (some x) chain ≡ some r
    → IsQueue (link_after (some r) p l) (x ∷ chain ++ (p ∷ []))
link_after-IsQueue p x r l chain v h e f = record {
  chained = IsChain-snoc l.qnext r p l.first_req x chain v.once h f e v.chained;
  ended = sym (last_of-snoc none p (x ∷ chain));
  once = distinct-snoc p (x ∷ chain) v.once h;
}

pub add-IsQueue :
    (p : ℕ) (l : Links) (chain : List ℕ)
    → IsQueue l chain
    → elem p chain ≡ false
    → l.qnext p ≡ none
    → IsQueue (add p l) (chain ++ (p ∷ []))
unfolding add elem
add-IsQueue p l [] v h e =
    subst (λ o. IsQueue (link_after o p l) (p ∷ [])) (sym v.ended)
      (record { chained = (refl, e); ended = refl; once = refl })
add-IsQueue p l (x ∷ chain) v h e = elim (Option-cases (last_of (some x) chain)) [
  | inl empty ↦ absurd (last_of-some x chain empty)
  | inr (r, f) ↦
      subst (λ o. IsQueue (link_after o p l) (x ∷ chain ++ (p ∷ []))) (sym (v.ended ∙ f))
        (link_after-IsQueue p x r l chain v h e f)
]

-- ===== src/Queue/Removal.antt =====
-- src/grilio_queue.c, grilio_queue_remove: the walk along the pointers of a queue finds the request and
-- cuts it out of the chain.
use libgrilio.Base.{
  ℕ, zero, suc, ◌≤◌, ◌≡◌, refl, sym, ap, subst, ◌∙◌, inl, inr, Bool, true, false, Option, none,
  some, List, [], ◌∷◌, arith, ◌==◌, if◌then◌else◌, Bool-cases, Option-cases, length,
}
use libgrilio.Channel.Send.{elem, unlink}
use libgrilio.Channel.Ownership.{distinct, distinct-unlink, elem-unlink_self, elem-unlink_none}
use libgrilio.Queue.Links.{Links, set_next, cut_out, bypass, clear_next, walk_on, walk, remove}
use libgrilio.Queue.Chain.{IsChain, last_of, IsQueue, IsChain-other, elem-ne}

-- The request that comes before one on the chain.
abbrev pub pred_of : Option ℕ → ℕ → List ℕ → Option ℕ
pred_of prev p [] = prev
pred_of prev p (y ∷ l) = if y == p then prev else pred_of (some y) p l

-- The walk stops at the request, with the one before it.
walk-cut_out :
    (fuel p : ℕ) (ptr prev : Option ℕ) (l : Links) (chain : List ℕ)
    → IsChain l.qnext ptr chain
    → length chain ≤ fuel
    → elem p chain ≡ true
    → walk fuel ptr prev p l ≡ cut_out (pred_of prev p chain) p l
unfolding elem walk
walk-cut_out fuel p ptr prev l [] c f h = ground arith
walk-cut_out zero p ptr prev l (x ∷ chain) c f h = ground arith
walk-cut_out (suc fuel) p ptr prev l (x ∷ chain) c f h =
    ap (λ o. walk_on (λ n r. walk fuel n r p l) o prev p l) c.0
    ∙ walk_on-if (x == p) (λ later.
      walk-cut_out fuel p (l.qnext x) (some x) l chain c.1 (ground arith) (ground arith))
  where
    walk_on-if :
        (here : Bool)
        → (here ≡ false
            → walk fuel (l.qnext x) (some x) p l ≡ cut_out (pred_of (some x) p chain) p l)
        → (if here then cut_out prev p l else walk fuel (l.qnext x) (some x) p l)
          ≡ cut_out (if here then prev else pred_of (some x) p chain) p l
    walk_on-if true rest = refl
    walk_on-if false rest = rest refl

pred_of-elem :
    (r p x : ℕ) (l : List ℕ)
    → elem p l ≡ true
    → pred_of (some x) p l ≡ some r
    → elem r (x ∷ l) ≡ true
unfolding elem
pred_of-elem r p x [] h e = ground arith
pred_of-elem r p x (y ∷ l) h e = ground (arith, pred_of-elem r p y l)

pred_of-ne :
    (r p x : ℕ) (l : List ℕ) → (x == p) ≡ false → pred_of (some x) p l ≡ some r → (r == p) ≡ false
pred_of-ne r p x [] h e = ground arith
pred_of-ne r p x (y ∷ l) h e = ground (arith, pred_of-ne r p y l)

unlink_here : (y p : ℕ) (l : List ℕ) → (y == p) ≡ true → unlink p (y ∷ l) ≡ l
unfolding unlink
unlink_here y p l h = ground arith

unlink_later : (y p : ℕ) (l : List ℕ) → (y == p) ≡ false → unlink p (y ∷ l) ≡ y ∷ unlink p l
unfolding unlink
unlink_later y p l h = ground arith

-- The pointer of `bypass` over a request.
IsChain-unlink :
    (qnext : ℕ → Option ℕ) (r p x : ℕ) (o : Option ℕ) (l : List ℕ)
    → distinct (x ∷ l) ≡ true
    → elem p l ≡ true
    → pred_of (some x) p l ≡ some r
    → IsChain qnext o (x ∷ l)
    → IsChain (set_next r (qnext p) qnext) o (x ∷ unlink p l)
unfolding elem unlink
IsChain-unlink qnext r p x o [] d h e c = ground arith
IsChain-unlink qnext r p x o (y ∷ l) d h e c = elim (Bool-cases (y == p)) [
  | inl here ↦
      let x_is_r : x ≡ r = ground arith in
      let bypassed : set_next r (qnext p) qnext x ≡ qnext y = ground arith in
      subst (λ m. IsChain (set_next r (qnext p) qnext) o (x ∷ m)) (sym (unlink_here y p l here))
        (
          c.0,
          subst (λ q. IsChain (set_next r (qnext p) qnext) q l) (sym bypassed)
              (IsChain-other qnext r (qnext p) (qnext y) l (ground arith) c.1.1),
        )
  | inr later ↦
      let distant =
        elem-ne r x (y ∷ l) (pred_of-elem r p y l (ground arith) (ground arith)) (ground arith) in
      let same : set_next r (qnext p) qnext x ≡ qnext x = ground arith in
      subst (λ m. IsChain (set_next r (qnext p) qnext) o (x ∷ m)) (sym (unlink_later y p l later))
        (
          c.0,
          subst (λ q. IsChain (set_next r (qnext p) qnext) q (y ∷ unlink p l)) (sym same)
              (IsChain-unlink qnext r p y (qnext x) l (ground arith) (ground arith) (ground arith)
                c.1),
        )
]

last_of_empty :
    (qnext : ℕ → Option ℕ) (a o : Option ℕ) (l : List ℕ)
    → o ≡ none
    → IsChain qnext o l
    → last_of a l ≡ a
last_of_empty qnext a o [] e c = refl
last_of_empty qnext a o (x ∷ l) e c = ground arith

last_of_nonempty :
    (qnext : ℕ → Option ℕ) (a b o : Option ℕ) (n : ℕ) (l : List ℕ)
    → o ≡ some n
    → IsChain qnext o l
    → last_of a l ≡ last_of b l
last_of_nonempty qnext a b o n [] e c = ground arith
last_of_nonempty qnext a b o n (x ∷ l) e c = refl

last_of-unlink_end :
    (qnext : ℕ → Option ℕ) (a : Option ℕ) (p : ℕ) (o : Option ℕ) (l : List ℕ)
    → elem p l ≡ true
    → qnext p ≡ none
    → IsChain qnext o l
    → pred_of a p l ≡ last_of a (unlink p l)
unfolding elem unlink
last_of-unlink_end qnext a p o [] h e c = refl
last_of-unlink_end qnext a p o (x ∷ l) h e c =
    ground
      (arith, last_of-unlink_end qnext (some x) p (qnext x) l, last_of_empty qnext a (qnext x) l)

last_of-unlink :
    (qnext : ℕ → Option ℕ) (a : Option ℕ) (p n : ℕ) (o : Option ℕ) (l : List ℕ)
    → elem p l ≡ true
    → qnext p ≡ some n
    → IsChain qnext o l
    → last_of a l ≡ last_of a (unlink p l)
unfolding elem unlink
last_of-unlink qnext a p n o [] h e c = refl
last_of-unlink qnext a p n o (x ∷ l) h e c = ground (
  arith,
  last_of-unlink qnext (some x) p n (qnext x) l,
  last_of_nonempty qnext (some x) a (qnext x) n l,
)

-- The end of `cut_out`.
clear_next-IsQueue :
    (prev : Option ℕ) (p : ℕ) (l : Links) (chain : List ℕ)
    → IsChain l.qnext l.first_req chain
    → elem p chain ≡ false
    → distinct chain ≡ true
    → (l.qnext p ≡ none → prev ≡ last_of none chain)
    → ((n : ℕ) → l.qnext p ≡ some n → l.last_req ≡ last_of none chain)
    → IsQueue (clear_next (l.qnext p) prev p l) chain
clear_next-IsQueue prev p l chain c h d last more = elim (Option-cases (l.qnext p)) [
  | inl e ↦
      subst (λ o. IsQueue (clear_next o prev p l) chain) (sym e)
        (record { chained = c; ended = last e; once = d })
  | inr (n, e) ↦
      subst (λ o. IsQueue (clear_next o prev p l) chain) (sym e)
        (record {
          chained = IsChain-other l.qnext p none l.first_req chain h c;
          ended = more n e;
          once = d;
        })
]

-- The first request is cut out.
cut_out_first :
    (p : ℕ) (l : Links) (chain : List ℕ) → IsQueue l (p ∷ chain) → IsQueue (cut_out none p l) chain
unfolding elem
cut_out_first p l chain v =
    clear_next-IsQueue none p (bypass none p l) chain v.chained.1 (ground arith) (ground arith)
      (λ e. sym (last_of_empty l.qnext none (l.qnext p) chain e v.chained.1))
      (λ n e. v.ended ∙ last_of_nonempty l.qnext (some p) none (l.qnext p) n chain e v.chained.1)

-- A later request is cut out.
cut_out_later :
    (p x r : ℕ) (l : Links) (chain : List ℕ)
    → IsQueue l (x ∷ chain)
    → (x == p) ≡ false
    → elem p chain ≡ true
    → pred_of (some x) p chain ≡ some r
    → IsQueue (cut_out (some r) p l) (x ∷ unlink p chain)
unfolding elem
cut_out_later p x r l chain v n h e =
    let same : set_next r (l.qnext p) l.qnext p ≡ l.qnext p = ground arith in
    clear_next-IsQueue (some r) p (bypass (some r) p l) (x ∷ unlink p chain)
      (IsChain-unlink l.qnext r p x l.first_req chain v.once h e v.chained)
      (ground (arith, elem-unlink_self p chain))
      (ground (arith, distinct-unlink p chain, elem-unlink_none x p chain))
      (λ g.
        sym e
        ∙ last_of-unlink_end l.qnext (some x) p (l.qnext x) chain h (sym same ∙ g) v.chained.1)
      (λ m g.
        v.ended
        ∙ last_of-unlink l.qnext (some x) p m (l.qnext x) chain h (sym same ∙ g) v.chained.1)

pred_of-some : (x p : ℕ) (l : List ℕ) → ¬ (pred_of (some x) p l ≡ none)
pred_of-some x p [] = λ e. ground arith
pred_of-some x p (y ∷ l) = ground (arith, pred_of-some y p l)

cut_out-IsQueue :
    (p : ℕ) (l : Links) (chain : List ℕ)
    → IsQueue l chain
    → elem p chain ≡ true
    → IsQueue (cut_out (pred_of none p chain) p l) (unlink p chain)
unfolding elem unlink
cut_out-IsQueue p l [] v h = ground arith
cut_out-IsQueue p l (x ∷ chain) v h = cut_out-if (x == p) refl
  where
    cut_out-if :
        (b : Bool)
        → (x == p) ≡ b
        → IsQueue
            (cut_out (if b then none else pred_of (some x) p chain) p l)
            (if b then chain else x ∷ unlink p chain)
    cut_out-if true here =
        cut_out_first p l chain (subst (λ y. IsQueue l (y ∷ chain)) (ground arith) v)
    cut_out-if false later = elim (Option-cases (pred_of (some x) p chain)) [
      | inl empty ↦ absurd (pred_of-some x p chain empty)
      | inr (r, e) ↦
          subst (λ o. IsQueue (cut_out o p l) (x ∷ unlink p chain)) (sym e)
            (cut_out_later p x r l chain v later (ground arith) e)
    ]

pub remove-IsQueue :
    (p fuel : ℕ) (l : Links) (chain : List ℕ)
    → IsQueue l chain
    → length chain ≤ fuel
    → elem p chain ≡ true
    → IsQueue (remove fuel p l) (unlink p chain)
unfolding remove
remove-IsQueue p fuel l chain v f h =
    subst (λ d. IsQueue d (unlink p chain))
      (sym (walk-cut_out fuel p l.first_req none l chain v.chained f h))
      (cut_out-IsQueue p l chain v h)

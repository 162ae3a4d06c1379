-- ===== src/Channel/Policy.antt =====
-- src/grilio_channel.c, grilio_channel_dequeue_request: which request goes next.
use libgrilio.Base.{
  ℕ, ◌≡◌, refl, ◌∙◌, ap, ◌⊎◌, inl, inr, Bool, true, false, not, ◌||◌, ◌&&◌, Option, none, some,
  List, [], ◌∷◌, ◌++◌, arith, Option-cases, Bool-cases, not_lt_of_ltb, All, All-map, length, ltb,
}
use libgrilio.Request.{Request}
use libgrilio.Channel.State.{Channel}
use libgrilio.Channel.Send.{
  find_first, has_foreign, ptr_eq, serialized, pick, pick_head, pick_regular,
}

-- Where a walk along a chain stops: the first request that passes the test.
pub record FirstOf (test : ℕ → Bool) (l : List ℕ) (p : ℕ) : Type 0 where
  pub before : List ℕ
  pub after : List ℕ
  pub split : l ≡ before ++ (p ∷ after)
  pub passes : test p ≡ true
  pub skipped : All (λ r. test r ≡ false) before

pub find_first_sound :
    (test : ℕ → Bool) (l : List ℕ) (p : ℕ) → find_first test l ≡ some p → FirstOf test l p
unfolding find_first
find_first_sound test [] p e = cc
find_first_sound test (q ∷ l) p e = elim (Bool-cases (test q)) [
  | inl t ↦
      let same : q ≡ p = ground arith in
      record { before = []; after = l; split = rw same; passes = rw same at t; skipped = tt }
  | inr f ↦
      let rest : FirstOf test l p = find_first_sound test l p (rw f at e) in
      record {
        before = q ∷ rest.before;
        after = rest.after;
        split = ap (λ t. q ∷ t) rest.split;
        passes = rest.passes;
        skipped = (f, rest.skipped);
      }
]

-- Every pending request belongs to the queue.
abbrev pub AllOwn : Channel → ℕ → Type 0
AllOwn c q = All (λ (e : ℕ × ℕ). (c.reqs e.1).queue ≡ some q) c.pending

ptr_eq_sound : (a : Option ℕ) (q : ℕ) → ptr_eq a (some q) ≡ true → a ≡ some q
ptr_eq_sound none q h = cc
ptr_eq_sound (some p) q h = ground arith

has_foreign_sound :
    (reqs : ℕ → Request) (q : ℕ) (t : List (ℕ × ℕ))
    → has_foreign reqs q t ≡ false
    → All (λ (e : ℕ × ℕ). (reqs e.1).queue ≡ some q) t
unfolding has_foreign
has_foreign_sound reqs q [] h = tt
has_foreign_sound reqs q ((k, p) ∷ t) h = elim (Bool-cases (ptr_eq (reqs p).queue (some q))) [
  | inl own ↦ (ptr_eq_sound (reqs p).queue q own, has_foreign_sound reqs q t (rw own at h))
  | inr other ↦ cc (rw other at h)
]

-- What lets a request go that is not internal. In a transaction: it belongs to the owner, and so does
-- all that is pending. Otherwise: it is not blocking and the channel is not serialized, or nothing is
-- pending.
abbrev pub MayGo : Channel → ℕ → Option ℕ → Type 0
MayGo c p none = ((serialized c || (c.reqs p).blocking) ≡ false) ⊎ (c.pending ≡ [])
MayGo c p (some q) = ((c.reqs p).queue ≡ some q) × AllOwn c q

-- The choice: an internal request, or one that may go while no other one blocks.
abbrev pub IsAllowed : Channel → Bool → ℕ → Type 0
IsAllowed c internal_only p =
    ((c.reqs p).internal ≡ true) ⊎ ((internal_only ≡ false) × MayGo c p c.owner)

-- Requests of one queue, both internal or both not.
abbrev pub bool_eq : Bool → Bool → Bool
bool_eq true b = b
bool_eq false b = not b

abbrev pub same_class : Channel → ℕ → ℕ → Bool
same_class c p r =
    ptr_eq (c.reqs r).queue (c.reqs p).queue && bool_eq (c.reqs r).internal (c.reqs p).internal

-- A request of the chain, behind none of its class.
pub record IsNext (c : Channel) (p : ℕ) : Type 0 where
  pub before : List ℕ
  pub after : List ℕ
  pub split : c.first_req ≡ before ++ (p ∷ after)
  pub overtaken : All (λ r. same_class c p r ≡ false) before

class_of_owner :
    (c : Channel) (q p : ℕ) (l : List ℕ)
    → (c.reqs p).queue ≡ some q
    → All (λ r. ptr_eq (c.reqs r).queue (some q) ≡ false) l
    → All (λ r. same_class c p r ≡ false) l
class_of_owner c q p l own = All-map (λ r h. rw own (ground arith)) l

class_of_internal :
    (c : Channel) (p : ℕ) (l : List ℕ)
    → (c.reqs p).internal ≡ true
    → All (λ r. (c.reqs r).internal ≡ false) l
    → All (λ r. same_class c p r ≡ false) l
class_of_internal c p l i = All-map (λ r h. rw (i, h) (ground arith)) l

nothing_pending : (t : List (ℕ × ℕ)) → ltb 0 (length t) ≡ false → t ≡ []
nothing_pending [] h = refl
nothing_pending (x ∷ t) h = absurd (omega (arith, not_lt_of_ltb 0 (length (x ∷ t)) h))

pick_regular_sound :
    (c : Channel) (o : Option ℕ) (q : ℕ) (rest : List ℕ) (p : ℕ)
    → c.first_req ≡ q ∷ rest
    → pick_regular c o q rest ≡ some p
    → MayGo c p o × IsNext c p
unfolding pick_regular
pick_regular_sound c (some o) q rest p chain e =
    elim (Bool-cases (has_foreign c.reqs o c.pending)) [
      | inl foreign ↦ cc (rw foreign at e)
      | inr mine ↦
          let f : FirstOf (λ r. ptr_eq (c.reqs r).queue (some o)) (q ∷ rest) p =
            find_first_sound _ (q ∷ rest) p (rw mine at e) in
          let own : (c.reqs p).queue ≡ some o = ptr_eq_sound _ o f.passes in
          (
            (own, has_foreign_sound c.reqs o c.pending mine),
            record {
              before = f.before;
              after = f.after;
              split = chain ∙ f.split;
              overtaken = class_of_owner c o p f.before own f.skipped;
            },
          )
    ]
pick_regular_sound c none q rest p chain e =
    let same : q ≡ p = ground arith in
    (
      ground (arith, nothing_pending c.pending),
      record { before = []; after = rest; split = rw chain (rw same); overtaken = tt },
    )

pick_head_sound :
    (c : Channel) (internal_only : Bool) (l : List ℕ) (p : ℕ)
    → c.first_req ≡ l
    → pick_head c internal_only l ≡ some p
    → IsAllowed c internal_only p × IsNext c p
unfolding pick_head
pick_head_sound c io [] p chain e = cc
pick_head_sound c io (q ∷ rest) p chain e = elim (Bool-cases (c.reqs q).internal) [
  | inl i ↦
      let same : q ≡ p = ground arith in
      (
        inl (rw same at i),
        record { before = []; after = rest; split = rw chain (rw same); overtaken = tt },
      )
  | inr regular ↦ elim (Bool-cases io) [
    | inl only ↦ cc (rw (regular, only) at e)
    | inr all ↦
        let (may, next) = pick_regular_sound c c.owner q rest p chain (rw (regular, all) at e) in
        (inr (all, may), next)
  ]
]

-- The request that is taken next is internal, or may go; and no request of its class waits before it.
pub pick_sound :
    (c : Channel) (internal_only : Bool) (p : ℕ)
    → pick c internal_only ≡ some p
    → IsAllowed c internal_only p × IsNext c p
unfolding pick
pick_sound c io p e = elim (Option-cases (pick_head c io c.first_req)) [
  | inl nothing ↦
      let f : FirstOf (λ r. (c.reqs r).internal) c.first_req p =
        find_first_sound _ c.first_req p (rw nothing at e) in
      (
        inl f.passes,
        record {
          before = f.before;
          after = f.after;
          split = f.split;
          overtaken = class_of_internal c p f.before f.passes f.skipped;
        },
      )
  | inr (q, found) ↦ pick_head_sound c io c.first_req p refl (found ∙ rw (found) at e)
]

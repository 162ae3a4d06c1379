-- ===== src/Channel/Life/Filing.antt =====
-- The table of an index: which requests are filed in it, and under which keys.
use libgrilio.Base.{
  ℕ, ◌≡◌, ◌≢◌, ap, subst, ◌∙◌, inl, inr, false, List, [], ◌∷◌, arith, ◌==◌, Bool-cases, All,
  All-map,
}
use libgrilio.Base.Table.{remove}
use libgrilio.Channel.Life.Index.{Mark, IsEntry, IsFiledIn, at, without}

pub remove-All : (P : ℕ × ℕ → Type 0) (k : ℕ) (t : List (ℕ × ℕ)) → All P t → All P (remove k t)
unfolding remove
remove-All P k [] a = tt
remove-All P k ((j, q) ∷ t) a = elim (Bool-cases (j == k)) [
  | inl same ↦ rw same (remove-All P k t a.1)
  | inr other ↦ rw other (a.0, remove-All P k t a.1)
]

remove-key : (k : ℕ) (t : List (ℕ × ℕ)) → All (λ (x : ℕ × ℕ). x.0 ≢ k) (remove k t)
unfolding remove
remove-key k [] = tt
remove-key k ((j, q) ∷ t) = elim (Bool-cases (j == k)) [
  | inl same ↦ rw same (remove-key k t)
  | inr other ↦ rw other (ground arith, remove-key k t)
]

All-both :
    {P Q R : ℕ × ℕ → Type 0} (f : (x : ℕ × ℕ) → P x → Q x → R x) (t : List (ℕ × ℕ))
    → All P t
    → All Q t
    → All R t
All-both f [] a b = tt
All-both f (x ∷ t) a b = (f x a.0 b.0, All-both f t a.1 b.1)

pub without-All : (P : ℕ × ℕ → Type 0) (m : Mark) (t : List (ℕ × ℕ)) → All P t → All P (without m t)
without-All P m t a =
    let once = remove-All P m.current_id t a in
    elim (Bool-cases (m.id == m.current_id)) [
      | inl same ↦ rw same once
      | inr other ↦ rw other (remove-All P m.id (remove m.current_id t) once)
    ]

without-keys :
    (m : Mark) (t : List (ℕ × ℕ))
    → All (λ (x : ℕ × ℕ). (x.0 ≢ m.id) × (x.0 ≢ m.current_id)) (without m t)
without-keys m t = elim (Bool-cases (m.id == m.current_id)) [
  | inl same ↦
      let equal : m.id ≡ m.current_id = ground arith in
      rw same (
        All-map (λ x (h : x.0 ≢ m.current_id). ((λ e. h (e ∙ equal)), h)) (remove m.current_id t)
          (remove-key m.current_id t))
  | inr other ↦ rw other (
      All-both {P = λ x. x.0 ≢ m.id} {Q = λ x. x.0 ≢ m.current_id} (λ x a b. (a, b))
        (remove m.id (remove m.current_id t)) (remove-key m.id (remove m.current_id t))
        (remove-All (λ x. x.0 ≢ m.current_id) m.id (remove m.current_id t)
          (remove-key m.current_id t)))
]

-- No entry of the table is the request.
abbrev pub IsUnfiled : ℕ → List (ℕ × ℕ) → Type 0
IsUnfiled p = All (λ (x : ℕ × ℕ). (x.1 == p) ≡ false)

entry_other :
    (marks : ℕ → Mark) (p k q : ℕ)
    → IsEntry k (marks q)
    → (k ≢ (marks p).id) × (k ≢ (marks p).current_id)
    → (q == p) ≡ false
entry_other marks p k q e h = elim (Bool-cases (q == p)) [
  | inl same ↦
      let equal : q ≡ p = ground arith in
      elim e.0 [
        | inl i ↦ absurd (h.0 (i ∙ ap (λ r. (marks r).id) equal))
        | inr i ↦ absurd (h.1 (i ∙ ap (λ r. (marks r).current_id) equal))
      ]
  | inr other ↦ other
]

-- A request whose ids have left the table is not in it.
pub without-IsUnfiled :
    (marks : ℕ → Mark) (p : ℕ) (t : List (ℕ × ℕ))
    → IsFiledIn marks t
    → IsUnfiled p (without (marks p) t)
without-IsUnfiled marks p t f =
    All-both {P = λ x. IsEntry x.0 (marks x.1)} (λ x e h. entry_other marks p x.0 x.1 e h)
      (without (marks p) t) (without-All (λ x. IsEntry x.0 (marks x.1)) (marks p) t f)
      (without-keys (marks p) t)

-- A request that is not live is not in the table.
pub dead-IsUnfiled :
    (marks : ℕ → Mark) (p : ℕ) (t : List (ℕ × ℕ))
    → ((j : ℕ) → ¬ IsEntry j (marks p))
    → IsFiledIn marks t
    → IsUnfiled p t
dead-IsUnfiled marks p t dead =
    All-map
      (λ x e. elim (Bool-cases (x.1 == p)) [
        | inl same ↦
            let equal : x.1 ≡ p = ground arith in
            absurd (dead x.0 (subst (λ r. IsEntry x.0 (marks r)) equal e))
        | inr other ↦ other
      ])
      t

-- The table stays filed when a mark changes that no entry leads to, and when its entries stay.
pub other-IsFiledIn :
    (marks : ℕ → Mark) (p : ℕ) (g : Mark → Mark) (t : List (ℕ × ℕ))
    → IsUnfiled p t
    → IsFiledIn marks t
    → IsFiledIn (at p g marks) t
other-IsFiledIn marks p g t u f =
    All-both {Q = λ x. IsEntry x.0 (marks x.1)} (λ x (n : (x.1 == p) ≡ false) e. rw n e) t u f

at-IsEntry :
    (marks : ℕ → Mark) (p : ℕ) (g : Mark → Mark) (k q : ℕ)
    → (IsEntry k (marks p) → IsEntry k (g (marks p)))
    → IsEntry k (marks q)
    → IsEntry k (at p g marks q)
at-IsEntry marks p g k q h e = elim (Bool-cases (q == p)) [
  | inl same ↦
      let equal : p ≡ q = ground arith in
      rw same (subst (λ r. IsEntry k (marks r) → IsEntry k (g (marks r))) equal h e)
  | inr other ↦ rw other e
]

pub kept-IsFiledIn :
    (marks : ℕ → Mark) (p : ℕ) (g : Mark → Mark) (t : List (ℕ × ℕ))
    → ((j : ℕ) → IsEntry j (marks p) → IsEntry j (g (marks p)))
    → IsFiledIn marks t
    → IsFiledIn (at p g marks) t
kept-IsFiledIn marks p g t h = All-map (λ x e. at-IsEntry marks p g x.0 x.1 (h x.0) e) t

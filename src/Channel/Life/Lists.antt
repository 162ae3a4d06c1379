-- ===== src/Channel/Life/Lists.antt =====
-- Lists of requests without repetitions, and lists that are ordered by a time.
use libgrilio.Base.{
  ℕ, ◌≤◌, ◌≡◌, refl, ap, inl, inr, true, false, List, [], ◌∷◌, ◌++◌, arith, ◌==◌, ltb, ltb→lt,
  not_lt_of_ltb, if◌then◌else◌, Bool-cases, All, All-map, ==_refl,
}
use libgrilio.Request.{Request}
use libgrilio.Channel.Send.{elem, unlink}
use libgrilio.Channel.Retry.{insert_sorted}
use libgrilio.Channel.Ownership.{distinct, elem-unlink_none}
use libgrilio.Channel.Order.{IsSorted}

pub elem-unlink_some : (q p : ℕ) (l : List ℕ) → elem q (unlink p l) ≡ true → elem q l ≡ true
elem-unlink_some q p l h = elim (Bool-cases (elem q l)) [
  | inl e ↦ e
  | inr e ↦ cc (elem-unlink_none q p l e, h)
]

pub elem-append : (q : ℕ) (l m : List ℕ) → elem q (l ++ m) ≡ (if elem q l then true else elem q m)
unfolding elem
elem-append q [] m = refl
elem-append q (x ∷ l) m = ground (arith, elem-append q l m)

-- No request of the list is to come before an earlier one.
abbrev pub IsOrdered : (ℕ → ℕ) → List ℕ → Type 0
IsOrdered time [] = Unit {0}
IsOrdered time (p ∷ l) = All (λ q. time p ≤ time q) l × IsOrdered time l

pub insert_by : (ℕ → ℕ) → ℕ → List ℕ → List ℕ
insert_by time p [] = p ∷ []
insert_by time p (q ∷ l) = if ltb (time q) (time p) then q ∷ insert_by time p l else p ∷ q ∷ l

pub insert_sorted-insert_by :
    (reqs : ℕ → Request) (p : ℕ) (l : List ℕ)
    → insert_sorted reqs p l ≡ insert_by (λ q. (reqs q).deadline) p l
unfolding insert_sorted insert_by
insert_sorted-insert_by reqs p [] = refl
insert_sorted-insert_by reqs p (q ∷ l) =
    ap (λ t. if ltb (reqs q).deadline (reqs p).deadline then q ∷ t else p ∷ q ∷ l)
      (insert_sorted-insert_by reqs p l)

pub IsOrdered-IsSorted :
    (reqs : ℕ → Request) (l : List ℕ) → IsOrdered (λ q. (reqs q).deadline) l → IsSorted reqs l
IsOrdered-IsSorted reqs [] s = tt
IsOrdered-IsSorted reqs (p ∷ l) s = (s.0, IsOrdered-IsSorted reqs l s.1)

insert_by-All :
    (time : ℕ → ℕ) (test : ℕ → Type 0) (p : ℕ) (l : List ℕ)
    → test p
    → All test l
    → All test (insert_by time p l)
unfolding insert_by
insert_by-All time test p [] h a = (h, a)
insert_by-All time test p (q ∷ l) h a = elim (Bool-cases (ltb (time q) (time p))) [
  | inl before ↦ rw before (a.0, insert_by-All time test p l h a.1)
  | inr here ↦ rw here (h, a)
]

pub insert_by-IsOrdered :
    (time : ℕ → ℕ) (p : ℕ) (l : List ℕ) → IsOrdered time l → IsOrdered time (insert_by time p l)
unfolding insert_by
insert_by-IsOrdered time p [] s = (tt, tt)
insert_by-IsOrdered time p (q ∷ l) s = elim (Bool-cases (ltb (time q) (time p))) [
  | inl before ↦ rw before (
    insert_by-All time (λ r. time q ≤ time r) p l (omega (arith, ltb→lt _ _ before)) s.0,
    insert_by-IsOrdered time p l s.1,
  )
  | inr here ↦
      let least : time p ≤ time q = not_lt_of_ltb _ _ here in
      rw here ((least, All-map (λ r (h : time q ≤ time r). omega (arith, h, least)) l s.0), s)
]

pub elem-insert_by :
    (time : ℕ → ℕ) (q p : ℕ) (l : List ℕ)
    → elem q (insert_by time p l) ≡ (if p == q then true else elem q l)
unfolding elem insert_by
elem-insert_by time q p [] = refl
elem-insert_by time q p (x ∷ l) = ground (arith, elem-insert_by time q p l)

pub distinct-insert_by :
    (time : ℕ → ℕ) (p : ℕ) (l : List ℕ)
    → distinct l ≡ true
    → elem p l ≡ false
    → distinct (insert_by time p l) ≡ true
unfolding elem insert_by
distinct-insert_by time p [] d n = refl
distinct-insert_by time p (x ∷ l) d n =
    ground (arith, elem-insert_by time x p l, distinct-insert_by time p l)

-- Other times, which agree on the list.
All-kept :
    (m : ℕ) (time other : ℕ → ℕ) (l : List ℕ)
    → ((q : ℕ) → elem q l ≡ true → other q ≡ time q)
    → All (λ q. m ≤ time q) l
    → All (λ q. m ≤ other q) l
unfolding elem
All-kept m time other [] same a = tt
All-kept m time other (q ∷ l) same a =
    let here : other q ≡ time q = same q (rw (==_refl q)) in
    (omega (arith, here, a.0), All-kept m time other l (λ r h. same r (ground arith)) a.1)

pub IsOrdered-kept :
    (time other : ℕ → ℕ) (l : List ℕ)
    → ((q : ℕ) → elem q l ≡ true → other q ≡ time q)
    → IsOrdered time l
    → IsOrdered other l
unfolding elem
IsOrdered-kept time other [] same s = tt
IsOrdered-kept time other (q ∷ l) same s =
    let here : other q ≡ time q = same q (rw (==_refl q)) in
    let rest : (r : ℕ) → elem r l ≡ true → other r ≡ time r = λ r h. same r (ground arith) in
    (rw here (All-kept (time q) time other l rest s.0), IsOrdered-kept time other l rest s.1)

unlink-All : (test : ℕ → Type 0) (p : ℕ) (l : List ℕ) → All test l → All test (unlink p l)
unfolding unlink
unlink-All test p [] a = tt
unlink-All test p (q ∷ l) a = elim (Bool-cases (q == p)) [
  | inl same ↦ rw same a.1
  | inr other ↦ rw other (a.0, unlink-All test p l a.1)
]

pub unlink-IsOrdered :
    (time : ℕ → ℕ) (p : ℕ) (l : List ℕ) → IsOrdered time l → IsOrdered time (unlink p l)
unfolding unlink
unlink-IsOrdered time p [] s = tt
unlink-IsOrdered time p (q ∷ l) s = elim (Bool-cases (q == p)) [
  | inl same ↦ rw same s.1
  | inr other ↦ rw other (unlink-All (λ r. time q ≤ time r) p l s.0, unlink-IsOrdered time p l s.1)
]

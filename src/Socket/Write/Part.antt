-- ===== src/Socket/Write/Part.antt =====
-- src/grilio_transport_socket.c, grilio_transport_socket_write: one of its three parts moves on.
use libgrilio.Base.{
  ℕ, ◌+◌, ◌≤◌, ◌<◌, ◌≡◌, ◌≢◌, inl, inr, Bool, true, false, Bool-cases, Option, none, some, List, [],
  ◌∷◌, arith, ltb, if◌then◌else◌, length, take, drop, length-take, length-drop,
}
use libgrilio.Socket.Write.{Device, take_answer, write_chars, Verdict, advance, stage}

-- Each write is taken in part at least, and none fails.
abbrev pub IsEager : List (Option ℕ) → Type 0
IsEager [] = Unit {0}
IsEager (none ∷ l) = ⊥
IsEager (some n ∷ l) = (1 ≤ n) × IsEager l

-- What has gone out of a buffer paid for the answers that were used.
pub record Paid (buf : List ℕ) (pos : ℕ) (dev : Device) (v : Verdict) (to : ℕ) (d : Device)
    : Type 0 where
  pub eager : IsEager d.answers
  pub no_error : v ≢ Verdict.failed
  pub fewer : length d.answers ≤ length dev.answers
  pub paid : length (drop to buf) + length dev.answers ≤ length (drop pos buf) + length d.answers
  pub ahead : v ≡ Verdict.partial → length (drop to buf) < length (drop pos buf)
  pub over : v ≡ Verdict.whole → length (drop to buf) ≡ 0

verdict_fine : (b : Bool) → (if b then Verdict.partial else Verdict.whole) ≢ Verdict.failed
verdict_fine true = λ e. cc
verdict_fine false = λ e. cc

over_at :
    (n : ℕ) (buf : List ℕ)
    → (if ltb n (length buf) then Verdict.partial else Verdict.whole) ≡ Verdict.whole
    → length (drop n buf) ≡ 0
over_at n buf e = ground (arith, length-drop n buf)

advance-Paid :
    (buf : List ℕ) (pos : ℕ) (answers : List (Option ℕ)) (wire : List ℕ)
    → IsEager answers
    → pos < length buf
    → length (drop pos buf) ≤ length answers
    → let st = advance buf pos (take_answer (drop pos buf) answers wire) in
      Paid buf pos (record { answers = answers; wire = wire }) st.verdict st.pos st.device
advance-Paid buf pos [] wire e h n = absurd (omega (arith, n, h, length-drop pos buf))
advance-Paid buf pos (none ∷ rest) wire e h n = absurd e
advance-Paid buf pos (some m ∷ rest) wire e h n =
    let left = length-drop pos buf in
    let k = length (take m (drop pos buf)) in
    let size = length-take m (drop pos buf) in
    let after = length-drop (pos + k) buf in
    let some_go : 1 ≤ k = grind (arith, size, left, e.0, h) in
    record {
      eager = e.1;
      no_error = verdict_fine (ltb (pos + k) (length buf));
      fewer = omega arith;
      paid = omega (arith, some_go, left, after, h);
      ahead = λ v. omega (arith, some_go, left, after, h);
      over = λ v. over_at (pos + k) buf v;
    }

pub stage-Paid :
    (buf : List ℕ) (pos : ℕ) (dev : Device)
    → IsEager dev.answers
    → length (drop pos buf) ≤ length dev.answers
    → let st = stage buf pos dev in Paid buf pos dev st.verdict st.pos st.device
unfolding stage write_chars
stage-Paid buf pos dev e n = elim (Bool-cases (ltb pos (length buf))) [
  | inl more ↦ rw more (advance-Paid buf pos dev.answers dev.wire e (ground arith) n)
  | inr over ↦ rw over (record {
    eager = e;
    no_error = λ v. cc;
    fewer = omega arith;
    paid = omega arith;
    ahead = λ v. cc;
    over = λ v. ground (arith, length-drop pos buf);
  })
]

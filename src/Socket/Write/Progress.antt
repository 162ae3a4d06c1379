-- ===== src/Socket/Write/Progress.antt =====
-- src/grilio_transport_socket.c, grilio_transport_socket_write: each write moves on.
use libgrilio.Base.{
  ℕ, ◌+◌, ◌≤◌, ◌<◌, ◌≡◌, refl, sym, ap, ◌∙◌, subst, true, false, none, some, List, [], ◌∷◌, ◌++◌,
  arith, length, drop, length-append, append-nil,
}
use libgrilio.Socket.State.{Socket}
use libgrilio.Socket.Write.{
  Device, Verdict, stage, Written, finish_data, finish_header, finish_sub, write_found,
  write_request, write,
}
use libgrilio.Socket.Write.Unsent.{unsent, unsent_request}
use libgrilio.Socket.Write.Part.{IsEager, Paid, stage-Paid}

-- What a write does with a request: it is done, or fewer bytes are left, and the answers were paid for.
pub record Pays (s : Socket) (dev : Device) (w : Written) : Type 0 where
  pub eager : IsEager w.device.answers
  pub fine : w.ok ≡ true
  pub up : w.socket.connected ≡ s.connected
  pub fewer : length w.device.answers ≤ length dev.answers
  pub paid :
      length (unsent w.socket) + length dev.answers ≤ length (unsent s) + length w.device.answers
  pub quiet : w.socket.out ≡ s.out
  pub same : (r : ℕ × List ℕ) → w.socket.send_req ≡ some r → s.send_req ≡ some r
  pub done : w.socket.send_req ≡ none → unsent w.socket ≡ []
  pub further :
      (r : ℕ × List ℕ) → w.socket.send_req ≡ some r → length (unsent w.socket) < length (unsent s)

length-unsent :
    (s : Socket) (p : ℕ) (body : List ℕ)
    → s.send_req ≡ some (p, body)
    → length (unsent s)
      ≡ length (drop s.sub_pos s.sub)
        + (length (drop s.send_header_pos s.send_header) + length (drop s.send_pos body))
length-unsent s p body r =
    ap (λ o. length (drop s.sub_pos s.sub ++ unsent_request s o)) r
    ∙ length-append (drop s.sub_pos s.sub)
        (drop s.send_header_pos s.send_header ++ drop s.send_pos body)
    ∙ ap (λ n. length (drop s.sub_pos s.sub) + n)
        (length-append (drop s.send_header_pos s.send_header) (drop s.send_pos body))

-- A buffer went out in part.
partial-Pays :
    (s t : Socket) (dev d : Device) (req : ℕ × List ℕ)
    → s.send_req ≡ some req
    → t.send_req ≡ s.send_req
    → t.connected ≡ s.connected
    → t.out ≡ s.out
    → IsEager d.answers
    → length d.answers ≤ length dev.answers
    → length (unsent t) + length dev.answers ≤ length (unsent s) + length d.answers
    → length (unsent t) < length (unsent s)
    → Pays s dev (record { ok = true; error = false; socket = t; device = d })
partial-Pays s t dev d req r same up quiet eager fewer paid ahead = record {
  eager = eager;
  fine = refl;
  up = up;
  fewer = fewer;
  paid = paid;
  quiet = quiet;
  same = λ o e. sym same ∙ e;
  done = λ e. ground arith;
  further = λ o e. ahead;
}

finish_data-Pays :
    (s : Socket) (p : ℕ) (body : List ℕ) (dev : Device) (v : Verdict) (to : ℕ) (d : Device)
    → s.send_req ≡ some (p, body)
    → drop s.sub_pos s.sub ≡ []
    → Paid body s.send_pos dev v to d
    → Pays s dev (finish_data s v to d)
finish_data-Pays s p body dev Verdict.failed to d r u m = absurd (m.no_error refl)
finish_data-Pays s p body dev Verdict.partial to d r u m =
    let before = length-unsent s p body r in
    let after = length-unsent (record s { send_pos = to }) p body r in
    let paid = m.paid in
    let ahead = m.ahead refl in
    partial-Pays s (record s { send_pos = to }) dev d (p, body) r refl refl refl m.eager m.fewer
      (omega (arith, before, after, paid)) (omega (arith, before, after, ahead))
finish_data-Pays s p body dev Verdict.whole to d r u m =
    let before = length-unsent s p body r in
    let paid = m.paid in
    let over = m.over refl in
    let empty : drop s.sub_pos s.sub ++ [] ≡ [] = append-nil (drop s.sub_pos s.sub) ∙ u in
    let none_left = ap length empty in
    record {
      eager = m.eager;
      fine = refl;
      up = refl;
      fewer = m.fewer;
      paid = omega (arith, before, none_left, paid, over);
      quiet = refl;
      same = λ o e. ground arith;
      done = λ e. empty;
      further = λ o e. ground arith;
    }

-- A step that moved some bytes, and a write behind it.
Pays-after :
    (s t : Socket) (dev d : Device) (w : Written)
    → length (unsent t) + length dev.answers ≤ length (unsent s) + length d.answers
    → length d.answers ≤ length dev.answers
    → t.connected ≡ s.connected
    → t.out ≡ s.out
    → t.send_req ≡ s.send_req
    → Pays t d w
    → Pays s dev w
Pays-after s t dev d w moved fewer up quiet same m =
    let paid = m.paid in
    let less = m.fewer in
    record {
      eager = m.eager;
      fine = m.fine;
      up = m.up ∙ up;
      fewer = omega (arith, fewer, less);
      paid = omega (arith, moved, paid);
      quiet = m.quiet ∙ quiet;
      same = λ r e. sym same ∙ m.same r e;
      done = m.done;
      further = λ r e. let f = m.further r e in omega (arith, moved, fewer, f);
    }

finish_header-Pays :
    (s : Socket) (p : ℕ) (body : List ℕ) (dev : Device) (v : Verdict) (to : ℕ) (d : Device)
    → s.send_req ≡ some (p, body)
    → drop s.sub_pos s.sub ≡ []
    → length (unsent s) ≤ length dev.answers
    → Paid s.send_header s.send_header_pos dev v to d
    → Pays s dev (finish_header s body v to d)
finish_header-Pays s p body dev Verdict.failed to d r u n m = absurd (m.no_error refl)
finish_header-Pays s p body dev Verdict.partial to d r u n m =
    let before = length-unsent s p body r in
    let after = length-unsent (record s { send_header_pos = to }) p body r in
    let paid = m.paid in
    let ahead = m.ahead refl in
    partial-Pays s (record s { send_header_pos = to }) dev d (p, body) r refl refl refl m.eager
      m.fewer (omega (arith, before, after, paid)) (omega (arith, before, after, ahead))
finish_header-Pays s p body dev Verdict.whole to d r u n m =
    let t : Socket = record s { send_header_pos = to } in
    let before = length-unsent s p body r in
    let after = length-unsent t p body r in
    let paid = m.paid in
    let over = m.over refl in
    let st = stage body s.send_pos d in
    let room : length (drop s.send_pos body) ≤ length d.answers =
      omega (arith, before, n, paid, over) in
    Pays-after s t dev d _ (omega (arith, before, after, paid)) m.fewer refl refl refl (
      finish_data-Pays t p body d st.verdict st.pos st.device r u
        (stage-Paid body s.send_pos d m.eager room))

write_found-Pays :
    (s : Socket) (p : ℕ) (body : List ℕ) (dev : Device)
    → s.send_req ≡ some (p, body)
    → drop s.sub_pos s.sub ≡ []
    → IsEager dev.answers
    → length (unsent s) ≤ length dev.answers
    → Pays s dev (write_found s (some (p, body)) dev)
write_found-Pays s p body dev r u e n =
    let st = stage s.send_header s.send_header_pos dev in
    let size = length-unsent s p body r in
    finish_header-Pays s p body dev st.verdict st.pos st.device r u n
      (stage-Paid s.send_header s.send_header_pos dev e (omega (arith, size, n)))

no_bytes : (l : List ℕ) → length l ≡ 0 → l ≡ []
no_bytes [] h = refl
no_bytes (x ∷ l) h = absurd (omega (arith, h))

finish_sub-Pays :
    (s : Socket) (p : ℕ) (body : List ℕ) (dev : Device) (v : Verdict) (to : ℕ) (d : Device)
    → s.send_req ≡ some (p, body)
    → s.connected ≡ true
    → length (unsent s) ≤ length dev.answers
    → Paid s.sub s.sub_pos dev v to d
    → Pays s dev (finish_sub s v to d)
finish_sub-Pays s p body dev Verdict.failed to d r c n m = absurd (m.no_error refl)
finish_sub-Pays s p body dev Verdict.partial to d r c n m =
    let before = length-unsent s p body r in
    let after = length-unsent (record s { sub_pos = to }) p body r in
    let paid = m.paid in
    let ahead = m.ahead refl in
    partial-Pays s (record s { sub_pos = to }) dev d (p, body) r refl refl refl m.eager m.fewer
      (omega (arith, before, after, paid)) (omega (arith, before, after, ahead))
finish_sub-Pays s p body dev Verdict.whole to d r c n m =
    let t : Socket = record s { sub_pos = to } in
    let before = length-unsent s p body r in
    let after = length-unsent t p body r in
    let paid = m.paid in
    let over = m.over refl in
    let found =
      write_found-Pays t p body d r (no_bytes (drop to s.sub) over) m.eager
        (omega (arith, before, after, paid, n)) in
    Pays-after s t dev d _ (omega (arith, before, after, paid)) m.fewer refl refl refl (
      subst (λ b. Pays t d (write_request b t d)) (sym c)
        (subst (λ o. Pays t d (write_found t o d)) (sym r) found))

pub write-Pays :
    (s : Socket) (p : ℕ) (body : List ℕ) (dev : Device)
    → s.send_req ≡ some (p, body)
    → s.connected ≡ true
    → IsEager dev.answers
    → length (unsent s) ≤ length dev.answers
    → Pays s dev (write s dev)
unfolding write
write-Pays s p body dev r c e n =
    let st = stage s.sub s.sub_pos dev in
    let size = length-unsent s p body r in
    finish_sub-Pays s p body dev st.verdict st.pos st.device r c n
      (stage-Paid s.sub s.sub_pos dev e (omega (arith, size, n)))

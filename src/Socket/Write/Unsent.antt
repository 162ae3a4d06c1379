-- ===== src/Socket/Write/Unsent.antt =====
-- src/grilio_transport_socket.c, grilio_transport_socket_write: partial writes lose, double and
-- reorder nothing.
use libgrilio.Base.{
  ℕ, zero, suc, ◌+◌, ◌≤◌, ◌≡◌, refl, sym, ap, ◌∙◌, inl, inr, Bool, true, false, Bool-cases, Option,
  none, some, List, [], ◌∷◌, ◌++◌, arith, ltb, if◌then◌else◌, not_lt_of_ltb, length, take, drop,
  take-append-drop, append_assoc,
}
use libgrilio.Socket.State.{Socket}
use libgrilio.Socket.Write.{
  Device, take_answer, write_chars, Verdict, Stage, advance, stage, Written, finish_data,
  finish_header, finish_sub, write_found, write_request, write,
}

drop_all : (n : ℕ) (l : List ℕ) → length l ≤ n → drop n l ≡ []
drop_all zero [] h = refl
drop_all zero (x ∷ l) h = absurd (omega arith)
drop_all (suc n) [] h = refl
drop_all (suc n) (x ∷ l) h = drop_all n l (omega arith)

drop-drop : (n k : ℕ) (l : List ℕ) → drop (n + k) l ≡ drop k (drop n l)
drop-drop zero k l = let same : 0 + k ≡ k = omega arith in rw same
drop-drop (suc n) k [] = drop_all (suc n + k) [] (omega arith) ∙ sym (drop_all k [] (omega arith))
drop-drop (suc n) k (x ∷ l) =
    let next : suc n + k ≡ suc (n + k) = omega arith in rw next (drop-drop n k l)

drop-length-take : (n : ℕ) (l : List ℕ) → drop (length (take n l)) l ≡ drop n l
drop-length-take zero l = refl
drop-length-take (suc n) [] = refl
drop-length-take (suc n) (x ∷ l) = drop-length-take n l

-- What goes out of a buffer is the part that it then stands behind.
record Moves (buf : List ℕ) (pos : ℕ) (dev : Device) (st : Stage) : Type 0 where
  stream : st.device.wire ++ drop st.pos buf ≡ dev.wire ++ drop pos buf
  ends : st.verdict ≡ Verdict.whole → drop st.pos buf ≡ []
  stays : st.verdict ≡ Verdict.failed → st.pos ≡ pos

verdict_ends :
    (pos : ℕ) (buf : List ℕ)
    → (if ltb pos (length buf) then Verdict.partial else Verdict.whole) ≡ Verdict.whole
    → drop pos buf ≡ []
verdict_ends pos buf e = elim (Bool-cases (ltb pos (length buf))) [
  | inl more ↦ cc (rw more at e)
  | inr over ↦ drop_all pos buf (not_lt_of_ltb _ _ over)
]

verdict_stays :
    (b : Bool) (n m : ℕ) → (if b then Verdict.partial else Verdict.whole) ≡ Verdict.failed → n ≡ m
verdict_stays true n m e = cc
verdict_stays false n m e = cc

advance-Moves :
    (buf : List ℕ) (pos : ℕ) (answers : List (Option ℕ)) (wire : List ℕ)
    → Moves buf pos
        (record { answers = answers; wire = wire })
        (advance buf pos (take_answer (drop pos buf) answers wire))
advance-Moves buf pos [] wire = record {
  stream = ap (λ m. wire ++ drop m buf) (omega arith);
  ends = verdict_ends (pos + 0) buf;
  stays = verdict_stays _ _ _;
}
advance-Moves buf pos (none ∷ rest) wire = record {
  stream = refl;
  ends = λ e. cc;
  stays = λ e. refl;
}
advance-Moves buf pos (some n ∷ rest) wire =
    let k = length (take n (drop pos buf)) in
    record {
      stream =
          append_assoc wire (take n (drop pos buf)) (drop (pos + k) buf)
          ∙ ap (λ l. wire ++ (take n (drop pos buf) ++ l))
              (drop-drop pos k buf ∙ drop-length-take n (drop pos buf))
          ∙ ap (λ l. wire ++ l) (take-append-drop n (drop pos buf));
      ends = verdict_ends (pos + k) buf;
      stays = verdict_stays _ _ _;
    }

stage-Moves : (buf : List ℕ) (pos : ℕ) (dev : Device) → Moves buf pos dev (stage buf pos dev)
unfolding stage write_chars
stage-Moves buf pos dev = elim (Bool-cases (ltb pos (length buf))) [
  | inl more ↦ rw more (advance-Moves buf pos dev.answers dev.wire)
  | inr over ↦ rw over (record {
    stream = refl;
    ends = λ e. drop_all pos buf (not_lt_of_ltb _ _ over);
    stays = λ e. cc;
  })
]

-- What is still to be written: of the subscription, and of the request with its header.
abbrev pub unsent_request : Socket → Option (ℕ × List ℕ) → List ℕ
unsent_request s none = []
unsent_request s (some (p, body)) = drop s.send_header_pos s.send_header ++ drop s.send_pos body

abbrev pub unsent : Socket → List ℕ
unsent s = drop s.sub_pos s.sub ++ unsent_request s s.send_req

-- One more piece that has gone out, in front of what follows.
behind :
    (buf : List ℕ) (pos : ℕ) (dev : Device) (st : Stage) (next : List ℕ)
    → Moves buf pos dev st
    → st.device.wire ++ (drop st.pos buf ++ next) ≡ dev.wire ++ (drop pos buf ++ next)
behind buf pos dev st next m =
    sym (append_assoc st.device.wire (drop st.pos buf) next)
    ∙ ap (λ l. l ++ next) m.stream
    ∙ append_assoc dev.wire (drop pos buf) next

-- The result `w` of a write accounts for what was to be written.
abbrev Accounts : Socket → Device → Written → Type 0
Accounts s dev w = w.device.wire ++ unsent w.socket ≡ dev.wire ++ unsent s

-- Behind the subscription, a request is what is left; and behind its header, its data.
unsent_found :
    (s : Socket) (p : ℕ) (body : List ℕ)
    → drop s.sub_pos s.sub ≡ []
    → s.send_req ≡ some (p, body)
    → unsent s ≡ drop s.send_header_pos s.send_header ++ drop s.send_pos body
unsent_found s p body u r =
    ap (λ l. l ++ unsent_request s s.send_req) u ∙ ap (λ o. unsent_request s o) r

unsent_data :
    (s : Socket) (p : ℕ) (body : List ℕ)
    → drop s.sub_pos s.sub ≡ []
    → s.send_req ≡ some (p, body)
    → drop s.send_header_pos s.send_header ≡ []
    → unsent s ≡ drop s.send_pos body
unsent_data s p body u r h = unsent_found s p body u r ∙ ap (λ l. l ++ drop s.send_pos body) h

finish_data-Accounts :
    (s : Socket) (p : ℕ) (body : List ℕ) (dev : Device) (v : Verdict) (pos : ℕ) (d : Device)
    → drop s.sub_pos s.sub ≡ []
    → s.send_req ≡ some (p, body)
    → drop s.send_header_pos s.send_header ≡ []
    → Moves body s.send_pos dev (record { verdict = v; pos = pos; device = d })
    → Accounts s dev (finish_data s v pos d)
finish_data-Accounts s p body dev Verdict.failed pos d u r h m =
    ap (λ l. d.wire ++ l) (unsent_data s p body u r h ∙ ap (λ n. drop n body) (sym (m.stays refl)))
    ∙ m.stream
    ∙ ap (λ l. dev.wire ++ l) (sym (unsent_data s p body u r h))
finish_data-Accounts s p body dev Verdict.partial pos d u r h m =
    ap (λ l. d.wire ++ l) (unsent_data (record s { send_pos = pos }) p body u r h)
    ∙ m.stream
    ∙ ap (λ l. dev.wire ++ l) (sym (unsent_data s p body u r h))
finish_data-Accounts s p body dev Verdict.whole pos d u r h m =
    ap (λ l. d.wire ++ l) (ap (λ l. l ++ []) u ∙ sym (m.ends refl))
    ∙ m.stream
    ∙ ap (λ l. dev.wire ++ l) (sym (unsent_data s p body u r h))

finish_header-Accounts :
    (s : Socket) (p : ℕ) (body : List ℕ) (dev : Device) (v : Verdict) (pos : ℕ) (d : Device)
    → drop s.sub_pos s.sub ≡ []
    → s.send_req ≡ some (p, body)
    → Moves s.send_header s.send_header_pos dev (record { verdict = v; pos = pos; device = d })
    → Accounts s dev (finish_header s body v pos d)
finish_header-Accounts s p body dev Verdict.failed pos d u r m =
    ap (λ l. d.wire ++ l)
      (unsent_found s p body u r
        ∙ ap (λ n. drop n s.send_header ++ drop s.send_pos body) (sym (m.stays refl)))
    ∙ behind s.send_header s.send_header_pos dev _ (drop s.send_pos body) m
    ∙ ap (λ l. dev.wire ++ l) (sym (unsent_found s p body u r))
finish_header-Accounts s p body dev Verdict.partial pos d u r m =
    ap (λ l. d.wire ++ l) (unsent_found (record s { send_header_pos = pos }) p body u r)
    ∙ behind s.send_header s.send_header_pos dev _ (drop s.send_pos body) m
    ∙ ap (λ l. dev.wire ++ l) (sym (unsent_found s p body u r))
finish_header-Accounts s p body dev Verdict.whole pos d u r m =
    let t : Socket = record s { send_header_pos = pos } in
    let st = stage body s.send_pos d in
    finish_data-Accounts t p body d st.verdict st.pos st.device u r (m.ends refl)
      (stage-Moves body s.send_pos d)
    ∙ ap (λ l. d.wire ++ l) (unsent_found t p body u r)
    ∙ behind s.send_header s.send_header_pos dev _ (drop s.send_pos body) m
    ∙ ap (λ l. dev.wire ++ l) (sym (unsent_found s p body u r))

write_found-Accounts :
    (s : Socket) (o : Option (ℕ × List ℕ)) (dev : Device)
    → drop s.sub_pos s.sub ≡ []
    → s.send_req ≡ o
    → Accounts s dev (write_found s o dev)
write_found-Accounts s none dev u r = refl
write_found-Accounts s (some (p, body)) dev u r =
    let st = stage s.send_header s.send_header_pos dev in
    finish_header-Accounts s p body dev st.verdict st.pos st.device u r
      (stage-Moves s.send_header s.send_header_pos dev)

write_request-Accounts :
    (b : Bool) (s : Socket) (dev : Device)
    → drop s.sub_pos s.sub ≡ []
    → Accounts s dev (write_request b s dev)
write_request-Accounts false s dev u = refl
write_request-Accounts true s dev u = write_found-Accounts s s.send_req dev u refl

finish_sub-Accounts :
    (s : Socket) (dev : Device) (v : Verdict) (pos : ℕ) (d : Device)
    → Moves s.sub s.sub_pos dev (record { verdict = v; pos = pos; device = d })
    → Accounts s dev (finish_sub s v pos d)
finish_sub-Accounts s dev Verdict.failed pos d m =
    ap (λ n. d.wire ++ (drop n s.sub ++ unsent_request s s.send_req)) (sym (m.stays refl))
    ∙ behind s.sub s.sub_pos dev _ (unsent_request s s.send_req) m
finish_sub-Accounts s dev Verdict.partial pos d m =
    behind s.sub s.sub_pos dev _ (unsent_request s s.send_req) m
finish_sub-Accounts s dev Verdict.whole pos d m =
    write_request-Accounts s.connected (record s { sub_pos = pos }) d (m.ends refl)
    ∙ behind s.sub s.sub_pos dev _ (unsent_request s s.send_req) m

-- Whatever the socket takes of each write, and whether or not a write fails, what has gone out and
-- what is still to be written, the rest of the subscription, of the header and of the data, make up
-- the same bytes in the same order before and after a call of `write`.
pub write-unsent :
    (s : Socket) (dev : Device)
    → (write s dev).device.wire ++ unsent (write s dev).socket ≡ dev.wire ++ unsent s
unfolding write
write-unsent s dev =
    let st = stage s.sub s.sub_pos dev in
    finish_sub-Accounts s dev st.verdict st.pos st.device (stage-Moves s.sub s.sub_pos dev)

-- ===== src/Ouch/Session/Send/Stream.antt =====
-- The bytes on the wire and those kept for later: `wire ++ out_pending` is what the peer will have
-- read once the kept bytes are flushed.
use ouchservice.Prelude.{
  ℕ, ◌≤◌, ◌<◌, ◌≡◌, refl, sym, ap, ◌∙◌, true, false, List, [], ◌∷◌, ◌++◌, arith, if◌then◌else◌,
  ◌==◌, Bool-cases, inl, inr, take, drop, length, min, append_assoc, append-nil, take-append-drop,
  take-all_le, drop-all_le,
}
use ouchservice.Core.Types.{ErrorCategory, make_error}
use ouchservice.Ouch.Session.State.{Session, SendReply, takes, send_fails, returns, fails}
use ouchservice.Ouch.Session.Send.{written, write_loop, write_bytes}

abbrev pub stream : Session → List ℕ
stream s = s.wire ++ s.out_pending

-- A write only adds to what is kept.
pub write_loop-out_pending :
    (replies : List SendReply) (buf rest : List ℕ) (s : Session)
    → (more : List ℕ) × ((write_loop replies buf rest s).1.out_pending ≡ s.out_pending ++ more)
unfolding write_loop
write_loop-out_pending replies buf [] s = ([], sym (append-nil s.out_pending))
write_loop-out_pending [] buf (b ∷ bs) s = (b ∷ bs, refl)
write_loop-out_pending (send_fails ∷ replies) buf (b ∷ bs) s = ([], sym (append-nil s.out_pending))
write_loop-out_pending (takes k ∷ replies) buf (b ∷ bs) s =
    let n = min k (length (b ∷ bs)) in
    let later : Session = record s { wire = s.wire ++ take n (b ∷ bs) } in
    let (more, e) = write_loop-out_pending replies buf (drop n (b ∷ bs)) later in
    elim (Bool-cases (n == 0)) [ inl z ↦ (b ∷ bs, rw z) | inr nz ↦ (more, rw nz e) ]

-- With nothing kept before, a write that succeeds adds exactly its bytes to the stream.
write_loop-stream :
    (replies : List SendReply) (buf rest : List ℕ) (s : Session)
    → s.out_pending ≡ []
    → (write_loop replies buf rest s).0 ≡ returns
    → stream (write_loop replies buf rest s).1 ≡ s.wire ++ rest
unfolding write_loop
write_loop-stream replies buf [] s e ok = ap (◌++◌ s.wire) e
write_loop-stream [] buf (b ∷ bs) s e ok = ap (λ p. s.wire ++ (p ++ (b ∷ bs))) e
write_loop-stream (send_fails ∷ replies) buf (b ∷ bs) s e ok = cc
write_loop-stream (takes k ∷ replies) buf (b ∷ bs) s e ok =
    let n = min k (length (b ∷ bs)) in
    let later : Session = record s { wire = s.wire ++ take n (b ∷ bs) } in
    elim (Bool-cases (n == 0)) [
      | inl z ↦ rw z (ap (λ p. s.wire ++ (p ++ (b ∷ bs))) e)
      | inr nz ↦ rw nz (
          write_loop-stream replies buf (drop n (b ∷ bs)) later e (rw nz at ok)
          ∙ append_assoc s.wire (take n (b ∷ bs)) (drop n (b ∷ bs))
          ∙ ap (◌++◌ s.wire) (take-append-drop n (b ∷ bs)))
    ]

write_bytes-open :
    (b : ℕ) (bs : List ℕ) (s : Session)
    → s.is_open ≡ true
    → write_bytes (b ∷ bs) s ≡ write_loop s.sends (b ∷ bs) (b ∷ bs) s
unfolding write_bytes
write_bytes-open b bs s up =
    ap
      (λ o.
        if o
        then write_loop s.sends (b ∷ bs) (b ∷ bs) s
        else (fails (make_error ErrorCategory.io "send on closed socket"), s))
      up

write_bytes-closed :
    (b : ℕ) (bs : List ℕ) (s : Session)
    → s.is_open ≡ false
    → write_bytes (b ∷ bs) s ≡ (fails (make_error ErrorCategory.io "send on closed socket"), s)
unfolding write_bytes
write_bytes-closed b bs s down =
    ap
      (λ o.
        if o
        then write_loop s.sends (b ∷ bs) (b ∷ bs) s
        else (fails (make_error ErrorCategory.io "send on closed socket"), s))
      down

-- With nothing kept before, a write that succeeds adds exactly its bytes, in order, to the wire and
-- the bytes kept for it, whatever part the socket takes at once.
pub write_bytes-stream :
    (buf : List ℕ) (s : Session)
    → s.out_pending ≡ []
    → (write_bytes buf s).0 ≡ returns
    → stream (write_bytes buf s).1 ≡ s.wire ++ buf
write_bytes-stream [] s e ok = unfold write_bytes written in ap (◌++◌ s.wire) e
write_bytes-stream (b ∷ bs) s e ok = elim (Bool-cases s.is_open) [
  | inl up ↦
      let w : write_bytes (b ∷ bs) s ≡ write_loop s.sends (b ∷ bs) (b ∷ bs) s =
        write_bytes-open b bs s up in
      rw w (write_loop-stream s.sends (b ∷ bs) (b ∷ bs) s e (rw w at ok))
  | inr down ↦ let stop : write_bytes (b ∷ bs) s ≡ _ = write_bytes-closed b bs s down in cc
]

pub write_bytes-out_pending :
    (buf : List ℕ) (s : Session)
    → (more : List ℕ) × ((write_bytes buf s).1.out_pending ≡ s.out_pending ++ more)
write_bytes-out_pending [] s = ([], unfold write_bytes written in sym (append-nil s.out_pending))
write_bytes-out_pending (b ∷ bs) s = elim (Bool-cases s.is_open) [
  | inl up ↦ rw (write_bytes-open b bs s up) (write_loop-out_pending s.sends (b ∷ bs) (b ∷ bs) s)
  | inr down ↦ rw (write_bytes-closed b bs s down) ([], sym (append-nil s.out_pending))
]

write_loop-takes_all :
    (k : ℕ) (replies : List SendReply) (buf : List ℕ) (b : ℕ) (bs : List ℕ) (s : Session)
    → length (b ∷ bs) ≤ k
    → write_loop (takes k ∷ replies) buf (b ∷ bs) s
      ≡ written replies buf (record s { wire = s.wire ++ (b ∷ bs) })
unfolding write_loop
write_loop-takes_all k replies buf b bs s le =
    let n = min k (length (b ∷ bs)) in
    let nz : (n == 0) ≡ false = ground arith in
    rw (nz, take-all_le n (b ∷ bs) (omega arith), drop-all_le n (b ∷ bs) (omega arith)) refl

-- A socket that takes the whole buffer puts it on the wire at once, before all that is kept.
pub write_bytes-overtakes :
    (buf : List ℕ) (k : ℕ) (replies : List SendReply) (s : Session)
    → s.is_open ≡ true
    → s.sends ≡ takes k ∷ replies
    → length buf ≤ k
    → 0 < length buf
    → ((write_bytes buf s).0 ≡ returns)
      × ((write_bytes buf s).1.wire ≡ s.wire ++ buf)
      × ((write_bytes buf s).1.out_pending ≡ s.out_pending)
write_bytes-overtakes [] k replies s up e le pos = absurd (omega arith)
write_bytes-overtakes (b ∷ bs) k replies s up e le pos =
    let path : write_bytes (b ∷ bs) s
        ≡ written replies (b ∷ bs) (record s { wire = s.wire ++ (b ∷ bs) }) =
      write_bytes-open b bs s up
      ∙ ap (λ r. write_loop r (b ∷ bs) (b ∷ bs) s) e
      ∙ write_loop-takes_all k replies (b ∷ bs) b bs s le in
    rw path (unfold written in (refl, refl, refl))

write_loop-refused :
    (replies : List SendReply) (buf : List ℕ) (b : ℕ) (bs : List ℕ) (s : Session)
    → write_loop (takes 0 ∷ replies) buf (b ∷ bs) s
      ≡ (returns, record s { sends = replies; out_pending = s.out_pending ++ (b ∷ bs) })
unfolding write_loop
write_loop-refused replies buf b bs s =
    let z : (min 0 (length (b ∷ bs)) == 0) ≡ true = ground arith in rw z

-- A socket that would block keeps the whole buffer, and the call succeeds.
pub write_bytes-refused :
    (buf : List ℕ) (replies : List SendReply) (s : Session)
    → s.is_open ≡ true
    → s.sends ≡ takes 0 ∷ replies
    → 0 < length buf
    → write_bytes buf s
      ≡ (returns, record s { sends = replies; out_pending = s.out_pending ++ buf })
write_bytes-refused [] replies s up e pos = absurd (omega arith)
write_bytes-refused (b ∷ bs) replies s up e pos =
    write_bytes-open b bs s up
    ∙ ap (λ r. write_loop r (b ∷ bs) (b ∷ bs) s) e
    ∙ write_loop-refused replies (b ∷ bs) b bs s

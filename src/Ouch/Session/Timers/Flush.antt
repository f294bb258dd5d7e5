-- ===== src/Ouch/Session/Timers/Flush.antt =====
-- What `flush_pending` does to the stream.
use ouchservice.Prelude.{
  ℕ, ◌≡◌, refl, ap, ◌∙◌, Bool, true, false, List, [], ◌∷◌, ◌++◌, if◌then◌else◌, ◌==◌, Bool-cases,
  inl, inr, take, drop, length, min, append_assoc, take-append-drop,
}
use ouchservice.Ouch.Session.State.{Session, SendReply, takes, send_fails}
use ouchservice.Ouch.Session.Send.Stream.{stream}
use ouchservice.Ouch.Session.Timers.{flush_loop, flush_pending}

flush_loop-stream :
    (replies : List SendReply) (kept : List ℕ) (s : Session)
    → stream (flush_loop replies kept s) ≡ s.wire ++ kept
unfolding flush_loop
flush_loop-stream replies [] s = refl
flush_loop-stream [] (b ∷ bs) s = refl
flush_loop-stream (send_fails ∷ replies) (b ∷ bs) s = refl
flush_loop-stream (takes k ∷ replies) (b ∷ bs) s =
    let n = min k (length (b ∷ bs)) in
    let later : Session = record s { wire = s.wire ++ take n (b ∷ bs) } in
    elim (Bool-cases (n == 0)) [
      | inl z ↦ rw z refl
      | inr nz ↦ rw nz (
          flush_loop-stream replies (drop n (b ∷ bs)) later
          ∙ append_assoc s.wire (take n (b ∷ bs)) (drop n (b ∷ bs))
          ∙ ap (◌++◌ s.wire) (take-append-drop n (b ∷ bs)))
    ]

-- Flushing moves kept bytes to the wire in their order, as many as the socket takes: the wire and the
-- bytes that are still kept for it stay together what they were, also when the socket fails.
pub flush_pending-stream : (s : Session) → stream (flush_pending s) ≡ stream s
unfolding flush_pending
flush_pending-stream s = split s.is_open
  where
    split : (b : Bool) → stream (if b then flush_loop s.sends s.out_pending s else s) ≡ stream s
    split true = flush_loop-stream s.sends s.out_pending s
    split false = refl

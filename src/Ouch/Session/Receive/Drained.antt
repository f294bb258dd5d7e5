-- ===== src/Ouch/Session/Receive/Drained.antt =====
-- What `parse_pending` dispatches, and what it leaves in the input buffer.
use ouchservice.Prelude.{
  ℕ, zero, suc, ◌≤◌, ◌<◌, ◌≡◌, refl, sym, ap, ◌∙◌, List, [], arith, inl, inr, drop, length,
  length-drop, take, ◌++◌, ◌∷◌, take-append-drop, ◌⊎◌, dec_lt,
}
use ouchservice.Ouch.Session.State.{Session, Outcome, returns}
use ouchservice.Ouch.Session.Receive.{
  packet_size, dispatch_first, after_dispatch, parse_loop, parse_pending,
}
use ouchservice.Ouch.Session.Receive.Framing.{
  parse_loop-short, parse_loop-partial, parse_loop-whole, Outcome-cases,
}

-- No whole packet is in the buffer.
abbrev pub IsDrained : List ℕ → Type 0
IsDrained buf = (length buf < 3) ⊎ (length buf < packet_size buf)

-- From a buffer and a session, the packets at the front of the buffer are dispatched one after the
-- other, each with success, until the buffer is drained.
pub data Dispatched : List ℕ → Session → List (List ℕ) → List ℕ → Session → Type 0 where
  done : (buf : List ℕ) (s : Session) → IsDrained buf → Dispatched buf s [] buf s
  packet :
      (buf rest : List ℕ) (s s1 s' : Session) (packets : List (List ℕ))
      → 3 ≤ length buf
      → packet_size buf ≤ length buf
      → dispatch_first buf s ≡ (returns, s1)
      → Dispatched (drop (packet_size buf) buf) s1 packets rest s'
      → Dispatched buf s (take (packet_size buf) buf ∷ packets) rest s'

abbrev pub joined : List (List ℕ) → List ℕ → List ℕ
joined [] rest = rest
joined (p ∷ ps) rest = p ++ joined ps rest

-- The run of a loop that succeeds.
record IsRun (buf : List ℕ) (s : Session) (result : Outcome × List ℕ × Session) : Type 0 where
  packets : List (List ℕ)
  dispatched : Dispatched buf s packets result.1 result.2
  complete : buf ≡ joined packets result.1

stopped : (buf : List ℕ) (s : Session) → IsDrained buf → IsRun buf s (returns, buf, s)
stopped buf s drained = record { packets = []; dispatched = done buf s drained; complete = refl }

parse_loop-IsRun :
    (fuel : ℕ) (buf : List ℕ) (s : Session)
    → length buf ≤ fuel
    → (parse_loop fuel buf s).0 ≡ returns
    → IsRun buf s (parse_loop fuel buf s)
parse_loop-IsRun zero buf s enough ok =
    rw (parse_loop-short zero buf s (omega arith)) (stopped buf s (inl (omega arith)))
parse_loop-IsRun (suc fuel) buf s enough ok = elim (dec_lt (length buf) 3) [
  | yes short ↦ rw (parse_loop-short (suc fuel) buf s short) (stopped buf s (inl short))
  | no long ↦ elim (dec_lt (length buf) (packet_size buf)) [
    | yes part ↦ rw (parse_loop-partial (suc fuel) buf s part) (stopped buf s (inr part))
    | no whole ↦
        let tail : List ℕ = drop (packet_size buf) buf in
        let split : parse_loop (suc fuel) buf s
            ≡ after_dispatch (parse_loop fuel) tail (dispatch_first buf s) =
          parse_loop-whole fuel buf s (omega arith) (omega arith) in
        elim (Outcome-cases (dispatch_first buf s)) [
          | inl (s1, d) ↦
              let run : parse_loop (suc fuel) buf s ≡ parse_loop fuel tail s1 =
                split ∙ ap (after_dispatch (parse_loop fuel) tail) d in
              let later : IsRun tail s1 (parse_loop fuel tail s1) =
                parse_loop-IsRun fuel tail s1 (omega (arith, length-drop (packet_size buf) buf))
                  (rw run at ok) in
              rw run (record {
                packets = take (packet_size buf) buf ∷ later.packets;
                dispatched =
                    packet buf _ s s1 _ later.packets (omega arith) (omega arith) d
                      later.dispatched;
                complete =
                    sym (take-append-drop (packet_size buf) buf)
                    ∙ ap (λ b. take (packet_size buf) buf ++ b) later.complete;
              })
          | inr stop ↦
              let (kept, bad) = stop (parse_loop fuel) tail in
              absurd (bad (ap (λ (r : Outcome × List ℕ × Session). r.0) (sym (split ∙ kept)) ∙ ok))
        ]
  ]
]

-- The outcome of a success: the buffer was a series of packets and a rest, each of the packets has been
-- dispatched with success and in order, and the rest is what stays in the buffer.
pub record IsParsed (s : Session) : Type 0 where
  pub packets : List (List ℕ)
  pub rest : List ℕ
  pub last : Session
  pub complete : s.in_buffer ≡ joined packets rest
  pub dispatched : Dispatched s.in_buffer (record s { in_buffer = [] }) packets rest last
  pub result : parse_pending s ≡ (returns, record last { in_buffer = rest })

-- When `parse_pending` succeeds, the buffer is cut into whole packets and a rest that is shorter than a
-- header or than the packet that its header announces; each packet has been dispatched, in order and with
-- success, in the session that the one before it left; and exactly the rest stays in the buffer.
pub parse_pending-IsParsed : (s : Session) → (parse_pending s).0 ≡ returns → IsParsed s
unfolding parse_pending
parse_pending-IsParsed s ok =
    let start : Session = record s { in_buffer = [] } in
    let run : IsRun s.in_buffer start (parse_loop (length s.in_buffer) s.in_buffer start) =
      parse_loop-IsRun (length s.in_buffer) s.in_buffer start (omega arith) ok in
    record {
      packets = run.packets;
      rest = (parse_loop (length s.in_buffer) s.in_buffer start).1;
      last = (parse_loop (length s.in_buffer) s.in_buffer start).2;
      complete = run.complete;
      dispatched = run.dispatched;
      result =
          ap
            (λ o. (
              o,
              record ((parse_loop (length s.in_buffer) s.in_buffer start).2) {
                in_buffer = (parse_loop (length s.in_buffer) s.in_buffer start).1;
              },
            ))
            ok;
    }

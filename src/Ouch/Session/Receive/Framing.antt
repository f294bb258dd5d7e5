-- ===== src/Ouch/Session/Receive/Framing.antt =====
-- How `parse_pending` cuts a stream that arrives in pieces.
use ouchservice.Prelude.{
  ℕ, zero, suc, ◌≤◌, ◌<◌, ◌≡◌, refl, sym, ap, ◌∙◌, List, [], ◌++◌, arith, inl, inr, drop, length,
  length-append, length-drop, drop-append_le, ◌⊎◌, ◌≢◌, dec_lt, ap₂,
}
use ouchservice.Ouch.Session.State.{Session, Outcome, returns, fails, out_of_bounds}
use ouchservice.Ouch.Session.Receive.{
  packet_size, dispatch_first, after_dispatch, parse_loop, parse_pending,
}
use ouchservice.Ouch.Session.Receive.Kept.{parse_loop-in_buffer}
use ouchservice.Ouch.Session.Receive.Prefix.{dispatch_first-append}

-- The three ways of a round.
pub parse_loop-short :
    (fuel : ℕ) (buf : List ℕ) (s : Session)
    → length buf < 3
    → parse_loop fuel buf s ≡ (returns, buf, s)
unfolding parse_loop
parse_loop-short zero buf s h = refl
parse_loop-short (suc fuel) buf s h = ground arith

pub parse_loop-partial :
    (fuel : ℕ) (buf : List ℕ) (s : Session)
    → length buf < packet_size buf
    → parse_loop fuel buf s ≡ (returns, buf, s)
unfolding parse_loop
parse_loop-partial zero buf s h = refl
parse_loop-partial (suc fuel) buf s h = ground arith

pub parse_loop-whole :
    (fuel : ℕ) (buf : List ℕ) (s : Session)
    → 3 ≤ length buf
    → packet_size buf ≤ length buf
    → parse_loop (suc fuel) buf s
      ≡ after_dispatch (parse_loop fuel) (drop (packet_size buf) buf) (dispatch_first buf s)
unfolding parse_loop
parse_loop-whole fuel buf s le size = ground arith

pub Outcome-cases :
    (r : Outcome × Session)
    → ((s : Session) × (r ≡ (returns, s)))
      ⊎ ((go : List ℕ → Session → Outcome × List ℕ × Session) (rest : List ℕ)
          → (after_dispatch go rest r ≡ (r.0, rest, r.1)) × (r.0 ≢ returns))
Outcome-cases (returns, s) = inl (s, refl)
Outcome-cases (fails e, s) = inr (λ go rest. (refl, λ p. cc))
Outcome-cases (out_of_bounds, s) = inr (λ go rest. (refl, λ p. cc))

after_dispatch-cong :
    (go go' : List ℕ → Session → Outcome × List ℕ × Session) (rest : List ℕ) (r : Outcome × Session)
    → ((s : Session) → go rest s ≡ go' rest s)
    → after_dispatch go rest r ≡ after_dispatch go' rest r
after_dispatch-cong go go' rest (returns, s) h = h s
after_dispatch-cong go go' rest (fails e, s) h = refl
after_dispatch-cong go go' rest (out_of_bounds, s) h = refl

-- The loop ends within as many rounds as the buffer has bytes: any two amounts of fuel of at least
-- that give the same result.
pub parse_loop-fuel :
    (f g : ℕ) (buf : List ℕ) (s : Session)
    → length buf ≤ f
    → length buf ≤ g
    → parse_loop f buf s ≡ parse_loop g buf s
parse_loop-fuel zero g buf s hf hg =
    parse_loop-short zero buf s (omega arith) ∙ sym (parse_loop-short g buf s (omega arith))
parse_loop-fuel (suc f) zero buf s hf hg =
    parse_loop-short (suc f) buf s (omega arith) ∙ sym (parse_loop-short zero buf s (omega arith))
parse_loop-fuel (suc f) (suc g) buf s hf hg = elim (dec_lt (length buf) 3) [
  | yes short ↦ parse_loop-short (suc f) buf s short ∙ sym (parse_loop-short (suc g) buf s short)
  | no long ↦ elim (dec_lt (length buf) (packet_size buf)) [
    | yes part ↦ parse_loop-partial (suc f) buf s part ∙ sym (parse_loop-partial (suc g) buf s part)
    | no whole ↦
        parse_loop-whole f buf s (omega arith) (omega arith)
        ∙ after_dispatch-cong (parse_loop f) (parse_loop g) (drop (packet_size buf) buf)
            (dispatch_first buf s)
            (λ s'. parse_loop-fuel f g (drop (packet_size buf) buf) s' (left f hf) (left g hg))
        ∙ sym (parse_loop-whole g buf s (omega arith) (omega arith))
  ]
]
  where
    left : (k : ℕ) → length buf ≤ suc k → length (drop (packet_size buf) buf) ≤ k
    left k le = omega (arith, length-drop (packet_size buf) buf)

-- A buffer with no whole packet, to which more is added.
parse_loop-append_stop :
    (g h : ℕ) (buf more rest : List ℕ) (s s' : Session)
    → length (buf ++ more) ≤ g
    → length (rest ++ more) ≤ h
    → let stop : Outcome × List ℕ × Session = (returns, buf, s) in
      stop ≡ (returns, rest, s') → parse_loop g (buf ++ more) s ≡ parse_loop h (rest ++ more) s'
parse_loop-append_stop g h buf more rest s s' hg hh e =
    let same_rest : buf ≡ rest = ap (λ (r : Outcome × List ℕ × Session). r.1) e in
    let same_state : s ≡ s' = ap (λ (r : Outcome × List ℕ × Session). r.2) e in
    parse_loop-fuel g h (buf ++ more) s hg
      (omega (arith, ap length same_rest, length-append buf more, length-append rest more))
    ∙ ap₂ (λ b t. parse_loop h (b ++ more) t) same_rest same_state

-- What has been parsed stays parsed when more arrives: parsing a buffer and then the rest with the
-- new bytes is parsing it all at once.
pub parse_loop-append :
    (f g h : ℕ) (buf more rest : List ℕ) (s s' : Session)
    → length buf ≤ f
    → length (buf ++ more) ≤ g
    → length (rest ++ more) ≤ h
    → parse_loop f buf s ≡ (returns, rest, s')
    → parse_loop g (buf ++ more) s ≡ parse_loop h (rest ++ more) s'
parse_loop-append zero g h buf more rest s s' hf hg hh e =
    parse_loop-append_stop g h buf more rest s s' hg hh
      (sym (parse_loop-short zero buf s (omega arith)) ∙ e)
parse_loop-append (suc f) zero h buf more rest s s' hf hg hh e =
    parse_loop-append_stop zero h buf more rest s s' hg hh
      (sym (parse_loop-short (suc f) buf s (omega (arith, length-append buf more))) ∙ e)
parse_loop-append (suc f) (suc g) h buf more rest s s' hf hg hh e = elim (dec_lt (length buf) 3) [
  | yes short ↦
      parse_loop-append_stop (suc g) h buf more rest s s' hg hh
        (sym (parse_loop-short (suc f) buf s short) ∙ e)
  | no long ↦ elim (dec_lt (length buf) (packet_size buf)) [
    | yes part ↦
        parse_loop-append_stop (suc g) h buf more rest s s' hg hh
          (sym (parse_loop-partial (suc f) buf s part) ∙ e)
    | no whole ↦
        let split : parse_loop (suc f) buf s
            ≡ after_dispatch (parse_loop f) (drop (packet_size buf) buf) (dispatch_first buf s) =
          parse_loop-whole f buf s (omega arith) (omega arith) in
        elim (Outcome-cases (dispatch_first buf s)) [
          | inl (s1, d) ↦
              let tail : List ℕ = drop (packet_size buf) buf in
              let (size, d') = dispatch_first-append buf more s s1 (omega arith) (omega arith) d in
              parse_loop-whole g (buf ++ more) s (omega (arith, length-append buf more))
                (omega (arith, length-append buf more, size))
              ∙ rw (size, d')
                  (ap (λ t. parse_loop g t s1)
                      (drop-append_le (packet_size buf) buf more (omega arith))
                    ∙ parse_loop-append f g h tail more rest s1 s'
                        (omega (arith, length-drop (packet_size buf) buf))
                        (omega (
                          arith,
                          length-drop (packet_size buf) buf,
                          length-append buf more,
                          length-append tail more,
                        ))
                        hh (sym (split ∙ rw d) ∙ e))
          | inr stop ↦
              let (kept, bad) = stop (parse_loop f) (drop (packet_size buf) buf) in
              absurd (bad (ap (λ (r : Outcome × List ℕ × Session). r.0) (sym (split ∙ kept) ∙ e)))
        ]
  ]
]

-- `parse_pending` on a stream in two pieces: if the first piece parses without an error, parsing
-- then goes on as if all of it had been there at once.
pub parse_pending-append :
    (s s' : Session) (more : List ℕ)
    → parse_pending s ≡ (returns, s')
    → parse_pending (record s { in_buffer = s.in_buffer ++ more })
      ≡ parse_pending (record s' { in_buffer = s'.in_buffer ++ more })
unfolding parse_pending
parse_pending-append s s' more e =
    ap wrap (
      parse_loop-append (length s.in_buffer) (length (s.in_buffer ++ more)) (length (rest ++ more))
        s.in_buffer more rest s0 t (omega arith) (omega arith) (omega arith)
        (λ i. (ap (λ (r : Outcome × Session). r.0) e i, rest, t))
      ∙ ap (parse_loop (length (rest ++ more)) (rest ++ more)) (sym cleared))
    ∙ ap (λ (z : Session). parse_pending (record z { in_buffer = z.in_buffer ++ more }))
        (ap (λ (r : Outcome × Session). r.1) e)
  where
    wrap : Outcome × List ℕ × Session → Outcome × Session
    wrap r = (r.0, record (r.2) { in_buffer = r.1 })

    s0 : Session
    s0 = record s { in_buffer = [] }

    rest : List ℕ
    rest = (parse_loop (length s.in_buffer) s.in_buffer s0).1

    t : Session
    t = (parse_loop (length s.in_buffer) s.in_buffer s0).2

    kept : t.in_buffer ≡ []
    kept = parse_loop-in_buffer (length s.in_buffer) s.in_buffer [] s0 refl

    cleared : record t { in_buffer = [] } ≡ t
    cleared = λ i. record t { in_buffer = sym kept i }

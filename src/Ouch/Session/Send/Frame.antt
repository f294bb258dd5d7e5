-- ===== src/Ouch/Session/Send/Frame.antt =====
-- What one message of the session puts on the wire.
use ouchservice.Prelude.{
  ℕ, ◌≤◌, ◌<◌, ◌≡◌, ◌≢◌, refl, sym, ap, ◌∙◌, true, List, [], ◌∷◌, ◌++◌, arith, if◌then◌else◌, ◌⊎◌,
  inl, inr, length, append_assoc, append-nil, append-eq-nil,
}
use ouchservice.Core.Types.{ErrorCategory, make_error}
use ouchservice.Net.Soup.{header_codec, size-header_codec, make_header, unsequenced_data}
use ouchservice.Ouch.Session.State.{
  Session, SessionState, SendReply, takes, Outcome, returns, fails, out_of_bounds,
}
use ouchservice.Ouch.Session.Send.{write_bytes, send_unsequenced, is_active, and_then}
use ouchservice.Ouch.Session.Send.Stream.{
  write_bytes-stream, write_bytes-out_pending, write_bytes-overtakes, write_bytes-refused,
}

Outcome-cases : (o : Outcome) → (o ≡ returns) ⊎ (o ≢ returns)
Outcome-cases returns = inl refl
Outcome-cases (fails e) = inr (λ p. cc)
Outcome-cases out_of_bounds = inr (λ p. cc)

and_then-returns :
    (r : Outcome × Session) (next : Session → Outcome × Session)
    → r.0 ≡ returns
    → and_then r next ≡ next r.1
and_then-returns (returns, s) next e = refl
and_then-returns (fails x, s) next e = cc
and_then-returns (out_of_bounds, s) next e = cc

and_then-stops :
    (r : Outcome × Session) (next : Session → Outcome × Session)
    → r.0 ≢ returns
    → (and_then r next).0 ≢ returns
and_then-stops (returns, s) next e = absurd (e refl)
and_then-stops (fails x, s) next e = e
and_then-stops (out_of_bounds, s) next e = e

abbrev pub header_bytes : List ℕ → List ℕ
header_bytes payload = header_codec.write (make_header unsequenced_data (length payload))

length-header_bytes : (payload : List ℕ) → length (header_bytes payload) ≡ 3
length-header_bytes payload =
    header_codec.length_write (make_header unsequenced_data (length payload))
      (unfold make_header header_codec in (omega arith, omega arith))
    ∙ size-header_codec

send_unsequenced-active :
    (payload : List ℕ) (s : Session)
    → s.state ≡ SessionState.active
    → send_unsequenced payload s
      ≡ and_then (write_bytes (header_bytes payload) s) (write_bytes payload)
unfolding send_unsequenced
send_unsequenced-active payload s e =
    ap
      (λ st.
        if is_active st
        then and_then (write_bytes (header_bytes payload) s) (write_bytes payload)
        else (fails (make_error ErrorCategory.state_mismatch "session not Active"), s))
      e

-- A message whose send in an active session succeeds, with nothing kept before it or after it, is on
-- the wire as one frame: its header, then its bytes.
pub send_unsequenced-frame :
    (payload : List ℕ) (s : Session)
    → s.state ≡ SessionState.active
    → s.out_pending ≡ []
    → (send_unsequenced payload s).0 ≡ returns
    → (send_unsequenced payload s).1.out_pending ≡ []
    → (send_unsequenced payload s).1.wire ≡ s.wire ++ (header_bytes payload ++ payload)
send_unsequenced-frame payload s act none_kept ok none_left = elim (Outcome-cases first.0) [
  | inr bad ↦ absurd (and_then-stops first (write_bytes payload) bad (rw opened at ok))
  | inl good ↦
      let run : send_unsequenced payload s ≡ write_bytes payload first.1 =
        opened ∙ and_then-returns first (write_bytes payload) good in
      let (more, grown) = write_bytes-out_pending payload first.1 in
      let clear : first.1.out_pending ≡ [] =
        append-eq-nil first.1.out_pending more (sym grown ∙ (rw run at none_left)) in
      rw run (
        sym (append-nil (write_bytes payload first.1).1.wire)
        ∙ ap (◌++◌ (write_bytes payload first.1).1.wire) (sym (rw run at none_left))
        ∙ write_bytes-stream payload first.1 clear (rw run at ok)
        ∙ ap (λ w. w ++ payload)
            (sym (append-nil first.1.wire)
              ∙ ap (◌++◌ first.1.wire) (sym clear)
              ∙ write_bytes-stream (header_bytes payload) s none_kept good)
        ∙ append_assoc s.wire (header_bytes payload) payload)
]
  where
    first : Outcome × Session
    first = write_bytes (header_bytes payload) s

    opened : send_unsequenced payload s ≡ and_then first (write_bytes payload)
    opened = send_unsequenced-active payload s act

-- The flaw of writing in two calls: if the socket of an active session refuses the header and then
-- takes the whole payload, the call succeeds with the payload on the wire and its header still kept.
pub send_unsequenced-reorders :
    (payload : List ℕ) (k : ℕ) (replies : List SendReply) (s : Session)
    → s.state ≡ SessionState.active
    → s.is_open ≡ true
    → s.sends ≡ takes 0 ∷ takes k ∷ replies
    → length payload ≤ k
    → 0 < length payload
    → ((send_unsequenced payload s).0 ≡ returns)
      × ((send_unsequenced payload s).1.wire ≡ s.wire ++ payload)
      × ((send_unsequenced payload s).1.out_pending ≡ s.out_pending ++ header_bytes payload)
send_unsequenced-reorders payload k replies s act up e le pos =
    let run : send_unsequenced payload s ≡ write_bytes payload kept =
      send_unsequenced-active payload s act ∙ ap (λ r. and_then r (write_bytes payload)) refused in
    rw run (write_bytes-overtakes payload k replies kept up refl le pos)
  where
    kept : Session
    kept = record s {
      sends = takes k ∷ replies;
      out_pending = s.out_pending ++ header_bytes payload;
    }

    refused : write_bytes (header_bytes payload) s ≡ (returns, kept)
    refused =
        write_bytes-refused (header_bytes payload) (takes k ∷ replies) s up e
          (omega (arith, length-header_bytes payload))

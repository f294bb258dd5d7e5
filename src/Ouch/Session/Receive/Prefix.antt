-- ===== src/Ouch/Session/Receive/Prefix.antt =====
-- How far a dispatch reads.
use ouchservice.Prelude.{
  ℕ, ◌+◌, ◌%◌, ◌^◌, ◌≤◌, ◌≡◌, ap, ◌∙◌, false, List, [], ◌∷◌, ◌++◌, arith, ◌==◌, ltb, Bool-cases,
  inl, inr, take, drop, length, get_or, length-append, length-drop, take-append_le, drop-append_le,
}
use ouchservice.Core.Codec.{Codec, get_or-append}
use ouchservice.Net.Soup.{header_codec, size-header_codec}
use ouchservice.Ouch.Messages.Outbound.{
  order_accepted_codec, order_rejected_codec, order_replaced_codec, order_canceled_codec,
  order_executed_codec, mass_quote_ack_codec, mass_quote_rejection_codec,
}
use ouchservice.Ouch.Session.State.{Session, returns, Callback, call}
use ouchservice.Ouch.Session.Dispatch.{
  deliver, dispatch_type, dispatch_ouch, dispatch_login_accepted, dispatch_login_rejected,
  dispatch_packet,
}
use ouchservice.Ouch.Session.Receive.{packet_size, claimed_len, dispatch_first}

-- The session that `dispatch_packet` hands on, and the one that it hands to `dispatch_ouch`.
abbrev counted : Session → Session
counted s = record s { msgs_recv = (s.msgs_recv + 1) % 2 ^ 64 }

abbrev sequenced : Session → Session
sequenced s = record s {
  msgs_recv = (s.msgs_recv + 1) % 2 ^ 64;
  next_inbound_seq = (s.next_inbound_seq + 1) % 2 ^ 64;
}

abbrev audited : List ℕ → Session → Session
audited buf s = call (Callback.on_audit_recv (take (packet_size buf) buf)) s

-- A dispatch that succeeds does not look behind what it needs: more memory changes nothing.
deliver-append :
    {A : Type 0} (c : Codec A) (h : A → Callback) (payload more : List ℕ) (n : ℕ) (s s' : Session)
    → deliver c h payload n s ≡ (returns, s')
    → deliver c h (payload ++ more) n s ≡ (returns, s')
unfolding deliver
deliver-append c h payload more n s s' e = elim (Bool-cases (n == c.size)) [
  | inl fits ↦ elim (Bool-cases (ltb (length payload) c.size)) [
    | inl short ↦ absurd (ground arith)
    | inr enough ↦
        let le : c.size ≤ length payload = ground arith in
        ground (arith, c.read_prefix payload more le, length-append payload more)
  ]
  | inr other ↦ absurd (ground arith)
]

dispatch_type-append :
    (t : ℕ) (payload more : List ℕ) (n : ℕ) (s s' : Session)
    → dispatch_type t payload n s ≡ (returns, s')
    → dispatch_type t (payload ++ more) n s ≡ (returns, s')
unfolding dispatch_type
dispatch_type-append t payload more n s s' e = ground (
  arith,
  deliver-append order_accepted_codec Callback.on_accepted payload more n s s',
  deliver-append order_rejected_codec Callback.on_rejected payload more n s s',
  deliver-append order_replaced_codec Callback.on_replaced payload more n s s',
  deliver-append order_canceled_codec Callback.on_canceled payload more n s s',
  deliver-append order_executed_codec Callback.on_executed payload more n s s',
  deliver-append mass_quote_ack_codec Callback.on_mass_quote_ack payload more n s s',
  deliver-append mass_quote_rejection_codec Callback.on_mass_quote_reject payload more n s s',
)

dispatch_ouch-append :
    (payload more : List ℕ) (n : ℕ) (s s' : Session)
    → dispatch_ouch payload n s ≡ (returns, s')
    → dispatch_ouch (payload ++ more) n s ≡ (returns, s')
unfolding dispatch_ouch
dispatch_ouch-append payload more n s s' e = elim (Bool-cases (n == 0)) [
  | inl z ↦ absurd (ground arith)
  | inr nz ↦ elim (Bool-cases (length payload == 0)) [
    | inl none_left ↦ absurd (ground arith)
    | inr some_left ↦
        let head : get_or (payload ++ more) 0 0 ≡ get_or payload 0 0 =
          get_or-append 0 payload more (ground arith) in
        let there : (length (payload ++ more) == 0) ≡ false =
          ground (arith, length-append payload more) in
        let before : dispatch_type (get_or payload 0 0) payload n s ≡ (returns, s') =
          ground arith in
        rw (nz, there, head) (dispatch_type-append (get_or payload 0 0) payload more n s s' before)
  ]
]

dispatch_login_accepted-append :
    (payload more : List ℕ) (n : ℕ) (s s' : Session)
    → dispatch_login_accepted payload n s ≡ (returns, s')
    → dispatch_login_accepted (payload ++ more) n s ≡ (returns, s')
unfolding dispatch_login_accepted
dispatch_login_accepted-append payload more n s s' e = elim (Bool-cases (ltb (length payload) 30)) [
  | inl short ↦ absurd (ground arith)
  | inr enough ↦
      let front : take 10 (payload ++ more) ≡ take 10 payload =
        take-append_le 10 payload more (ground arith) in
      let back : take 20 (drop 10 (payload ++ more)) ≡ take 20 (drop 10 payload) =
        ap (take 20) (drop-append_le 10 payload more (ground arith))
        ∙ take-append_le 20 (drop 10 payload) more
            (omega (arith, length-drop 10 payload, enough_le enough)) in
      let there : ltb (length (payload ++ more)) 30 ≡ false =
        ground (arith, length-append payload more) in
      rw (there, front, back) (ground arith)
]
  where
    enough_le : ltb (length payload) 30 ≡ false → 30 ≤ length payload
    enough_le h = ground arith

dispatch_login_rejected-append :
    (payload more : List ℕ) (n : ℕ) (s s' : Session)
    → dispatch_login_rejected payload n s ≡ (returns, s')
    → dispatch_login_rejected (payload ++ more) n s ≡ (returns, s')
unfolding dispatch_login_rejected
dispatch_login_rejected-append [] more n s s' e = ground arith
dispatch_login_rejected-append (b ∷ bs) more n s s' e = ground arith

dispatch_packet-append :
    (t : ℕ) (payload more : List ℕ) (n : ℕ) (s s' : Session)
    → dispatch_packet t payload n s ≡ (returns, s')
    → dispatch_packet t (payload ++ more) n s ≡ (returns, s')
unfolding dispatch_packet
dispatch_packet-append t payload more n s s' e = ground (
  arith,
  dispatch_login_accepted-append payload more n (counted s) s',
  dispatch_login_rejected-append payload more n (counted s) s',
  dispatch_ouch-append payload more n (sequenced s) s',
)

-- The same of a whole packet: the header says where it ends.
pub dispatch_first-append :
    (buf more : List ℕ) (s s' : Session)
    → 3 ≤ length buf
    → packet_size buf ≤ length buf
    → dispatch_first buf s ≡ (returns, s')
    → (packet_size (buf ++ more) ≡ packet_size buf)
      × (dispatch_first (buf ++ more) s ≡ (returns, s'))
unfolding dispatch_first
dispatch_first-append buf more s s' le size e =
    let same : header_codec.read (buf ++ more) ≡ header_codec.read buf =
      header_codec.read_prefix buf more (omega (arith, size-header_codec, le)) in
    let whole : take (packet_size buf) (buf ++ more) ≡ take (packet_size buf) buf =
      take-append_le (packet_size buf) buf more size in
    (
      ap (λ h. h.length + 2) same,
      rw (same, whole, drop-append_le 3 buf more le)
          (dispatch_packet-append (header_codec.read buf).packet_type (drop 3 buf) more
            (claimed_len buf) (audited buf s) s' e),
    )

-- ===== src/Ouch/Session/State.antt =====
-- The fields of `OuchSession`, its callbacks and its environment.
use ouchservice.Prelude.{ℕ, Bool, List, [], ◌∷◌, String}
use ouchservice.Core.Types.{Error}
use ouchservice.Ouch.Messages.Outbound.{
  OrderAccepted, OrderRejected, OrderReplaced, OrderCanceled, OrderExecuted, MassQuoteAck,
  MassQuoteRejection,
}

pub data SessionState : Type 0 where
  disconnected connecting logging_in active disconnecting failed : SessionState

pub record LoginParams : Type 0 where
  pub username : List ℕ
  pub password : List ℕ
  pub requested_session : List ℕ
  pub requested_sequence : ℕ

-- A call of one of the `Handlers`, with its argument. The session calls a handler only if it is
-- set; one that is not set ignores its entries here.
pub data Callback : Type 0 where
  on_accepted : OrderAccepted → Callback
  on_rejected : OrderRejected → Callback
  on_replaced : OrderReplaced → Callback
  on_canceled : OrderCanceled → Callback
  on_executed : OrderExecuted → Callback
  on_mass_quote_ack : MassQuoteAck → Callback
  on_mass_quote_reject : MassQuoteRejection → Callback
  on_state_change : SessionState → String → List ℕ → Callback
  on_audit_sent : List ℕ → Callback
  on_audit_recv : List ℕ → Callback

-- What the kernel answers to `send`: the number of bytes that it takes (0 for EAGAIN), or an error.
pub data SendReply : Type 0 where
  takes : ℕ → SendReply
  send_fails : SendReply

-- What it answers to `recv`: bytes, EAGAIN, the end of the stream, or an error.
pub data RecvReply : Type 0 where
  gives : List ℕ → RecvReply
  would_block peer_closed recv_fails : RecvReply

-- A `Result<void>`, or a read past the end of the input buffer, which is undefined in the source.
pub data Outcome : Type 0 where
  returns : Outcome
  fails : Error → Outcome
  out_of_bounds : Outcome

-- The session. The environment is part of it: the kernel's coming answers, the coming readings of
-- the clock, and the bytes that it has taken so far (`wire`). `callbacks` has the newest first.
pub record Session : Type 0 where
  pub is_open : Bool
  pub sends : List SendReply
  pub recvs : List RecvReply
  pub clock : List ℕ
  pub wire : List ℕ
  pub login : LoginParams
  pub heartbeat_send_ns : ℕ
  pub heartbeat_timeout_ns : ℕ
  pub state : SessionState
  pub in_buffer : List ℕ
  pub out_pending : List ℕ
  pub last_send_ns : ℕ
  pub last_recv_ns : ℕ
  pub assigned_session : List ℕ
  pub next_inbound_seq : ℕ
  pub last_login_reject_reason : ℕ
  pub msgs_sent : ℕ
  pub msgs_recv : ℕ
  pub callbacks : List Callback

abbrev pub call : Callback → Session → Session
call c s = record s { callbacks = c ∷ s.callbacks }

unfoldable pub set_state : SessionState → String → List ℕ → Session → Session
set_state st detail appended s =
    call (Callback.on_state_change st detail appended) (record s { state = st })

-- `monotonic_ns()`: the next reading; 0 when the environment gives no more.
abbrev pub first_or_zero : List ℕ → ℕ
first_or_zero [] = 0
first_or_zero (t ∷ ts) = t

abbrev pub rest_of : List ℕ → List ℕ
rest_of [] = []
rest_of (t ∷ ts) = ts

-- ===== src/Mock/Gateway/Handle.antt =====
-- The `switch` of `handle_unsequenced_payload`; a message of the wrong size is ignored.
use ouchservice.Prelude.{ℕ, List, if◌then◌else◌, ◌==◌, length, get_or}
use ouchservice.Core.Codec.{Codec}
use ouchservice.Ouch.Messages.Inbound.{
  enter_order_codec, replace_order_codec, cancel_order_codec, cancel_by_order_id_codec,
}
use ouchservice.Ouch.Session.State.{Outcome, returns}
use ouchservice.Mock.Gateway.State.{Gateway}
use ouchservice.Mock.Gateway.Orders.{enter_order, cancel_order, cancel_by_order_id, replace_order}
use ouchservice.Mock.Gateway.Quotes.{mass_quote}

abbrev pub of_size :
    {A : Type 0} → Codec A → (A → Gateway → Gateway) → List ℕ → Gateway → Outcome × Gateway
of_size c handle payload g =
    if length payload == c.size then (returns, handle (c.read payload) g) else (returns, g)

unfoldable pub handle_type : ℕ → List ℕ → Gateway → Outcome × Gateway
handle_type type payload g =
    if type == b'O'
    then of_size enter_order_codec enter_order payload g
    else if type == b'X'
    then of_size cancel_order_codec cancel_order payload g
    else if type == b'Y'
    then of_size cancel_by_order_id_codec cancel_by_order_id payload g
    else if type == b'U'
    then of_size replace_order_codec replace_order payload g
    else if type == b'Q'
    then mass_quote payload g
    else (returns, g)

unfoldable pub handle_unsequenced_payload : List ℕ → Gateway → Outcome × Gateway
unfolding handle_type
handle_unsequenced_payload payload g =
    if length payload == 0 then (returns, g) else handle_type (get_or payload 0 0) payload g

-- ===== src/Mock/Gateway/Entries.antt =====
-- Which entries of a mass quote are read.
use ouchservice.Prelude.{
  ℕ, zero, suc, ◌+◌, ◌*◌, ◌≤◌, ◌≡◌, List, arith, if◌then◌else◌, leb, drop, length, length-drop,
}
use ouchservice.Ouch.Messages.Inbound.{MassQuoteHeader, mass_quote_header_codec, quote_entry_codec}
use ouchservice.Ouch.Session.State.{returns, out_of_bounds}
use ouchservice.Mock.Gateway.State.{Gateway}
use ouchservice.Mock.Gateway.Quotes.{entries_loop, handle_entry, mass_quote}

entries_loop-outcome :
    (h : MassQuoteHeader) (n : ℕ) (mem : List ℕ) (g : Gateway)
    → (entries_loop h n mem g).0 ≡ (if leb (28 * n) (length mem) then returns else out_of_bounds)
unfolding entries_loop
entries_loop-outcome h zero mem g = ground arith
entries_loop-outcome h (suc n) mem g = ground (
  arith,
  entries_loop-outcome h n (drop 28 mem) (handle_entry h (quote_entry_codec.read mem) g),
  length-drop 28 mem,
)

-- A mass quote whose payload holds a header and an entry is read within its payload exactly if the
-- payload is at least as long as the number of entries in its header says; else the gateway reads
-- behind the end.
pub mass_quote-outcome :
    (payload : List ℕ) (g : Gateway)
    → 78 ≤ length payload
    → let n = (mass_quote_header_codec.read payload).no_quote_entries in
      (mass_quote payload g).0
      ≡ (if leb (50 + 28 * n) (length payload) then returns else out_of_bounds)
unfolding mass_quote
mass_quote-outcome payload g long =
    let h = mass_quote_header_codec.read payload in
    ground
      (arith, entries_loop-outcome h h.no_quote_entries (drop 50 payload) g, length-drop 50 payload)

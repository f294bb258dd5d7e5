-- ===== src/Lib.antt =====
-- A verification library of the BIST colocation client: the OUCH order entry session over SoupBinTCP,
-- the trading client above it, the rate limiter, the token registry and the order book that the client
-- uses, and the mock gateway that stands in for the exchange.
--
-- An order goes through `OuchClient::place` (include/bist/ouch/client.hpp): the throttler grants it, the
-- registry gives it a token, the order book enters it as pending, and the session
-- (include/bist/ouch/session.hpp) frames it and writes it to the socket. The session's read side cuts
-- the stream into packets and calls a handler for each message of the host. The handlers' reports go to
-- the order book.
--
--   Prelude               names of the libraries, tests on numbers, lists, maps, decimal text, integers
--   Core/Types            include/bist/core/types.hpp and result.hpp: enumerations, errors, results
--   Core/Alpha            OrderToken of core/types.hpp, alpha fields of include/bist/ouch/codec.hpp
--   Core/Endian           include/bist/core/endian.hpp
--   Core/Codec            packed structs as records, with their layout in bytes
--   Core/Ring             include/bist/core/ring_buffer.hpp; Threads has the two threads' loads and stores
--   Net/Soup              include/bist/net/soupbintcp.hpp
--   Domain/Throttler      include/bist/domain/throttler.hpp
--   Domain/TokenRegistry  include/bist/domain/token_registry.hpp
--   Domain/OrderBook      include/bist/domain/order_book.hpp
--   Domain/Instrument     include/bist/domain/instrument.hpp
--   Ouch/Messages         include/bist/ouch/messages.hpp
--   Ouch/Codec            include/bist/ouch/codec.hpp
--   Ouch/Session          include/bist/ouch/session.hpp: State (the fields), Send, Receive, Dispatch,
--                         Timers
--   Ouch/Client           include/bist/ouch/client.hpp
--   Mock/Gateway          include/bist/mock/ouch_gateway.hpp and src/mock/ouch_gateway.cpp: State (the
--                         fields, the write side), Login, Orders, Quotes, Handle (the dispatch)
--   Runner                include/bist/runner/replay.hpp, scenario.hpp and transport.hpp: Scenario (the
--                         data), Fields and Events (matching), Replay (the state, the queue, waiting),
--                         Steps, Link and Burst (the actions), Run (expectations and the whole run)
--   Runner/Fix            include/bist/runner/fix_replay.hpp: Events, Price, Steps, Run
--   Fix/Facade            include/bist/fix/facade.hpp: arguments, events, and the clients as parameters
--   Observability         include/bist/observability/sequence_store.hpp
--   App                   include/bist/app/reconnect_policy.hpp; Ptrm is include/bist/risk/ptrm.hpp and
--                         src/risk/ptrm.cpp
--   Config                include/bist/config/config.hpp and src/config/config.cpp: Load (the merging of
--                         the tables), Checks (the validation, the loader, the endpoint)
--   Tests                 runs of the code at concrete inputs
--
-- A definition has the name of the function that it translates, in lower case with underscores. State is
-- a record that an operation takes and returns; an error is a value. Unsigned machine integers are
-- natural numbers with the wrap-around written out, signed ones are integers with their conversion to
-- the wire written out. Bytes are natural numbers and texts are lists of bytes.
--
-- The kernel and the clock are inputs: a session holds the answers that `send` and `recv` will give and
-- the readings of the monotonic clock, and it collects the bytes that the kernel has taken. A read past
-- the end of the input buffer, which is undefined in the source, is an outcome of its own.
--
-- The loops over the kernel's answers and over the slots are structural. `parse_pending` runs on fuel,
-- the length of the input buffer: each packet drops at least the two bytes of its length field, and more
-- fuel changes nothing.
--
-- Not modelled: sockets, reactors, threads but those of the ring, the clock and the files (system
-- calls); the audit log and the logger (output); the scenario files, the FIX bridge and the command
-- line tools, which stand on third-party libraries or print. The TOML library is a parameter of the
-- configuration's loader.
--
-- The runners wait for readings of the clock, and the FIX runner for what its engine pushes: each loop
-- is structural over these inputs, and a call that is still waiting when they end has no result. The
-- loop of `FixScenarioRunner::match_expectation` runs on fuel, one more than the events that can still
-- arrive, which is always enough. The first loop of `run_cancel_id` runs on fuel that the caller gives.
-- A step of the FIX runner whose price overflows, which is undefined in the source, has no result either.
pub mod Prelude
pub mod App
pub mod Config
pub mod Core
pub mod Domain
pub mod Net
pub mod Observability
pub mod Ouch
pub mod Tests
pub mod Fix
pub mod Mock
pub mod Runner

-- ===== src/Lib.antt =====
-- The POA bridge: a program that moves value between two chains, `home` and `foreign`.
--
-- An authority runs one bridge process. It watches both chains for logs of the two bridge contracts,
-- a confirmed range of blocks at a time, and relays what it sees: a deposit on home becomes a call on
-- foreign, a withdrawal on foreign is signed and the signature submitted to foreign, and a
-- withdrawal whose signatures are collected becomes a call on home. The last block that each of
-- the three relays has dealt with is written to a database file, from which a restart goes on. The
-- process ends with an exit code that tells the cause.
--
-- Everything is written as poll functions over explicit states (`loop { ...; self.state = next; }`).
-- The model keeps that form: one data type for the states, one function `round_in` with a clause for
-- each state, and `poll`, which runs rounds until one returns.
--
-- The files, and the code they are about:
--   Prelude and its children: shared names, tests on numbers, lists and texts.
--   Error: bridge/src/error.rs, and results with panics as a third outcome.
--   Futures: bridge/src/macros.rs (`try_stream!`), poll results, feeds and the loop. Futures.Loop
--     has the loop without fuel (`Runs`) and the rules that the proofs use.
--   Bytes: slices and `copy_from_slice`, which panic out of bounds, and 256-bit words.
--   LogStream (Ranges, Confirmed, Progress): `LogStream` of bridge/src/api.rs.
--   Filter (Trim, Reference): `trim_filter` of bridge/src/api.rs and `web3_topic` of
--     bridge/src/util.rs.
--   Request: the requests of bridge/src/api.rs, and the filters of bridge/src/util.rs and the relays.
--   DataHash (Injective): `eth_data_hash` of bridge/src/api.rs.
--   Message, Signature (RoundTrip each): bridge/src/message_to_mainnet.rs, bridge/src/signature.rs.
--   Transaction: bridge/src/transaction.rs.
--   Nonce (Sending, Batch): bridge/src/bridge/nonce.rs.
--   Relay.Shared and Relay.Fees: what the relays share, and the fees of their transactions.
--   Relay.Deposit (Checked, Funds, Delivers, Once): bridge/src/bridge/deposit_relay.rs.
--   Relay.Confirm (Checked, Submits, Submitted, Once): bridge/src/bridge/withdraw_confirm.rs.
--   Relay.Withdraw (Checked, Relays, Assignments, TakesUp, Sends, Once): bridge/src/bridge/withdraw_relay.rs.
--   Relay.Sent, Relay.Rounds, Relay.Between: what a relay reads and sends in the rounds of its loop.
--   Relay.Merged (Rising, Walks): the three relays as one stream, in bridge/src/bridge/mod.rs.
--   Relay.Restart: the relays from their creation on, and the checkpoints they report.
--   Balance (Loops): bridge/src/bridge/balance.rs and bridge/src/bridge/chain_id.rs.
--   GasPrice (Prices): bridge/src/bridge/gas_price.rs, and `GasPriceSpeed` of bridge/src/config.rs.
--   EventStream (Checks, Gate, Stopping): `BridgeEventStream` of bridge/src/bridge/mod.rs.
--   Database (Saved): bridge/src/database.rs, and `Bridge` of bridge/src/bridge/mod.rs.
--   Process (Checkpoints, Created, Walks, Relayed): `create_bridge` of bridge/src/bridge/mod.rs, and the bridge on the
--     event loop, against an abstract machine of its checkpoints.
--   Deploy (Resumes, Existing, Ignored): bridge/src/bridge/deploy.rs, with the `deploy` feature.
--   Config (Loading, Reading, Deploying): bridge/src/config.rs.
--   App (Slots): bridge/src/app.rs.
--   ExitCode (Classes, Causes, Codes): the loop at the end of `execute` in cli/src/main.rs.
--   Execute (Starts, Stages, Exits, Shutdown, Relayed, Gives, Reopened, Restart, Main): `execute` as a
--     whole, and `main` around it.
--   Quickcheck: the quickcheck properties of the messages and the signatures.
--   Tests: concrete instances of the parameters, and the theorems at concrete inputs. Tests.Units,
--     Tests.Oracles and Tests.Settings run the unit tests that stand beside the code on the model.
--
-- How state and operations correspond. A struct is a record with the fields that its poll function
-- reads or writes; a poll function takes the record and returns it changed, with the poll result. The
-- cells that parts share are passed on: a relay reads `Shared` (the balance and the gas price), the
-- event stream holds the cells it writes, and a check holds the nonce cell of its node, which
-- `start_all` threads through a batch. Numbers are natural numbers; `low_u64`, `low_u32`, the nonce
-- and the length of the timer wheel wrap around where the source does, and `saturating_sub` is
-- subtraction that stops at 0. Addresses, hashes and byte strings are lists of numbers below 256.
--
-- What stands outside the repository is a parameter. What timers, nodes, the oracle and embedded
-- futures answer is a feed of poll results, read one by one; an empty feed is not ready. So a theorem
-- over all feeds holds whatever they answer, in whatever order. A feed is finite: a timer or a node that
-- is ready for ever is outside the model. Parsers and encoders of the contract
-- interfaces (`Contracts`), the key store and RLP (`Signer`), keccak, conversions of words
-- (`Word256`), TOML (`Toml`) and JSON (`Oracle`) are records of functions, with the documented laws
-- that a theorem needs. The law of `Toml` takes block numbers to be below 2 ^ 63, as the crate does.
--
-- Bounds and fuel. `poll` runs at most one round more than `budget`, which counts the answers left in
-- the feeds and the rounds that read none. Every round that goes on lowers it, so the fuel is
-- enough: the theorems named `...poll-Runs` show that `poll` returns what the loop without fuel
-- returns. Decimal digits have as much fuel as the number, and so has the doubling of the wheel.
--
-- The event loop has no fuel of its own: a future, and the bridge, are polled `n` times, and the
-- theorems hold for every `n`.
--
-- Not modelled: the parser of the command line, which is a parameter, log messages, but for the
-- hashes that two of them unwrap (`info_enabled` says whether the logger lets them through), the HTTP
-- client of the oracle, the choice of the `select` combinators, which is a list of passes over the
-- three relays, and the collected futures of a batch, whose answers are a feed. The contracts
-- themselves are another program. The settings of the `deploy` feature are read on their own, and
-- are not part of Config; Execute takes the two creations as inputs.
pub mod App
pub mod Balance
pub mod Bytes
pub mod Config
pub mod DataHash
pub mod Database
pub mod Deploy
pub mod Error
pub mod EventStream
pub mod Execute
pub mod ExitCode
pub mod Filter
pub mod Futures
pub mod GasPrice
pub mod LogStream
pub mod Message
pub mod Nonce
pub mod Prelude
pub mod Process
pub mod Quickcheck
pub mod Relay
pub mod Request
pub mod Signature
pub mod Tests
pub mod Transaction

-- ===== src/LogStream.antt =====
-- bridge/src/api.rs: `LogStream`, the stream of confirmed logs over ranges of blocks.
-- The interval timer and the two requests are feeds of the state. The block range of a request for
-- logs stands in `fetch_logs`; the builder's address and topics, which never change, are left out.
pub mod Ranges
pub mod Confirmed
pub mod Progress
use poa_bridge.Prelude.{
  ℕ, suc, ◌+◌, ◌-◌, ◌*◌, ◌%◌, ◌^◌, List, Option, none, some, ltb, length, if◌then◌else◌,
}
use poa_bridge.Futures.{
  Poll, ready, Feed, poll_feed, Round, again, done, try_ready, try_stream, drive,
}

-- `web3::types::Log`, with the fields that the bridge reads. Bytes are numbers below 256.
pub record Log : Type 0 where
  pub topics : List (List ℕ)
  pub log_data : List ℕ
  pub transaction_hash : Option (List ℕ)

pub record LogStreamItem : Type 0 where
  pub from_block : ℕ
  pub to_block : ℕ
  pub logs : List Log

pub record LogStreamInit : Type 0 where
  pub after : ℕ
  pub confirmations : ℕ

pub data LogStreamState : Type 0 where
  wait fetch_block_number : LogStreamState
  fetch_logs : ℕ → ℕ → LogStreamState
  next_item : Option LogStreamItem → LogStreamState

-- What the timer and the node answer, in order.
pub record Replies : Type 0 where
  pub ticks : Feed (Option (Unit {0}))
  pub block_numbers : Feed ℕ
  pub fetched_logs : Feed (List Log)

pub record LogStream : Type 0 where
  pub state : LogStreamState
  pub after : ℕ
  pub confirmations : ℕ
  pub replies : Replies
  pub open replies use *

unfoldable pub log_stream : LogStreamInit → Replies → LogStream
log_stream init replies = record {
  state = wait;
  after = init.after;
  confirmations = init.confirmations;
  replies = replies;
}

-- `U256::low_u64`.
abbrev pub low_u64 : ℕ → ℕ
low_u64 n = n % 2 ^ 64

-- What `FetchBlockNumber` does with the number that arrived. `saturating_sub` is `-` on ℕ.
unfoldable pub block_number_arrived : LogStream → ℕ → LogStreamState
block_number_arrived s number =
    let last_block = low_u64 number in
    let last_confirmed_block = last_block - s.confirmations in
    if ltb s.after last_confirmed_block then fetch_logs (s.after + 1) last_confirmed_block else wait

unfoldable pub round_in : LogStreamState → LogStream → Round LogStream (Option LogStreamItem)
unfolding block_number_arrived
round_in wait s =
    let (p, rest) = poll_feed s.ticks in
    let s' = record s { replies = record (s.replies) { ticks = rest } } in
    try_stream p s' (λ _. again (record s' { state = fetch_block_number }))
round_in fetch_block_number s =
    let (p, rest) = poll_feed s.block_numbers in
    let s' = record s { replies = record (s.replies) { block_numbers = rest } } in
    try_ready p s' (λ number. again (record s' { state = block_number_arrived s number }))
round_in (fetch_logs from to) s =
    let (p, rest) = poll_feed s.fetched_logs in
    let s' = record s { replies = record (s.replies) { fetched_logs = rest } } in
    try_ready p s' λ logs.
      let item : LogStreamItem = record { from_block = from; to_block = to; logs = logs } in
      again (record s' { after = to; state = next_item (some item) })
round_in (next_item none) s = again (record s { state = wait })
round_in (next_item (some item)) s = done (record s { state = next_item none }) (ready (some item))

unfoldable pub round : LogStream → Round LogStream (Option LogStreamItem)
unfolding round_in
round s = round_in s.state s

-- A bound on the rounds of one poll: three for every answer, and those that read none.
abbrev pub idle_rounds : LogStreamState → ℕ
idle_rounds (next_item none) = 1
idle_rounds (next_item (some item)) = 2
idle_rounds _ = 0

unfoldable pub budget : LogStream → ℕ
budget s =
    3 * (length s.ticks + length s.block_numbers + length s.fetched_logs) + idle_rounds s.state

unfoldable pub poll : LogStream → LogStream × Poll (Option LogStreamItem)
poll s = drive round (suc (budget s)) s

-- ===== src/Request.antt =====
-- bridge/src/api.rs: the requests that the bridge makes of a node, as what is handed to the web3 crate,
-- and bridge/src/util.rs: the filters of logs, with the ones that the relays make. How the crate
-- serializes addresses, blocks and filters is a parameter.
use poa_bridge.Error.{Web3Error, web3}
use poa_bridge.Filter.{Value, trim_filter, web3_topic}
use poa_bridge.Futures.{Poll, ready, not_ready, failed}
use poa_bridge.LogStream.{LogStreamState, wait, fetch_block_number, fetch_logs, next_item}
use poa_bridge.Prelude.{ℕ, String, Option, none, some, List, [], ◌∷◌}

pub data BlockNumber : Type 0 where
  latest earliest pending : BlockNumber
  number : ℕ → BlockNumber

-- `ethabi::TopicFilter`, each topic as the list of hashes that it converts to.
pub record TopicFilter : Type 0 where
  pub topic0 : List (List ℕ)
  pub topic1 : List (List ℕ)
  pub topic2 : List (List ℕ)
  pub topic3 : List (List ℕ)

-- What `FilterBuilder` has been given.
pub record LogFilter : Type 0 where
  pub from_block : Option BlockNumber
  pub to_block : Option BlockNumber
  pub address : Option (List (List ℕ))
  pub topics : Option (List (Option (List (List ℕ))))

unfoldable pub web3_filter : TopicFilter → List (List ℕ) → LogFilter
unfolding web3_topic
web3_filter filter addresses =
    let t0 = web3_topic filter.topic0 in
    let t1 = web3_topic filter.topic1 in
    let t2 = web3_topic filter.topic2 in
    let t3 = web3_topic filter.topic3 in
    record {
      from_block = none;
      to_block = none;
      address = some addresses;
      topics = some (t0 ∷ t1 ∷ t2 ∷ t3 ∷ []);
    }

-- `create_filter()` of the generated bindings of the three events.
pub record EventFilters : Type 0 where
  pub deposit : TopicFilter
  pub withdraw : TopicFilter
  pub collected_signatures : TopicFilter

module _ (events : EventFilters) where
  unfoldable pub deposits_filter : List ℕ → LogFilter
  unfolding web3_filter
  deposits_filter address = web3_filter events.deposit (address ∷ [])

  unfoldable pub withdraws_filter : List ℕ → LogFilter
  unfolding web3_filter
  withdraws_filter address = web3_filter events.withdraw (address ∷ [])

  unfoldable pub collected_signatures_filter : List (List ℕ) → LogFilter
  unfolding web3_filter
  collected_signatures_filter addresses = web3_filter events.collected_signatures addresses

-- `CallRequest`, whose optional fields are all `None` but the data.
pub record CallRequest : Type 0 where
  pub to : List ℕ
  pub call_data : Option (List ℕ)

-- A call of the transport, or of the crate's own wrappers.
pub data Call : Type 0 where
  execute : String → List Value → Call
  eth_block_number : Call
  eth_send_raw_transaction : List ℕ → Call
  eth_call : CallRequest → Option BlockNumber → Call

-- The text is only traced.
pub record ApiCall : Type 0 where
  pub future : Call
  pub message : String

-- What the future of a call gives when it is polled.
pub data CallPoll {ℓ} (A : Type ℓ) : Type ℓ where
  answered : A → CallPoll A
  unanswered : CallPoll A
  refused : Web3Error → CallPoll A

-- `ApiCall::poll`: an error of the crate becomes one of the bridge.
unfoldable pub api_call_poll : {A : Type 0} → CallPoll A → Poll A
api_call_poll (answered a) = ready a
api_call_poll unanswered = not_ready
api_call_poll (refused e) = failed (web3 e)

pub record Serializer : Type 0 where
  pub address_value : List ℕ → Value
  pub block_value : BlockNumber → Value
  pub filter_value : LogFilter → Value

-- `block.unwrap_or(BlockNumber::Pending)`.
unfoldable pub or_pending : Option BlockNumber → BlockNumber
or_pending none = pending
or_pending (some block) = block

unfoldable pub net_version : ApiCall
net_version = record { future = execute "net_version" []; message = "net_version" }

unfoldable pub block_number : ApiCall
block_number = record { future = eth_block_number; message = "eth_blockNumber" }

unfoldable pub send_raw_transaction_call : List ℕ → ApiCall
send_raw_transaction_call tx = record {
  future = eth_send_raw_transaction tx;
  message = "eth_sendRawTransaction";
}

unfoldable pub call_contract : List ℕ → List ℕ → ApiCall
call_contract address payload = record {
  future = eth_call (record { to = address; call_data = some payload }) none;
  message = "eth_call";
}

module _ (serializer : Serializer) where
  open serializer use {address_value, block_value, filter_value}

  unfoldable pub eth_get_transaction_count : List ℕ → Option BlockNumber → ApiCall
  unfolding or_pending
  eth_get_transaction_count address block = record {
    future =
        execute "eth_getTransactionCount"
          (address_value address ∷ block_value (or_pending block) ∷ []);
    message = "net_version";
  }

  unfoldable pub balance : List ℕ → Option BlockNumber → ApiCall
  unfolding or_pending
  balance address block = record {
    future = execute "eth_getBalance" (address_value address ∷ block_value (or_pending block) ∷ []);
    message = "eth_getBalance";
  }

  unfoldable pub logs : LogFilter → ApiCall
  logs filter = record {
    future = execute "eth_getLogs" (trim_filter (filter_value filter) ∷ []);
    message = "eth_getLogs";
  }

  -- The request that the log stream has under way: none while it waits, and in `fetch_logs` the logs
  -- of its filter over the range of blocks.
  unfoldable pub request_of : LogFilter → LogStreamState → Option ApiCall
  unfolding logs
  request_of filter wait = none
  request_of filter fetch_block_number = some block_number
  request_of filter (fetch_logs from to) =
      some (logs (record filter { from_block = some (number from); to_block = some (number to) }))
  request_of filter (next_item item) = none

-- ===== src/Chain/Client.antt =====
-- chain/chain.client.ts: `ChainClient`. What its endpoints answer at each attempt is given.
pub mod Waiting
use internship_project_peanu.Prelude.{
  ℕ, zero, suc, ◌+◌, ◌*◌, Bool, Option, none, some, List, String, ltb, if◌then◌else◌,
}
use internship_project_peanu.Prelude.Int.{ℤ}
use internship_project_peanu.Chain.Retry.{RpcError, Reply, value, fault, Retried, with_retry}
use internship_project_peanu.Chain.Gas.{GasPrice, gas_price_of}

-- `TransactionReceipt`, without its logs.
pub record TransactionReceipt : Type 0 where
  pub tx_hash : String
  pub block_number : ℕ
  pub status : Bool
  pub gas_used : ℤ
  pub effective_gas_price : ℤ

-- A receipt, a `TransactionReceiptNotFoundError`, or another error.
pub data ReceiptReply : Type 0 where
  found : TransactionReceipt → ReceiptReply
  not_found : ReceiptReply
  failed : RpcError → ReceiptReply

-- An endpoint: what it answers at an attempt.
pub record Node : Type 0 where
  pub get_balance : ℕ → Reply ℤ
  pub get_transaction_count : ℕ → Reply ℕ
  -- the base fee of the last block, and the rewards of the fee history
  pub get_fees : ℕ → Reply (Option ℤ × Option (List (List ℤ)))
  pub estimate_gas : ℕ → Reply ℤ
  pub send_raw_transaction : String → ℕ → Reply String
  pub get_transaction_receipt : String → ℕ → ReceiptReply
  pub call : ℕ → Reply (Option String)

pub record ChainClient : Type 0 where
  pub nodes : List Node
  pub max_retries : ℕ
  pub chain_id : ℕ

abbrev pub map_reply : {A B : Type 0} → (A → B) → Reply A → Reply B
map_reply g (value a) = value (g a)
map_reply g (fault e) = fault e

-- The `catch` inside `getReceipt`.
abbrev pub receipt_or_null : ReceiptReply → Reply (Option TransactionReceipt)
receipt_or_null (found r) = value (some r)
receipt_or_null not_found = value none
receipt_or_null (failed e) = fault e

-- `result.data ?? '0x'`
abbrev pub data_or_empty : Option String → String
data_or_empty none = "0x"
data_or_empty (some d) = d

-- Each method returns what it called and how it ended.
unfoldable pub get_balance : ChainClient → Retried ℤ Node
get_balance c = with_retry c.max_retries c.nodes "getBalance" (λ n node. node.get_balance n)

unfoldable pub get_nonce : ChainClient → Retried ℕ Node
get_nonce c = with_retry c.max_retries c.nodes "getNonce" (λ n node. node.get_transaction_count n)

unfoldable pub get_gas_price : ChainClient → Retried GasPrice Node
get_gas_price c =
    with_retry c.max_retries c.nodes "getGasPrice"
      (λ n node. map_reply (λ fees. gas_price_of fees.0 fees.1) (node.get_fees n))

unfoldable pub estimate_gas : ChainClient → Retried ℤ Node
estimate_gas c = with_retry c.max_retries c.nodes "estimateGas" (λ n node. node.estimate_gas n)

unfoldable pub send_transaction : String → ChainClient → Retried String Node
send_transaction signed c =
    with_retry c.max_retries c.nodes "sendTransaction"
      (λ n node. node.send_raw_transaction signed n)

unfoldable pub get_receipt : String → ChainClient → Retried (Option TransactionReceipt) Node
get_receipt tx_hash c =
    with_retry c.max_retries c.nodes "getReceipt"
      (λ n node. receipt_or_null (node.get_transaction_receipt tx_hash n))

unfoldable pub call : ChainClient → Retried String Node
call c = with_retry c.max_retries c.nodes "call" (λ n node. map_reply data_or_empty (node.call n))

-- A round of the polling loop: the clock, and the client with what its endpoints answer then.
pub record Poll : Type 0 where
  pub now : ℕ
  pub client : ChainClient

pub data Waited : Type 0 where
  confirmed : TransactionReceipt → Waited
  threw : RpcError → Waited
  timed_out : Waited
  -- the loop was cut by the model's fuel
  cut : Waited

-- What a poll's answer means; `rest` is the next round.
abbrev pub after_poll : Reply (Option TransactionReceipt) → Waited → Waited
after_poll (value (some r)) rest = confirmed r
after_poll (value none) rest = rest
after_poll (fault e) rest = threw e

-- From the round `i` on.
unfoldable pub poll_from : String → ℕ → (ℕ → Poll) → ℕ → ℕ → Waited
poll_from tx_hash deadline polls zero i = cut
poll_from tx_hash deadline polls (suc fuel) i =
    let rest = poll_from tx_hash deadline polls fuel (i + 1) in
    if ltb (polls i).now deadline
    then after_poll (get_receipt tx_hash (polls i).client).reply rest
    else timed_out

-- The timeout is in milliseconds; one round more than it is enough (Waiting).
unfoldable pub wait_for_receipt : String → ℕ → ℕ → (ℕ → Poll) → Waited
wait_for_receipt tx_hash start timeout polls =
    poll_from tx_hash (start + timeout) polls (suc timeout) 0

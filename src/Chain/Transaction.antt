-- ===== src/Chain/Transaction.antt =====
-- chain/transaction.service.ts: `TransactionBuilder`. The wallet's address and signing are given.
pub mod Built
use internship_project_peanu.Prelude.{
  ℕ, Bool, true, false, not, ◌||◌, Option, none, some, List, [], String, if◌then◌else◌,
}
use internship_project_peanu.Prelude.Int.{ℤ, pos, ◌*ℤ◌, ◌/ℤ◌}
use internship_project_peanu.Core.{Address}
use internship_project_peanu.Chain.Retry.{RpcError, Reply, value, fault, Retried}
use internship_project_peanu.Chain.Gas.{
  GasPrice, Priority, medium, get_max_fee, priority_fee, default_buffer,
}
use internship_project_peanu.Chain.Client.{
  ChainClient, TransactionReceipt, Poll, Waited, confirmed, threw, timed_out, cut, get_nonce,
  get_gas_price, estimate_gas, send_transaction, wait_for_receipt,
}

-- `TransactionRequest`; the value is the amount in wei.
pub record TransactionRequest : Type 0 where
  pub to : Address
  pub amount : ℤ
  pub calldata : List ℕ
  pub nonce : Option ℕ
  pub gas_limit : Option ℤ
  pub max_fee_per_gas : Option ℤ
  pub max_priority_fee : Option ℤ
  pub chain_id : ℕ

-- The fields that start with an underscore; the gas buffer is in thousandths.
pub record TransactionBuilder : Type 0 where
  pub to : Option Address
  pub amount : ℤ
  pub calldata : List ℕ
  pub nonce : Option ℕ
  pub gas_limit : Option ℤ
  pub max_fee_per_gas : Option ℤ
  pub max_priority_fee : Option ℤ
  pub estimates_gas : Bool
  pub gas_buffer : ℤ
  pub fetches_gas_price : Bool
  pub gas_priority : Priority

abbrev pub new : TransactionBuilder
new = record {
  to = none;
  amount = pos 0;
  calldata = [];
  nonce = none;
  gas_limit = none;
  max_fee_per_gas = none;
  max_priority_fee = none;
  estimates_gas = false;
  gas_buffer = default_buffer;
  fetches_gas_price = false;
  gas_priority = medium;
}

abbrev pub set_to : Address → TransactionBuilder → TransactionBuilder
set_to address b = record b { to = some address }

abbrev pub set_value : ℤ → TransactionBuilder → TransactionBuilder
set_value amount b = record b { amount = amount }

abbrev pub set_data : List ℕ → TransactionBuilder → TransactionBuilder
set_data calldata b = record b { calldata = calldata }

abbrev pub set_nonce : ℕ → TransactionBuilder → TransactionBuilder
set_nonce nonce b = record b { nonce = some nonce }

abbrev pub set_gas_limit : ℤ → TransactionBuilder → TransactionBuilder
set_gas_limit limit b = record b { gas_limit = some limit }

abbrev pub with_gas_estimate : ℤ → TransactionBuilder → TransactionBuilder
with_gas_estimate buffer b = record b { estimates_gas = true; gas_buffer = buffer }

abbrev pub with_gas_price : Priority → TransactionBuilder → TransactionBuilder
with_gas_price priority b = record b { fetches_gas_price = true; gas_priority = priority }

infixl 10 ◌>>=◌
abbrev pub ◌>>=◌ : {A B : Type 0} → Reply A → (A → Reply B) → Reply B
fault e >>= next = fault e
value a >>= next = next a

-- `condition ? call : Promise.resolve(null)`
abbrev pub when : {A : Type 0} → Bool → Reply A → Reply (Option A)
when true r = r >>= λ a. value (some a)
when false r = value none

abbrev pub nonce_of : Option ℕ → ChainClient → Reply ℕ
nonce_of none c = (get_nonce c).reply
nonce_of (some n) c = value n

-- The estimate replaces a limit that was set.
abbrev pub gas_limit_of : Option ℤ → TransactionBuilder → Option ℤ
gas_limit_of none b = b.gas_limit
gas_limit_of (some estimated) b = some ((estimated *ℤ b.gas_buffer) /ℤ pos 1_000)

abbrev pub max_fee_of : Option GasPrice → TransactionBuilder → Option ℤ
max_fee_of none b = b.max_fee_per_gas
max_fee_of (some g) b = some (get_max_fee b.gas_priority default_buffer g)

abbrev pub max_priority_of : Option GasPrice → TransactionBuilder → Option ℤ
max_priority_of none b = b.max_priority_fee
max_priority_of (some g) b = some (priority_fee b.gas_priority g)

-- When both calls fail, which error is thrown depends on their times; here it is the estimate's.
abbrev pub build_to : Option Address → ChainClient → TransactionBuilder → Reply TransactionRequest
build_to none c b = fault (record { message = "to address is required"; is_chain_error = true })
build_to (some to) c b = nonce_of b.nonce c >>= λ nonce.
    when b.estimates_gas (estimate_gas c).reply >>= λ estimated.
    when b.fetches_gas_price (get_gas_price c).reply >>= λ gas_price. value (record {
      to = to;
      amount = b.amount;
      calldata = b.calldata;
      nonce = some nonce;
      gas_limit = gas_limit_of estimated b;
      max_fee_per_gas = max_fee_of gas_price b;
      max_priority_fee = max_priority_of gas_price b;
      chain_id = c.chain_id;
    })

unfoldable pub build : ChainClient → TransactionBuilder → Reply TransactionRequest
build c b = build_to b.to c b

-- `sign` is the wallet's.
unfoldable pub build_and_sign :
    (TransactionRequest → Reply String) → ChainClient → TransactionBuilder → Reply String
build_and_sign sign c b = build c b >>= sign

unfoldable pub send :
    (TransactionRequest → Reply String) → ChainClient → TransactionBuilder → Reply String
send sign c b = build_and_sign sign c b >>= λ signed. (send_transaction signed c).reply

-- A receipt, an error of the client, a transaction that failed, or one that was not confirmed.
pub data Sent : Type 0 where
  mined : TransactionReceipt → Sent
  errored : RpcError → Sent
  transaction_failed : String → TransactionReceipt → Sent
  not_confirmed : Sent

abbrev pub after_wait : String → Waited → Sent
after_wait tx_hash (confirmed r) = if not r.status then transaction_failed tx_hash r else mined r
after_wait tx_hash (threw e) = errored e
after_wait tx_hash timed_out = not_confirmed
after_wait tx_hash cut = not_confirmed

abbrev pub after_send : ℕ → ℕ → (ℕ → Poll) → Reply String → Sent
after_send start timeout polls (fault e) = errored e
after_send start timeout polls (value tx_hash) =
    after_wait tx_hash (wait_for_receipt tx_hash start timeout polls)

unfoldable pub send_and_wait :
    (TransactionRequest → Reply String)
    → ℕ
    → ℕ
    → (ℕ → Poll)
    → ChainClient
    → TransactionBuilder
    → Sent
send_and_wait sign start timeout polls c b = after_send start timeout polls (send sign c b)

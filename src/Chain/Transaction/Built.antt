-- ===== src/Chain/Transaction/Built.antt =====
-- transaction.service.ts: what a built transaction carries.
use internship_project_peanu.Prelude.{ℕ, ◌≡◌, Bool, true, false, Option, none, some, ◌⊎◌}
use internship_project_peanu.Prelude.Int.{ℤ}
use internship_project_peanu.Chain.Retry.{RpcError, Reply, value, fault}
use internship_project_peanu.Chain.Gas.{GasPrice}
use internship_project_peanu.Chain.Client.{ChainClient, get_gas_price, estimate_gas}
use internship_project_peanu.Chain.Transaction.{
  TransactionRequest, TransactionBuilder, nonce_of, gas_limit_of, max_fee_of, max_priority_of,
}

-- What a call contributes: nothing when it is not asked for, and its value otherwise.
abbrev pub Asked : {A : Type 0} → Bool → Reply A → Option A → Type 0
Asked asked r none = asked ≡ false
Asked asked r (some a) = (asked ≡ true) × (r ≡ value a)

-- A request that the builder made, with the estimate and the gas price it asked for.
pub record IsBuilt (c : ChainClient) (b : TransactionBuilder) (tx : TransactionRequest)
    : Type 0 where
  pub sequence : ℕ
  pub estimated : Option ℤ
  pub gas_price : Option GasPrice
  pub addressed : b.to ≡ some tx.to
  pub numbered : tx.nonce ≡ some sequence
  pub nonce_known : nonce_of b.nonce c ≡ value sequence
  pub amount : tx.amount ≡ b.amount
  pub calldata : tx.calldata ≡ b.calldata
  pub chain : tx.chain_id ≡ c.chain_id
  pub estimate_asked : Asked b.estimates_gas (estimate_gas c).reply estimated
  pub price_asked : Asked b.fetches_gas_price (get_gas_price c).reply gas_price
  pub limit : tx.gas_limit ≡ gas_limit_of estimated b
  pub max_fee : tx.max_fee_per_gas ≡ max_fee_of gas_price b
  pub max_priority : tx.max_priority_fee ≡ max_priority_of gas_price b

-- An error has a cause: no address, or one of the calls.
abbrev pub Failed : ChainClient → TransactionBuilder → RpcError → Type 0
Failed c b e =
    (b.to ≡ none)
    ⊎ (nonce_of b.nonce c ≡ fault e)
    ⊎ ((estimate_gas c).reply ≡ fault e)
    ⊎ ((get_gas_price c).reply ≡ fault e)

abbrev pub Built : ChainClient → TransactionBuilder → Reply TransactionRequest → Type 0
Built c b (fault e) = Failed c b e
Built c b (value tx) = IsBuilt c b tx

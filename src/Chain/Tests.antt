-- ===== src/Chain/Tests.antt =====
-- The theorems on the chain's client, on two endpoints of which the first is down.
use internship_project_peanu.Prelude.{
  ℕ, ◌+◌, ◌*◌, ◌==◌, ◌≡◌, refl, Bool, true, false, none, some, [], ◌∷◌, if◌then◌else◌, arith,
}
use internship_project_peanu.Prelude.Int.{pos}
use internship_project_peanu.Core.{to_lower}
use internship_project_peanu.Chain.Retry.{
  RpcError, Reply, value, fault, is_retryable, with_retry, attempts, try_clients,
}
use internship_project_peanu.Chain.Retry.Schedule.{schedule, one_pass, with_retry-one_pass}
use internship_project_peanu.Chain.Gas.{GasPrice, medium, default_buffer}
use internship_project_peanu.Chain.Client.{
  ChainClient, Node, TransactionReceipt, found, not_found, Poll, wait_for_receipt,
}
use internship_project_peanu.Chain.Client.Waiting.{Ends, wait_for_receipt-Ends}
use internship_project_peanu.Chain.Transaction
use internship_project_peanu.Chain.Transaction.Built.{Built}

abbrev down : RpcError
down = record { message = "HTTP 502 Bad Gateway"; is_chain_error = false }

abbrev reverted : RpcError
reverted = record { message = "execution reverted"; is_chain_error = false }

down_test : is_retryable down ≡ true
unfolding is_retryable to_lower
down_test = refl

reverted_test : is_retryable reverted ≡ false
unfolding is_retryable to_lower
reverted_test = refl

-- The endpoint 0 is down; the endpoint 1 answers from the second attempt on.
abbrev answers : ℕ → ℕ → Reply ℕ
answers attempt endpoint =
    if endpoint == 0 then fault down else if attempt == 0 then fault down else value 7

retried_test :
    let r = with_retry 3 (0 ∷ 1 ∷ []) "getNonce" answers in
    (r.calls ≡ (0, 0) ∷ (0, 1) ∷ (1, 0) ∷ (1, 1) ∷ [])
    × (r.sleeps ≡ 1_000 ∷ [])
    × (r.reply ≡ value 7)
unfolding with_retry attempts try_clients is_retryable to_lower
retried_test = (refl, refl, refl)

with_retry-one_pass_example :
    let r = with_retry 3 (0 ∷ 1 ∷ []) "getNonce" answers in
    (r.calls, r.reply)
    ≡ one_pass answers
        (schedule (0 ∷ 1 ∷ []) 3 0)
        (record { message = "getNonce"; is_chain_error = false })
with_retry-one_pass_example = with_retry-one_pass answers 3 (0 ∷ 1 ∷ []) "getNonce"

abbrev fees : GasPrice
fees = record {
  base_fee = pos 10_000;
  priority_fee_low = pos 1;
  priority_fee_medium = pos 2;
  priority_fee_high = pos 3;
}

abbrev receipt : TransactionReceipt
receipt = record {
  tx_hash = "0x1";
  block_number = 5;
  status = true;
  gas_used = pos 120_000;
  effective_gas_price = pos 10_000;
}

-- An endpoint that knows the receipt or does not.
abbrev node : Bool → Node
node mined = record {
  get_balance = λ n. value (pos 1_000);
  get_transaction_count = λ n. value 7;
  get_fees = λ n. value (some (pos 10_000), none);
  estimate_gas = λ n. value (pos 100_000);
  send_raw_transaction = λ signed n. value "0x1";
  get_transaction_receipt = λ tx_hash n. if mined then found receipt else not_found;
  call = λ n. value none;
}

abbrev client : Bool → ChainClient
client mined = record { nodes = node mined ∷ []; max_retries = 3; chain_id = 1 }

-- One poll per second, of which the third finds the receipt.
abbrev polls : ℕ → Poll
polls i = record { now = 1_000 * i + 10; client = client (i == 2) }

wait_for_receipt-Ends_example :
    Ends "0x1" (0 + 120_000) polls (wait_for_receipt "0x1" 0 120_000 polls)
wait_for_receipt-Ends_example =
    wait_for_receipt-Ends "0x1" 0 120_000 polls (λ j. omega arith) (omega arith)

abbrev builder : Transaction.TransactionBuilder
builder = Transaction.with_gas_price medium (
    Transaction.with_gas_estimate default_buffer (
      Transaction.set_value (pos 5)
        (Transaction.set_to (record { value = "0xab" }) Transaction.new)))

-- ===== src/Exchange/Client/Answers.antt =====
-- exchange.client.ts: what the calls of `ExchangeClient` make of ccxt's answers.
use internship_project_peanu.Prelude.{
  ℕ, ◌&&◌, Option, none, some, List, [], ◌∷◌, map, String, if◌then◌else◌,
}
use internship_project_peanu.Prelude.Int.{ℤ, pos, ◌+ℤ◌, ◌/ℤ◌, eqb_ℤ}
use internship_project_peanu.Prelude.Double.{Double}
use internship_project_peanu.Prelude.Dict.{Dict}
use internship_project_peanu.Core.{price_scale}
use internship_project_peanu.Exchange.OrderBook.{Level, OrderBook}
use internship_project_peanu.Exchange.Client.{
  Reply, Outcome, returned, failed, order, ExchangeClient, Times, weighted, made,
}

-- Both sides' best levels; an empty side throws.
unfoldable pub book_of : List Level → List Level → Outcome OrderBook
book_of [] asks = failed order
book_of (bid ∷ bids) [] = failed order
book_of (bid ∷ bids) (ask ∷ asks) = returned (record {
  bids = bid ∷ bids;
  asks = ask ∷ asks;
  best_bid = bid;
  best_ask = ask;
  mid_price = (bid.0 +ℤ ask.0) /ℤ pos 2;
})

pub record RawBalance (D : Type 0) : Type 0 where
  pub total : Option D
  pub free : Option D
  pub used : Option D

pub record AssetBalance : Type 0 where
  pub free : ℤ
  pub locked : ℤ
  pub total : ℤ

pub record RawOrder (D : Type 0) : Type 0 where
  pub id : String
  pub amount : Option D
  pub filled : Option D
  pub average : Option D
  pub price : Option D
  pub fee_cost : Option D
  pub fee_currency : Option String
  pub status : Option String

-- Without the fields that only repeat the request.
pub record OrderResult : Type 0 where
  pub id : String
  pub amount_requested : ℤ
  pub amount_filled : ℤ
  pub avg_fill_price : ℤ
  pub fee : ℤ
  pub fee_asset : String
  pub status : String

pub record TradingFees : Type 0 where
  pub maker : ℤ
  pub taker : ℤ

-- `a ?? b`
abbrev pub or_else {ℓ} : {A : Type ℓ} → Option A → Option A → Option A
or_else none b = b
or_else (some a) b = some a

abbrev pub or_text : Option String → String → String
or_text none text = text
or_text (some s) text = s

module _ {D : Type 0} (f : Double D) where
  open f use {of_ℤ, mul, quot, le, round}

  unfoldable pub to_scaled : Option D → ℤ
  to_scaled none = pos 0
  to_scaled (some n) =
      if le n (of_ℤ (pos 0)) && le (of_ℤ (pos 0)) n then pos 0 else round (mul n (of_ℤ price_scale))

  abbrev pub scaled_level : D × D → Level
  scaled_level (price, qty) = (to_scaled (some price), to_scaled (some qty))

  unfoldable pub fetch_order_book :
      Times
      → Reply (List (D × D) × List (D × D))
      → ExchangeClient
      → Outcome OrderBook × ExchangeClient
  fetch_order_book t reply c =
      made (λ raw. book_of (map scaled_level raw.0) (map scaled_level raw.1))
        (weighted c.rate_limit.weights.order_book t reply c)

  -- Keys whose value is no balance have none.
  unfoldable pub balances_of : List (String × Option (RawBalance D)) → Dict AssetBalance
  balances_of [] = []
  balances_of ((asset, none) ∷ rest) = balances_of rest
  balances_of ((asset, some bal) ∷ rest) =
      let later = balances_of rest in
      let total = to_scaled bal.total in
      if eqb_ℤ total (pos 0)
      then later
      else (asset, record { free = to_scaled bal.free; locked = to_scaled bal.used; total = total })
        ∷ later

  unfoldable pub fetch_balance :
      Times
      → Reply (List (String × Option (RawBalance D)))
      → ExchangeClient
      → Outcome (Dict AssetBalance) × ExchangeClient
  fetch_balance t reply c =
      made (λ raw. returned (balances_of raw)) (weighted c.rate_limit.weights.balance t reply c)

  unfoldable pub normalize_order : RawOrder D → OrderResult
  normalize_order raw = record {
    id = raw.id;
    amount_requested = to_scaled raw.amount;
    amount_filled = to_scaled raw.filled;
    avg_fill_price = to_scaled (or_else raw.average raw.price);
    fee = to_scaled raw.fee_cost;
    fee_asset = or_text raw.fee_currency "";
    status = or_text raw.status "unknown";
  }

  -- `createLimitIocOrder`, `createMarketOrder`, `cancelOrder` and `fetchOrderStatus`, which differ in
  -- what they weigh and in what they ask ccxt.
  abbrev pub order_call :
      ℕ → Times → Reply (RawOrder D) → ExchangeClient → Outcome OrderResult × ExchangeClient
  order_call weight t reply c =
      made (λ raw. returned (normalize_order raw)) (weighted weight t reply c)

  abbrev pub create_order :
      Times → Reply (RawOrder D) → ExchangeClient → Outcome OrderResult × ExchangeClient
  create_order t reply c = order_call c.rate_limit.weights.create_order t reply c

  abbrev pub cancel_order :
      Times → Reply (RawOrder D) → ExchangeClient → Outcome OrderResult × ExchangeClient
  cancel_order t reply c = order_call c.rate_limit.weights.cancel_order t reply c

  abbrev pub fetch_order_status :
      Times → Reply (RawOrder D) → ExchangeClient → Outcome OrderResult × ExchangeClient
  fetch_order_status t reply c = order_call c.rate_limit.weights.fetch_order t reply c

  -- `?? 0.001`
  abbrev pub or_default_fee : Option D → ℤ
  or_default_fee none = to_scaled (some (quot (of_ℤ (pos 1)) (of_ℤ (pos 1_000))))
  or_default_fee (some fee) = to_scaled (some fee)

  unfoldable pub get_trading_fees :
      Times → Reply (Option D × Option D) → ExchangeClient → Outcome TradingFees × ExchangeClient
  get_trading_fees t reply c =
      made (λ raw. returned (record { maker = or_default_fee raw.0; taker = or_default_fee raw.1 }))
        (weighted c.rate_limit.weights.trading_fees t reply c)

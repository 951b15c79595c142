-- ===== src/Executor/Engine/Booking/Totals.antt =====
-- engine.service.ts: what the booking of both legs does to the balances of the two venues together.
use text.Mathlib.TextPositions.{eq_refl}
use internship_project_peanu.Prelude.{
  ◌≡◌, ◌≢◌, refl, Bool, true, false, none, some, String, str_eq, if◌then◌else◌, ap, ◌∙◌, sym,
}
use internship_project_peanu.Prelude.Int.{
  ℤ, pos, ◌+ℤ◌, neg, +ℤ_zero, zero_+ℤ, +ℤ_swap, +ℤ_neg, +ℤ_comm,
}
use internship_project_peanu.Prelude.Dict
use internship_project_peanu.Prelude.Dict.{Dict, not_same}
use internship_project_peanu.Inventory.Tracker.{
  InventoryTracker, Balance, Venue, binance, wallet, name, Side, buy, sell, Trade, record_trade,
  get_available, signed, signed_quote,
}
use internship_project_peanu.Inventory.Tracker.Trades.{
  trade_delta, traded, record_trade-traded, get_available-traded,
}
use internship_project_peanu.Executor.Engine.Context.{ExecutionContext, split_pair}
use internship_project_peanu.Executor.Engine.Legs.{opposite, or_else}
use internship_project_peanu.Executor.Engine.Unwind.{is_dex}
use internship_project_peanu.Executor.Engine.Booking.{
  leg_trade, then_record, second_booked, leg1_side, leg1_trade, leg2_trade, record_trades,
}

-- An asset's available amount at both venues.
abbrev pub total_of : String → InventoryTracker → ℤ
total_of a t = get_available binance a t +ℤ get_available wallet a t

-- What both trades move.
abbrev moved : Trade → Trade → String → ℤ
moved x y a = trade_delta x a +ℤ trade_delta y a

-- A tracker that knows both venues.
pub record Known (t : InventoryTracker) : Type 0 where
  pub at_binance : Dict Balance
  pub at_wallet : Dict Balance
  pub binance_known : Dict.get (name binance) t.balances ≡ some at_binance
  pub wallet_known : Dict.get (name wallet) t.balances ≡ some at_wallet

other_known :
    (v w : Venue) (x : Trade) (m n : Dict Balance) (t : InventoryTracker)
    → str_eq (name v) (name w) ≡ false
    → Dict.get (name w) t.balances ≡ some n
    → Dict.get (name w) (traded v x m t).balances ≡ some n
other_known v w x m n t differ known = Dict.get-put (name v) (name w) _ t.balances ∙ rw differ known

two_trades :
    (v w : Venue) (x y : Trade) (m n : Dict Balance) (t : InventoryTracker)
    → str_eq (name v) (name w) ≡ false
    → Dict.get (name v) t.balances ≡ some m
    → Dict.get (name w) t.balances ≡ some n
    → then_record w y t (record_trade v x t) ≡ (traded w y n (traded v x m t), none)
two_trades v w x y m n t differ known_v known_w =
    ap (then_record w y t) (record_trade-traded v x t m known_v)
    ∙ ap (second_booked (traded v x m t))
        (record_trade-traded w y (traded v x m t) n (other_known v w x m n t differ known_w))

binance_wallet :
    (x y : Trade) (a : String) (t : InventoryTracker) (k : Known t)
    → total_of a (traded wallet y k.at_wallet (traded binance x k.at_binance t))
      ≡ total_of a t +ℤ moved x y a
binance_wallet x y a t k =
    let first : InventoryTracker = traded binance x k.at_binance t in
    let second_known =
      other_known binance wallet x k.at_binance k.at_wallet t refl k.wallet_known in
    let at_binance : get_available binance a (traded wallet y k.at_wallet first)
        ≡ get_available binance a t +ℤ trade_delta x a =
      get_available-traded wallet y first k.at_wallet binance a second_known
      ∙ +ℤ_zero (get_available binance a first)
      ∙ get_available-traded binance x t k.at_binance binance a k.binance_known in
    let at_wallet : get_available wallet a (traded wallet y k.at_wallet first)
        ≡ get_available wallet a t +ℤ trade_delta y a =
      get_available-traded wallet y first k.at_wallet wallet a second_known
      ∙ ap (λ n. n +ℤ trade_delta y a)
          (get_available-traded binance x t k.at_binance wallet a k.binance_known
            ∙ +ℤ_zero (get_available wallet a t)) in
    ap (λ n. n +ℤ get_available wallet a (traded wallet y k.at_wallet first)) at_binance
    ∙ ap (λ n. get_available binance a t +ℤ trade_delta x a +ℤ n) at_wallet
    ∙ +ℤ_swap (get_available binance a t) (get_available wallet a t) (trade_delta x a)
        (trade_delta y a)

wallet_binance :
    (x y : Trade) (a : String) (t : InventoryTracker) (k : Known t)
    → total_of a (traded binance y k.at_binance (traded wallet x k.at_wallet t))
      ≡ total_of a t +ℤ moved x y a
wallet_binance x y a t k =
    let first : InventoryTracker = traded wallet x k.at_wallet t in
    let second_known =
      other_known wallet binance x k.at_wallet k.at_binance t refl k.binance_known in
    let at_wallet : get_available wallet a (traded binance y k.at_binance first)
        ≡ get_available wallet a t +ℤ trade_delta x a =
      get_available-traded binance y first k.at_binance wallet a second_known
      ∙ +ℤ_zero (get_available wallet a first)
      ∙ get_available-traded wallet x t k.at_wallet wallet a k.wallet_known in
    let at_binance : get_available binance a (traded binance y k.at_binance first)
        ≡ get_available binance a t +ℤ trade_delta y a =
      get_available-traded binance y first k.at_binance binance a second_known
      ∙ ap (λ n. n +ℤ trade_delta y a)
          (get_available-traded wallet x t k.at_wallet binance a k.wallet_known
            ∙ +ℤ_zero (get_available binance a t)) in
    ap (λ n. n +ℤ get_available wallet a (traded binance y k.at_binance first)) at_binance
    ∙ ap (λ n. get_available binance a t +ℤ trade_delta y a +ℤ n) at_wallet
    ∙ +ℤ_swap (get_available binance a t) (get_available wallet a t) (trade_delta y a)
        (trade_delta x a)
    ∙ ap (λ n. total_of a t +ℤ n) (+ℤ_comm (trade_delta y a) (trade_delta x a))

if_venues :
    (on_dex : Bool) (x y : Trade) (t : InventoryTracker)
    → Known t
    → (t' : InventoryTracker) × (then_record
          (if on_dex then binance else wallet)
          y
          t
          (record_trade (if on_dex then wallet else binance) x t)
        ≡ (t', none))
      × ((a : String) → total_of a t' ≡ total_of a t +ℤ moved x y a)
if_venues true x y t k = (
  _,
  two_trades wallet binance x y k.at_wallet k.at_binance t refl k.wallet_known k.binance_known,
  λ a. wallet_binance x y a t k,
)
if_venues false x y t k = (
  _,
  two_trades binance wallet x y k.at_binance k.at_wallet t refl k.binance_known k.wallet_known,
  λ a. binance_wallet x y a t k,
)

base_delta :
    (p : String × String) (s : Side) (size price h : ℤ)
    → p.1 ≢ p.0
    → trade_delta (leg_trade p s size price h) p.0 ≡ signed s size
unfolding leg_trade
base_delta (base, quote) s size price h differ =
    rw (eq_refl base, not_same quote base differ)
      (+ℤ_zero (signed s size +ℤ pos 0) ∙ +ℤ_zero (signed s size))

quote_delta :
    (p : String × String) (s : Side) (size price h : ℤ)
    → p.1 ≢ p.0
    → trade_delta (leg_trade p s size price h) p.1
      ≡ signed_quote s (leg_trade p s size price h).quote_amount
        +ℤ neg (leg_trade p s size price h).fee
unfolding leg_trade
quote_delta (base, quote) s size price h differ =
    rw (eq_refl quote, not_same base quote (λ e. differ (sym e)))
      (ap (λ n. n +ℤ neg (leg_trade (base, quote) s size price h).fee) (zero_+ℤ _))

opposite_cancels : (s : Side) (n : ℤ) → signed s n +ℤ signed (opposite s) n ≡ pos 0
opposite_cancels buy n = +ℤ_neg n
opposite_cancels sell n = +ℤ_comm (neg n) n ∙ +ℤ_neg n

module _ {D : Type 0} where
  both_booked :
      (fee_bps : ℤ) (ctx : ExecutionContext D) (t : InventoryTracker)
      → Known t
      → (t' : InventoryTracker) × (record_trades fee_bps ctx t ≡ (t', none))
        × ((a : String)
            → total_of a t'
              ≡ total_of a t +ℤ moved (leg1_trade fee_bps ctx) (leg2_trade fee_bps ctx) a)
  unfolding record_trades
  both_booked fee_bps ctx t k =
      if_venues (is_dex ctx.leg1_venue) (leg1_trade fee_bps ctx) (leg2_trade fee_bps ctx) t k

  -- For a tracker that knows both venues, a pair of two different assets and two legs of the same
  -- size, the booking succeeds; the base asset that the two venues hold together stays the same,
  -- and the quote asset changes by what one leg pays and the other receives, less both fees.
  pub record_trades_totals :
      (fee_bps : ℤ) (ctx : ExecutionContext D) (t : InventoryTracker)
      → Known t
      → (split_pair ctx.signal.pair).1 ≢ (split_pair ctx.signal.pair).0
      → or_else ctx.leg1_fill_size (pos 0) ≡ or_else ctx.leg2_fill_size (pos 0)
      → let x = leg1_trade fee_bps ctx in
        let y = leg2_trade fee_bps ctx in
        let (base, quote) = split_pair ctx.signal.pair in
        (t' : InventoryTracker) × (record_trades fee_bps ctx t ≡ (t', none))
        × (total_of base t' ≡ total_of base t)
        × (total_of quote t'
            ≡ total_of quote t
              +ℤ (signed_quote (leg1_side ctx) x.quote_amount
                  +ℤ neg x.fee
                  +ℤ (signed_quote (opposite (leg1_side ctx)) y.quote_amount +ℤ neg y.fee)))
  record_trades_totals fee_bps ctx t k differ same =
      let (t', booked, totals) = both_booked fee_bps ctx t k in
      let p : String × String = split_pair ctx.signal.pair in
      let s : Side = leg1_side ctx in
      let no_base : moved (leg1_trade fee_bps ctx) (leg2_trade fee_bps ctx) p.0 ≡ pos 0 =
        ap (λ n. n +ℤ trade_delta (leg2_trade fee_bps ctx) p.0) (base_delta p s _ _ _ differ)
        ∙ ap (λ n. signed s (or_else ctx.leg1_fill_size (pos 0)) +ℤ n)
            (base_delta p (opposite s) _ _ _ differ)
        ∙ ap (λ n. signed s (or_else ctx.leg1_fill_size (pos 0)) +ℤ signed (opposite s) n)
            (sym same)
        ∙ opposite_cancels s (or_else ctx.leg1_fill_size (pos 0)) in
      (
        t',
        booked,
        totals p.0 ∙ ap (λ n. total_of p.0 t +ℤ n) no_base ∙ +ℤ_zero (total_of p.0 t),
        totals p.1
            ∙ ap (λ n. total_of p.1 t +ℤ (n +ℤ trade_delta (leg2_trade fee_bps ctx) p.1))
                (quote_delta p s _ _ _ differ)
            ∙ ap
                (λ n.
                  total_of p.1 t
                  +ℤ (signed_quote s (leg1_trade fee_bps ctx).quote_amount
                      +ℤ neg (leg1_trade fee_bps ctx).fee
                      +ℤ n))
                (quote_delta p (opposite s) _ _ _ differ),
      )

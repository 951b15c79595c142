-- ===== src/Strategy/Signal.antt =====
-- strategy/signal.interfaces.ts: the immutable `Signal`. Times are milliseconds since the epoch.
use internship_project_peanu.Prelude.{ℕ, Bool, ◌&&◌, String, ltb}
use internship_project_peanu.Prelude.Int.{ℤ}

pub data Direction : Type 0 where
  buy_cex_sell_dex buy_dex_sell_cex : Direction

abbrev pub is_buy_dex : Direction → Bool
is_buy_dex buy_cex_sell_dex = Bool.false
is_buy_dex buy_dex_sell_cex = Bool.true

-- `spreadBps` and `score` are numbers of the language, of type `D`.
pub record Signal (D : Type 0) : Type 0 where
  pub signal_id : String
  pub pair : String
  pub direction : Direction
  pub cex_price : ℤ
  pub dex_price : ℤ
  pub spread_bps : D
  pub size : ℤ
  pub expected_gross_pnl : ℤ
  pub expected_fees : ℤ
  pub expected_net_pnl : ℤ
  pub score : D
  pub timestamp : ℕ
  pub expiry : ℕ
  pub inventory_ok : Bool
  pub within_limits : Bool

unfoldable pub is_valid : {D : Type 0} → ℕ → Signal D → Bool
is_valid now s = ltb now s.expiry && s.inventory_ok && s.within_limits

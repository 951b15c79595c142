-- ===== src/Integration/Records/Ledger.antt =====
-- arb_bot.utils.ts: the profit that the ledger makes of an entry, against the one that is counted.
use internship_project_peanu.Prelude.{◌≡◌, sym, ap, ◌∙◌, not, if◌then◌else◌}
use internship_project_peanu.Prelude.Int.{ℤ, pos, ◌+ℤ◌, ◌-ℤ◌, ◌*ℤ◌, ◌/ℤ◌, +ℤ_zero, *ℤ_comm}
use internship_project_peanu.Core.{price_scale}
use internship_project_peanu.Inventory.Pnl.{gross_pnl, total_fees, net_pnl}
use internship_project_peanu.Strategy.Signal.{
  Signal, Direction, buy_cex_sell_dex, buy_dex_sell_cex, is_buy_dex,
}
use internship_project_peanu.Strategy.Levels.{gross_of}
use internship_project_peanu.Integration.Records.{signal_to_arb_record}

-- The gross profit of the legs as the signal counts it.
legs_gross :
    (d : Direction) (size cex_price dex_price : ℤ)
    → ((if not (is_buy_dex d) then dex_price else cex_price)
          -ℤ (if not (is_buy_dex d) then cex_price else dex_price))
        *ℤ size
        /ℤ price_scale
      ≡ gross_of d size cex_price dex_price
legs_gross buy_cex_sell_dex size c d = ap (λ n. n /ℤ price_scale) (*ℤ_comm (d -ℤ c) size)
legs_gross buy_dex_sell_cex size c d = ap (λ n. n /ℤ price_scale) (*ℤ_comm (c -ℤ d) size)

only_fee : (gross fee : ℤ) → gross -ℤ (fee +ℤ pos 0 +ℤ pos 0) ≡ gross -ℤ fee
only_fee gross fee = ap (λ n. gross -ℤ n) (+ℤ_zero (fee +ℤ pos 0) ∙ +ℤ_zero fee)

module _ {D : Type 0} where
  -- A dry run enters the ledger with the net profit that is counted for it, if the signal's
  -- figures hang together as the generator's do.
  pub signal_to_arb_record-net_pnl :
      (s : Signal D)
      → s.expected_net_pnl ≡ s.expected_gross_pnl -ℤ s.expected_fees
      → s.expected_gross_pnl ≡ gross_of s.direction s.size s.cex_price s.dex_price
      → net_pnl (signal_to_arb_record s) ≡ s.expected_net_pnl
  unfolding net_pnl gross_pnl total_fees signal_to_arb_record
  signal_to_arb_record-net_pnl s net gross =
      ap (λ g. g -ℤ (s.expected_fees +ℤ pos 0 +ℤ pos 0))
        (legs_gross s.direction s.size s.cex_price s.dex_price ∙ sym gross)
      ∙ only_fee s.expected_gross_pnl s.expected_fees
      ∙ sym net

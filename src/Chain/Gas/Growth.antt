-- ===== src/Chain/Gas/Growth.antt =====
-- gas.calculator.ts: how much growth of the base fee the default buffer covers.
use internship_project_peanu.Prelude.{ℕ, ◌+◌, ◌/◌}

-- The base fee after a block that is full: EIP-1559 adds an eighth.
abbrev pub next_base_fee : ℕ → ℕ
next_base_fee b = b + b / 8

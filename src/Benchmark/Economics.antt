-- ===== src/Benchmark/Economics.antt =====
-- The cost model of packages/benchmark/src/economics.ts, in wei. The amounts are multiples of 512,
-- so the doubles of the source hold them exactly up to 2^62.
use taop_protocol.Prelude.{ℕ, ◌+◌, ◌*◌, ◌^◌, min, max}

abbrev pub wei_per_eth : ℕ
wei_per_eth = 10 ^ 18

abbrev pub base_fee_wei_per_gas : ℕ
base_fee_wei_per_gas = 30_000_000

abbrev pub priority_fee_wei_per_gas : ℕ
priority_fee_wei_per_gas = 10_000_000

abbrev pub l1_data_fee_wei_per_tx : ℕ
l1_data_fee_wei_per_tx = 3_000_000_000_000

-- GAS
abbrev pub gas_attest_completion : ℕ
gas_attest_completion = 212_186

abbrev pub gas_attest_receipt : ℕ
gas_attest_receipt = 152_606

abbrev pub gas_challenge_completion : ℕ
gas_challenge_completion = 105_920

abbrev pub gas_certify_capability : ℕ
gas_certify_capability = 54_229

abbrev pub gas_register_capability_eth : ℕ
gas_register_capability_eth = 305_621

unfoldable pub tx_cost : ℕ → ℕ
tx_cost gas_used =
    gas_used * (base_fee_wei_per_gas + priority_fee_wei_per_gas) + l1_data_fee_wei_per_tx

unfoldable pub clamp : ℕ → ℕ → ℕ → ℕ
clamp value least most = min most (max least value)

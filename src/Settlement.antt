-- ===== src/Settlement.antt =====
-- shared/settlement-capacity.mjs: how the capacity of a buy order is split at settlement.
use ckb_dex.Prelude.{ℕ, ◌+◌, ◌-◌, ◌≤◌, ◌≡◌, ◌↔◌, Option, none, some, arith, ltb, if◌then◌else◌}
use ckb_dex.Prelude.Result.{Result, ok, err, other_error}

-- MAX_SETTLEMENT_FEE, in shannons
abbrev pub max_settlement_fee : ℕ
max_settlement_fee = 10000

pub record SettlementCapacityInput : Type 0 where
  pub buy_capacity : ℕ
  pub price : ℕ
  pub minimum_token_capacity : ℕ
  pub fee : ℕ

pub record SettlementCapacity : Type 0 where
  pub token_capacity : ℕ
  pub fee : ℕ

-- The bigint `buyCapacity - price - fee` lies below the minimum exactly when the buy capacity
-- lies below the sum of the three; past that test the difference is a natural number.
unfoldable pub allocate_settlement_capacity :
    SettlementCapacityInput → Result (Option SettlementCapacity)
allocate_settlement_capacity i =
    if ltb max_settlement_fee i.fee
    then err (other_error "Settlement fee exceeds the contract cap")
    else if ltb i.buy_capacity (i.price + i.fee + i.minimum_token_capacity)
    then ok none
    else ok (some (record { token_capacity = i.buy_capacity - i.price - i.fee; fee = i.fee }))

-- An allocation is returned exactly when the fee is within the cap and the buy capacity covers
-- the price, the fee and the minimum of the token cell; the fee it names is the given one, and
-- price, fee and token capacity then add up to the buy capacity, so that no surplus is lost.
pub allocate_exact :
    (i : SettlementCapacityInput) (a : SettlementCapacity)
    → (allocate_settlement_capacity i ≡ ok (some a)) ↔ (
        (i.fee ≤ max_settlement_fee)
        × (i.minimum_token_capacity ≤ a.token_capacity)
        × (a.fee ≡ i.fee)
        × (i.price + a.token_capacity + a.fee ≡ i.buy_capacity))
unfolding allocate_settlement_capacity
allocate_exact i a = (λ h. ground arith, λ h. ground arith)

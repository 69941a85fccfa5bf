-- ===== src/Exchange/Rents.antt =====
-- tonpayments/db/types.go, `CalcDepositFee`, and `RentCapacityAction` in state.go and process.go: the
-- proposer pays the other party for a deposit that it keeps until a time. `now` is in nanoseconds,
-- `till` in seconds and below 2 ^ 63.
pub mod Price
pub mod Same
use ton_payment_network.Base.{
  ℕ, ◌+◌, ◌-◌, ◌*◌, ◌/◌, ◌^◌, true, Option, none, some, Result, ok, err, ◌>>=◌, ◌>>◌, raise_if,
  or_raise, ltb, leb, ◌==◌, if◌then◌else◌,
}
use ton_payment_network.Base.Int.{ℤ, pos, pos_part, ◌+ℤ◌, ◌-ℤ◌, ltb_ℤ, leb_ℤ}
use ton_payment_network.Base.Dict.{Dict, lookup, insert}
use ton_payment_network.Cells.{load_state}
use ton_payment_network.Balance.{
  Float64, finite, CoinConfig, BalanceInfo, LockedDepositInfo, available,
}
use ton_payment_network.Exchange.{
  Agreed, Channel, ExchangeError, side_a, side_b, failed_action, not_whitelisted, no_rate,
  amount_not_increased, till_decreased, too_long, too_big_to_rent, no_payment, not_enough_funds,
}
use ton_payment_network.Exchange.Conds.{CondEnv}
use ton_payment_network.Exchange.Balances.{Resolver, calc_balance}
use ton_payment_network.Exchange.Swaps.{Wallets, Coins, new_send_action, state_or_new}

abbrev pub second : ℕ
second = 1000000000

-- 30 days in seconds
abbrev pub period : ℕ
period = 2592000

abbrev min_ℕ : ℕ → ℕ → ℕ
min_ℕ a b = if leb a b then a else b

-- `int64(till.Sub(now) / time.Second)` where it is positive; a duration has 63 bits.
abbrev pub seconds_left : ℕ → ℕ → ℕ
seconds_left now till = min_ℕ (till * second - now) (2 ^ 63 - 1) / second

-- A deposit that still runs
unfoldable pub running : ℕ → Option LockedDepositInfo → Option LockedDepositInfo
running now none = none
running now (some ld) = if ltb now (ld.till * second) then some ld else none

abbrev pub old_amount : Option LockedDepositInfo → ℤ
old_amount none = pos 0
old_amount (some ld) = ld.amount

abbrev pub old_used : Option LockedDepositInfo → ℤ
old_used none = pos 0
old_used (some ld) = ld.used

-- What the part that is not used costs for the seconds that are added: coins times seconds. A
-- `time.Duration` is at most 2 ^ 63 - 1 nanoseconds.
abbrev pub extension : Option LockedDepositInfo → ℕ → ℕ
extension none till = 0
extension (some ld) till =
    pos_part (ld.amount -ℤ ld.used) * (min_ℕ ((till - ld.till) * second) (2 ^ 63 - 1) / second)

-- The price for a rate of `m / 2 ^ k` per coin and 30 days, rounded up, and the fixed fee.
abbrev pub divisor : ℕ → ℕ
divisor k = 2 ^ k * period

unfoldable pub price_for : ℕ × ℕ → ℕ → ℕ → ℕ → Option LockedDepositInfo → ℕ → ℕ
price_for (m, k) fixed left till ld delta =
    ((extension ld till + delta * left) * m + (divisor k - 1)) / divisor k + fixed

-- By how much the deposit grows, nothing where it does not.
abbrev pub growth : Option LockedDepositInfo → ℕ → ℕ
growth ld amount = pos_part (pos amount -ℤ old_amount ld)

-- `SetFloat64` of the percentage over 100, which is nil where that is not finite. Rates are not
-- negative.
abbrev rate_from : Float64 → Option (ℕ × ℕ)
rate_from (finite (pos m) k) = some (m, k)
rate_from _ = none

-- What a percentage over 100 is as a float64 is an argument, `hundredth`.
abbrev pub rate_of : (Float64 → Float64) → CoinConfig → Option (ℕ × ℕ)
rate_of hundredth cc =
    rate_from (hundredth cc.virtual_tunnel_config.capacity_fee_percent_per_30_days)

unfoldable pub fee_at :
    (Float64 → Float64) → CoinConfig → ℕ → ℕ → ℕ → Option LockedDepositInfo → Result ExchangeError ℕ
fee_at hundredth cc amount left till ld =
    if left == 0
    then ok 0
    else if growth ld amount == 0
    then ok 0
    else (or_raise (rate_of hundredth cc) no_rate >>= λ rate. ok (
        price_for rate cc.virtual_tunnel_config.capacity_deposit_fee left till ld
          (growth ld amount)))

-- `CalcDepositFee` over the deposits of the side that is to keep the new one
abbrev pub calc_deposit_fee :
    (Float64 → Float64) → CoinConfig → ℕ → ℕ → ℕ → Dict LockedDepositInfo → Result ExchangeError ℕ
calc_deposit_fee hundredth cc amount now till deposits =
    fee_at hundredth cc amount (seconds_left now till) till
      (running now (lookup cc.balance_id deposits))

pub record Rent : Type 0 where
  pub till : ℕ
  pub amount : ℕ
  pub balance_id : ℕ

abbrev pub with_deposit :
    {Cell : Type 0} → ℕ → Rent → Option LockedDepositInfo → Agreed Cell → Agreed Cell
with_deposit id rent ld side = record side {
  locked_deposits =
      insert id (record { amount = pos rent.amount; till = rent.till; used = old_used ld })
        side.locked_deposits;
}

-- "amount should increase only" and "new till should be greater than old one"
abbrev pub check_growth : Rent → Option LockedDepositInfo → Result ExchangeError Unit
check_growth rent none = ok tt
check_growth rent (some ld) = do
  raise_if (leb_ℤ (pos rent.amount) ld.amount) amount_not_increased
  raise_if (ltb rent.till ld.till) till_decreased

-- 366 days in nanoseconds
abbrev pub longest : ℕ
longest = 366 * 86400 * second

-- Their balance and what they may still get cover the fee.
unfoldable pub check_usable : ℕ → ℕ → Dict BalanceInfo → Result ExchangeError Unit
check_usable id fee balances = elim (lookup id balances) [
  | none ↦ err not_enough_funds
  | some b ↦
      raise_if (ltb_ℤ (available (some b) +ℤ b.conditional_pending) (pos fee)) not_enough_funds
]

module _ {Cell : Type 0} (env : CondEnv Cell) where
  -- The fee is added to what the side has sent, where no deposit is used up.
  unfoldable pub add_fee : ℕ → ℕ → Agreed Cell → Result ExchangeError (Agreed Cell)
  add_fee id fee side = do
    state ← state_or_new env (lookup id side.action_states)
    cur ← or_raise (load_state env.virtual_env.action_codec state) failed_action
    new ←
        or_raise
          (env.virtual_env.action_codec.store (record cur { amount = cur.amount +ℤ pos fee }))
          failed_action
    ok (record side { action_states = insert id new side.action_states })

  -- `updateOurStateWithAction`: our side pays, theirs gets the deposit.
  unfoldable pub propose_rent :
      (Float64 → Float64)
      → Wallets
      → Coins
      → ℕ
      → Rent
      → Channel Cell
      → Result ExchangeError (Agreed Cell × Agreed Cell)
  propose_rent hundredth w coins now rent ch = do
    cc ← or_raise (coins rent.balance_id) not_whitelisted
    fee ← calc_deposit_fee hundredth cc rent.amount now rent.till ch.their.agreed.locked_deposits
    act ← new_send_action w cc (side_a ch).address (side_b ch).address
    our ← add_fee act.0 fee ch.our.agreed
    let ld = running now (lookup cc.balance_id ch.their.agreed.locked_deposits)
    check_growth rent ld
    ok (our, with_deposit cc.balance_id rent ld ch.their.agreed)

  -- `ProcessAction`: their side pays, ours gets the deposit.
  unfoldable pub process_rent :
      (Float64 → Float64)
      → Wallets
      → Coins
      → Resolver
      → ℕ
      → Rent
      → Channel Cell
      → Result ExchangeError (Agreed Cell × Agreed Cell)
  process_rent hundredth w coins resolver now rent ch = do
    cc ← or_raise (coins rent.balance_id) not_whitelisted
    act ← new_send_action w cc (side_a ch).address (side_b ch).address
    let ld = running now (lookup cc.balance_id ch.our.agreed.locked_deposits)
    raise_if (ltb longest (rent.till * second - now)) too_long
    raise_if (growth ld rent.amount == 0) amount_not_increased
    raise_if (ltb cc.virtual_tunnel_config.max_capacity_to_rent_per_tx (growth ld rent.amount))
        too_big_to_rent
    fee ← calc_deposit_fee hundredth cc rent.amount now rent.till ch.our.agreed.locked_deposits
    raise_if (fee == 0) no_payment
    balances ← calc_balance env resolver ch true
    check_usable cc.balance_id fee balances
    their ← add_fee act.0 fee ch.their.agreed
    ok (with_deposit cc.balance_id rent ld ch.our.agreed, their)

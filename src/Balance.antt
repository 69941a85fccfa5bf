-- ===== src/Balance.antt =====
-- pkg/payments/types.go and actions.go: coin configurations, balances and rented deposits.
-- Balance ids and addresses are byte strings that are only compared: the number that a string of
-- 32 bytes spells. `big.Int` amounts are integers; amounts of type `tlb.Coins` are naturals.
pub mod Laws
use ton_payment_network.Base.{
  ℕ, ◌+◌, ◌*◌, ◌/◌, ◌%◌, ◌^◌, Bool, ◌||◌, Option, none, some, List, [], ◌∷◌, Result, ok, err,
  or_raise, leb, ltb, if◌then◌else◌,
}
use ton_payment_network.Base.Int.{ℤ, pos, ◌+ℤ◌, ◌-ℤ◌, ltb_ℤ, leb_ℤ}
use ton_payment_network.Base.Dict.{Dict, lookup}

-- A float64 of a configuration file: the finite ones are a dyadic fraction `m / 2 ^ k`.
pub data Float64 : Type 0 where
  nan : Float64
  pos_inf : Float64
  neg_inf : Float64
  finite : ℤ → ℕ → Float64

pub record VirtualConfig : Type 0 where
  pub max_capacity_to_rent_per_tx : ℕ
  pub capacity_deposit_fee : ℕ
  pub capacity_fee_percent_per_30_days : Float64
  pub proxy_max_capacity : ℕ
  pub proxy_min_fee : ℕ
  pub proxy_fee_percent : Float64
  pub derivative_fee_percent : Float64
  pub allow_tunneling : Bool

pub record CoinConfig : Type 0 where
  pub balance_id : ℕ
  pub fee_per_withdraw_propose : ℕ
  pub virtual_tunnel_config : VirtualConfig

pub record BalanceInfo : Type 0 where
  pub onchain : ℤ
  pub action : ℤ
  pub on_hold : ℤ
  pub conditional_locked : ℤ
  pub conditional_pending : ℤ
  pub coin_config : CoinConfig

abbrev pub new_balance_info : CoinConfig → BalanceInfo
new_balance_info cc = record {
  onchain = pos 0;
  action = pos 0;
  on_hold = pos 0;
  conditional_locked = pos 0;
  conditional_pending = pos 0;
  coin_config = cc;
}

-- `BalanceInfo.Available`, with the nil receiver.
unfoldable pub available : Option BalanceInfo → ℤ
available none = pos 0
available (some b) =
    let amt = b.onchain +ℤ b.action in
    let held = if ltb_ℤ (pos 0) b.on_hold then amt -ℤ b.on_hold else amt in
    if ltb_ℤ (pos 0) b.conditional_locked then held -ℤ b.conditional_locked else held

abbrev pub ton_balance_id : ℕ
ton_balance_id = 0

abbrev pub jetton_balance_id : ℕ → ℕ
jetton_balance_id root = root

-- Four bytes at offset 24 of 32.
abbrev pub ec_balance_id : ℕ → ℕ
ec_balance_id id = id % 2 ^ 32 * 2 ^ 32

pub record LockedDepositInfo : Type 0 where
  pub amount : ℤ
  pub till : ℕ
  pub used : ℤ

-- `LockedDepositInfo.Available` at the time `now`, with the nil receiver.
abbrev pub deposit_available : ℕ → Option LockedDepositInfo → ℤ
deposit_available now none = pos 0
deposit_available now (some ld) =
    if ltb ld.till now || leb_ℤ ld.amount ld.used then pos 0 else ld.amount -ℤ ld.used

-- "mark part of the rented deposit as used", capped at the deposit.
unfoldable pub mark_used : ℤ → LockedDepositInfo → LockedDepositInfo
mark_used amount lk =
    let used = lk.used +ℤ amount in
    record lk { used = if ltb_ℤ lk.amount used then lk.amount else used }

pub data BalanceError : Type 0 where
  unexpected_balances_num missing_balance_info : BalanceError

-- `ResolveActionBalance` of an action whose affected coins are `ccs`.
unfoldable pub resolve_action_balance :
    Dict BalanceInfo → List CoinConfig → Result BalanceError BalanceInfo
resolve_action_balance balances (cc ∷ []) =
    or_raise (lookup cc.balance_id balances) missing_balance_info
resolve_action_balance balances _ = err unexpected_balances_num

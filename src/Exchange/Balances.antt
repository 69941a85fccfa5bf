-- ===== src/Exchange/Balances.antt =====
-- tonpayments/db/types.go: `Channel.CalcBalance`, the balances of one party, by coin, over the actions
-- and conditionals of both. Dictionaries are gone through in their order.
pub mod Kept
pub mod Conserve
use ton_payment_network.Base.{
  ℕ, Bool, true, false, Option, List, [], ◌∷◌, Result, ok, ◌>>=◌, or_raise, if◌then◌else◌,
}
use ton_payment_network.Base.Int.{ℤ, pos, ◌+ℤ◌}
use ton_payment_network.Base.Dict.{Dict, lookup, insert}
use ton_payment_network.Balance.{CoinConfig, BalanceInfo, new_balance_info}
use ton_payment_network.Actions.{SendAction, PendingMessageInfo}
use ton_payment_network.Actions as Actions
use ton_payment_network.Conditionals.Virtual.Ops as VirtualOps
use ton_payment_network.Conditionals.Resolvable.Defs as ResolvableDefs
use ton_payment_network.Exchange.{
  Side, Channel, ExchangeError, unknown_action, nil_balance, failed_balance,
}
use ton_payment_network.Exchange.Conds.{
  Conditional, virtual, resolvable, CondEnv, Moment, or_fail, prices_of, code_to_conditional,
}

-- The `FullResolver`: what the node resolves, the coins that it knows, and the send actions by their
-- id, the hash of their code, with their coin.
pub record Resolver : Type 0 where
  pub moment : Moment
  pub known_balance_types : List CoinConfig
  pub send_actions : ℕ → Option (SendAction × CoinConfig)

unfoldable pub start_balances : List CoinConfig → Dict BalanceInfo → Dict BalanceInfo
start_balances [] balances = balances
start_balances (cc ∷ ccs) balances =
    start_balances ccs (insert cc.balance_id (new_balance_info cc) balances)

-- A balance that is not in the map is nil, which writing to it panics on: `nil_balance`.
unfoldable pub put_onchain : Dict ℤ → Dict BalanceInfo → Result ExchangeError (Dict BalanceInfo)
put_onchain [] balances = ok balances
put_onchain ((id, amount) ∷ rest) balances = do
  b ← or_raise (lookup id balances) nil_balance
  put_onchain rest (insert id (record b { onchain = amount }) balances)

unfoldable pub hold_amounts : Dict ℤ → Dict BalanceInfo → Result ExchangeError (Dict BalanceInfo)
hold_amounts [] balances = ok balances
hold_amounts ((id, amount) ∷ rest) balances = do
  b ← or_raise (lookup id balances) nil_balance
  hold_amounts rest (insert id (record b { on_hold = b.on_hold +ℤ amount }) balances)

unfoldable pub hold_transfers :
    Dict PendingMessageInfo → Dict BalanceInfo → Result ExchangeError (Dict BalanceInfo)
hold_transfers [] balances = ok balances
hold_transfers ((id, transfer) ∷ rest) balances = do
  held ← hold_amounts transfer.amounts balances
  hold_transfers rest held

module _ {Cell : Type 0} (env : CondEnv Cell) (resolver : Resolver) where
  unfoldable pub emulate_actions :
      Bool → Dict Cell → Dict BalanceInfo → Result ExchangeError (Dict BalanceInfo)
  emulate_actions from_us [] balances = ok balances
  emulate_actions from_us ((id, state) ∷ rest) balances = do
    act ← or_raise (resolver.send_actions id) unknown_action
    next ←
        or_fail
          (Actions.emulate_balance env.virtual_env.action_codec act.0 act.1 state balances from_us)
          failed_balance
    emulate_actions from_us rest next

  -- `EmulateBalance`
  unfoldable pub emulate_conditional :
      Bool → Conditional → Dict BalanceInfo → Result ExchangeError (Dict BalanceInfo)
  emulate_conditional from_us (virtual c) balances =
      or_fail (VirtualOps.emulate_balance c balances from_us) failed_balance
  emulate_conditional from_us (resolvable c) balances =
      or_fail
        (ResolvableDefs.emulate_balance c (prices_of resolver.moment c) (pos resolver.moment.now)
          balances from_us)
        failed_balance

  unfoldable pub emulate_conditionals :
      Bool → Dict Cell → Dict BalanceInfo → Result ExchangeError (Dict BalanceInfo)
  emulate_conditionals from_us [] balances = ok balances
  emulate_conditionals from_us ((id, cell) ∷ rest) balances = do
    c ← code_to_conditional env resolver.moment cell
    next ← emulate_conditional from_us c balances
    emulate_conditionals from_us rest next

  -- The balances of the party `s1`, where `s2` is the other one.
  unfoldable pub balances_of : Side Cell → Side Cell → Result ExchangeError (Dict BalanceInfo)
  balances_of s1 s2 = do
    let start = start_balances resolver.known_balance_types []
    onchain ← if s1.active_onchain then put_onchain s1.onchain_balances start else ok start
    held ← hold_transfers s1.pending_onchain_transfers onchain
    sent ← emulate_actions true s1.agreed.action_states held
    moved ← emulate_actions false s2.agreed.action_states sent
    promised ← emulate_conditionals true s1.agreed.conditionals moved
    emulate_conditionals false s2.agreed.conditionals promised

  -- `CalcBalance`
  abbrev pub calc_balance : Channel Cell → Bool → Result ExchangeError (Dict BalanceInfo)
  calc_balance ch is_their =
      if is_their then balances_of ch.their ch.our else balances_of ch.our ch.their

-- ===== src/Exchange/Swaps.antt =====
-- tonpayments/state.go and process.go: `SwapAction`, by which the proposer pays in one coin and gets
-- another one, and `NewSendActionFromBalanceID` of pkg/payments/actions/send.go.
pub mod Same
use ton_payment_network.Base.{
  ℕ, ◌/◌, ◌%◌, ◌^◌, Bool, true, false, not, Option, none, some, Result, ok, err, ◌>>=◌, ◌>>◌,
  raise_if, or_raise, ◌==◌, if◌then◌else◌,
}
use ton_payment_network.Base.Int.{pos, ltb_ℤ}
use ton_payment_network.Base.Dict.{Dict, lookup, insert}
use ton_payment_network.Balance.{CoinConfig, BalanceInfo, available, ton_balance_id}
use ton_payment_network.Actions.{
  SendAction, ton_insured, jetton_insured, ec_insured, ton_vault, jetton_vault, ec_vault,
  send_add_coins, empty_send_state,
}
use ton_payment_network.Exchange.{
  Agreed, Channel, ExchangeError, side_a, side_b, no_state, not_whitelisted, failed_action,
  not_enough_funds, swaps_disabled, swap_refused,
}
use ton_payment_network.Exchange.Conds.{CondEnv, or_fail}
use ton_payment_network.Exchange.Signed.{with_agreed}
use ton_payment_network.Exchange.Balances.{Resolver, calc_balance}

-- What the code of a send action is made from: whether a vault stands for a coin's payments between
-- two addresses (`VaultResolver`, which may fail), the root of a coin with a jetton client, whether
-- its wallets are found, and the hash of an action's code.
pub record Wallets : Type 0 where
  pub vaults : CoinConfig → ℕ → ℕ → Option Bool
  pub jetton_root : CoinConfig → Option ℕ
  pub has_wallets : CoinConfig → ℕ → ℕ → Bool
  pub code_hash : SendAction → CoinConfig → ℕ → ℕ → ℕ

-- `GetECFromBalanceID`: four bytes at offset 24 of 32.
abbrev pub ec_of_balance_id : ℕ → ℕ
ec_of_balance_id id = id / 2 ^ 32 % 2 ^ 32

abbrev jetton_action : Bool → ℕ → SendAction
jetton_action vault root = if vault then jetton_vault root else jetton_insured root

-- The kind of action, where it is known whether there is a vault.
unfoldable pub action_kind : Wallets → CoinConfig → ℕ → ℕ → Bool → Result ExchangeError SendAction
action_kind w cc a b vault =
    if cc.balance_id == ton_balance_id
    then ok (if vault then ton_vault else ton_insured)
    else elim (w.jetton_root cc) [
      | some root ↦
          (raise_if (not (w.has_wallets cc a b)) failed_action >> ok (jetton_action vault root))
      | none ↦ ok (
          if vault
          then ec_vault (ec_of_balance_id cc.balance_id)
          else ec_insured (ec_of_balance_id cc.balance_id))
    ]

-- `NewSendActionFromBalanceID`: the action and its id.
unfoldable pub new_send_action :
    Wallets → CoinConfig → ℕ → ℕ → Result ExchangeError (ℕ × SendAction)
new_send_action w cc a b = do
  vault ← or_raise (w.vaults cc a b) failed_action
  kind ← action_kind w cc a b vault
  ok (w.code_hash kind cc a b, kind)

-- `tmpFullResolver`: actions that may be new are known besides the stored ones.
abbrev pub with_send_action : ℕ → SendAction → CoinConfig → Resolver → Resolver
with_send_action id kind cc r = record r {
  send_actions = λ j. elim (r.send_actions j) [
    | some known ↦ some known
    | none ↦ if j == id then some (kind, cc) else none
  ];
}

-- "not enough funds": a balance that is missing or negative.
unfoldable pub check_funds : ℕ → Dict BalanceInfo → Result ExchangeError Unit
check_funds id balances = elim (lookup id balances) [
  | none ↦ err not_enough_funds
  | some b ↦ raise_if (ltb_ℤ (available (some b)) (pos 0)) not_enough_funds
]

-- The swap as it is proposed, and the two coins that it names.
pub record Swap : Type 0 where
  pub from_balance_id : ℕ
  pub to_balance_id : ℕ
  pub from_amount : ℕ
  pub to_amount : ℕ

-- `s.knownBalanceTypes`, those that are enabled (`ResolveCoinConfig`).
abbrev pub Coins : Type 0
Coins = ℕ → Option CoinConfig

module _ {Cell : Type 0} (env : CondEnv Cell) where
  -- The state of an action, which may be new.
  abbrev pub state_or_new : Option Cell → Result ExchangeError Cell
  state_or_new (some known) = ok known
  state_or_new none = or_raise (empty_send_state env.virtual_env.action_codec) no_state

  -- Coins are added to an action of a side.
  unfoldable pub put_coins : ℕ → CoinConfig → ℕ → Agreed Cell → Result ExchangeError (Agreed Cell)
  put_coins id cc amount side = do
    state ← state_or_new (lookup id side.action_states)
    r ←
        or_fail
          (send_add_coins env.virtual_env.action_codec cc state (pos amount) side.locked_deposits)
          failed_action
    ok (record side { action_states = insert id r.0 side.action_states; locked_deposits = r.1 })

  -- The checks of both handlers on the copy with the coins added: of the other party's balance in
  -- the first coin, and of our own in the second one.
  unfoldable pub check_balances : Resolver → Channel Cell → ℕ → ℕ → Result ExchangeError Unit
  check_balances resolver ch first second = do
    theirs ← calc_balance env resolver ch true
    check_funds first theirs
    ours ← calc_balance env resolver ch false
    check_funds second ours

  -- `updateOurStateWithAction` for a swap: our and their side with the coins added.
  unfoldable pub propose_swap :
      Wallets
      → Coins
      → Resolver
      → Swap
      → Channel Cell
      → Result ExchangeError (Agreed Cell × Agreed Cell)
  propose_swap w coins resolver swap ch = do
    from_cc ← or_raise (coins swap.from_balance_id) not_whitelisted
    to_cc ← or_raise (coins swap.to_balance_id) not_whitelisted
    from_act ← new_send_action w from_cc (side_a ch).address (side_b ch).address
    to_act ← new_send_action w to_cc (side_a ch).address (side_b ch).address
    their ← put_coins to_act.0 to_cc swap.to_amount ch.their.agreed
    our ← put_coins from_act.0 from_cc swap.from_amount ch.our.agreed
    check_balances
        (with_send_action to_act.0 to_act.1 to_cc
          (with_send_action from_act.0 from_act.1 from_cc resolver))
        (with_agreed ch our their) from_cc.balance_id to_cc.balance_id
    ok (our, their)

  -- `ProcessAction` for a swap; `on_swap` is the node's own approval, if swaps are enabled.
  unfoldable pub process_swap :
      Wallets
      → Coins
      → Resolver
      → Option (Swap → Bool)
      → Swap
      → Channel Cell
      → Result ExchangeError (Agreed Cell × Agreed Cell)
  process_swap w coins resolver on_swap swap ch = do
    approve ← or_raise on_swap swaps_disabled
    from_cc ← or_raise (coins swap.from_balance_id) not_whitelisted
    to_cc ← or_raise (coins swap.to_balance_id) not_whitelisted
    from_act ← new_send_action w from_cc (side_a ch).address (side_b ch).address
    to_act ← new_send_action w to_cc (side_a ch).address (side_b ch).address
    their ← put_coins from_act.0 from_cc swap.from_amount ch.their.agreed
    our ← put_coins to_act.0 to_cc swap.to_amount ch.our.agreed
    check_balances
        (with_send_action to_act.0 to_act.1 to_cc
          (with_send_action from_act.0 from_act.1 from_cc resolver))
        (with_agreed ch our their) from_cc.balance_id to_cc.balance_id
    raise_if (not (approve swap)) swap_refused
    ok (our, their)

-- ===== src/Actions.antt =====
-- pkg/payments/actions: the send actions. A party's action state is the sum that it has sent so
-- far, with the part of it that an on-chain commit has paid out. The cells of the states are read
-- and written by a codec; `coin` is the action's coin, and map arguments are returned as changed.
pub mod Commit
pub mod Amounts
pub mod Moves
use ton_payment_network.Base.{
  ℕ, Bool, true, false, Option, none, some, List, [], ◌∷◌, Result, ok, err, ◌>>=◌, ◌>>◌, raise_if,
  or_raise, leb, ltb, ◌==◌, if◌then◌else◌,
}
use ton_payment_network.Base.Int.{ℤ, pos, ◌+ℤ◌, ◌-ℤ◌, ltb_ℤ, leb_ℤ, eqb_ℤ}
use ton_payment_network.Base.Dict.{Dict, lookup, insert}
use ton_payment_network.Cells.{Codec, load_state}
use ton_payment_network.Balance.{
  CoinConfig, BalanceInfo, new_balance_info, available, ton_balance_id, jetton_balance_id,
  ec_balance_id, LockedDepositInfo, mark_used,
}

pub record StateActionSend : Type 0 where
  pub amount : ℤ
  pub commited : ℤ
  pub commited_seqno : ℕ

-- `already_committed` is `payments.ErrAlreadyCommitted`.
pub data ActionError : Type 0 where
  bad_state already_committed not_enough_balance not_serialized : ActionError

-- The message that a commit lets the wallet expect: amounts by balance id, sender and payload.
pub record PendingMessageInfo : Type 0 where
  pub amounts : Dict ℤ
  pub completion_body_prefix : ℕ
  pub completion_address : ℕ
  pub limit_depth : ℕ

pub data SendAction : Type 0 where
  ton_insured : SendAction
  jetton_insured : ℕ → SendAction
  ec_insured : ℕ → SendAction
  ton_vault : SendAction
  jetton_vault : ℕ → SendAction
  ec_vault : ℕ → SendAction

abbrev pub balance_of : SendAction → ℕ
balance_of ton_insured = ton_balance_id
balance_of (jetton_insured root) = jetton_balance_id root
balance_of (ec_insured ec) = ec_balance_id ec
balance_of ton_vault = ton_balance_id
balance_of (jetton_vault root) = jetton_balance_id root
balance_of (ec_vault ec) = ec_balance_id ec

-- The vault's party pays from its vault, so what it sent is not taken off the channel's balance.
abbrev pub is_vault : SendAction → Bool
is_vault ton_insured = false
is_vault (jetton_insured root) = false
is_vault (ec_insured ec) = false
is_vault ton_vault = true
is_vault (jetton_vault root) = true
is_vault (ec_vault ec) = true

abbrev charge_fee : Bool → ℕ → ℕ → Dict BalanceInfo → ℤ → Result ActionError ℤ
charge_fee false fee id balances amount = ok amount
charge_fee true fee id balances amount = do
  b ← or_raise (lookup id balances) not_enough_balance
  raise_if (ltb_ℤ (available (some b)) (pos fee)) not_enough_balance
  ok (amount +ℤ pos fee)

abbrev add_to : BalanceInfo → Bool → Bool → ℤ → BalanceInfo
add_to b true true amt = b
add_to b true false amt = record b { action = b.action -ℤ amt }
add_to b false vault amt = record b { action = b.action +ℤ amt }

abbrev or_new : Option BalanceInfo → CoinConfig → BalanceInfo
or_new none cc = new_balance_info cc
or_new (some b) cc = b

-- `locked[id].Used` grows by the amount, if that deposit is there.
abbrev pub use_deposit :
    ℕ → ℤ → Dict LockedDepositInfo → Option LockedDepositInfo → Dict LockedDepositInfo
use_deposit id amount locked none = locked
use_deposit id amount locked (some lk) = insert id (mark_used amount lk) locked

module _ {Cell : Type 0} (codec : Codec Cell StateActionSend) where
  -- `prepareExecuteSendState`
  unfoldable pub prepare_execute_send_state :
      Cell
      → ℕ
      → CoinConfig
      → Bool
      → Dict BalanceInfo
      → ℕ
      → ℕ
      → Result ActionError (Cell × PendingMessageInfo)
  prepare_execute_send_state state seqno coin with_fee final_balances party completion_op = do
    cur ← or_raise (load_state codec state) bad_state
    raise_if (leb seqno cur.commited_seqno) already_committed
    amount ←
        charge_fee with_fee coin.fee_per_withdraw_propose coin.balance_id final_balances cur.amount
    let left = if eqb_ℤ cur.commited (pos 0) then amount else amount -ℤ cur.commited
    c ←
        or_raise (codec.store (record { amount = left; commited = left; commited_seqno = seqno }))
          not_serialized
    ok (
      c,
      record {
        amounts = (coin.balance_id, left) ∷ [];
        completion_body_prefix = completion_op;
        completion_address = party;
        limit_depth = 0;
      },
    )

  -- `emptySendState`; it panics where the state cannot be written.
  abbrev pub empty_send_state : Option Cell
  empty_send_state = codec.store (record { amount = pos 0; commited = pos 0; commited_seqno = 0 })

  -- `checkCanRemove`
  unfoldable pub check_can_remove : ℕ → Cell → Result ActionError Bool
  check_can_remove commited_seqno state = do
    cur ← or_raise (load_state codec state) bad_state
    ok (
        leb_ℤ
          (if leb cur.commited_seqno commited_seqno then cur.amount -ℤ cur.commited else cur.amount)
          (pos 0))

  -- `sendStatesDiff`
  unfoldable pub send_states_diff : Cell → Cell → ℕ → Result ActionError (Dict ℤ)
  send_states_diff before after balance_id = do
    b ← or_raise (load_state codec before) bad_state
    a ← or_raise (load_state codec after) bad_state
    ok ((balance_id, a.amount -ℤ b.amount) ∷ [])

  -- `sendAddCoins`, for a map of rented deposits that is not nil
  unfoldable pub send_add_coins :
      CoinConfig
      → Cell
      → ℤ
      → Dict LockedDepositInfo
      → Result ActionError (Cell × Dict LockedDepositInfo)
  send_add_coins cc action_state amount locked = do
    act ← or_raise (load_state codec action_state) bad_state
    c ← or_raise (codec.store (record act { amount = act.amount +ℤ amount })) not_serialized
    ok (c, use_deposit cc.balance_id amount locked (lookup cc.balance_id locked))

  -- `EmulateBalance` of each kind of send action: what the state means for the balances of the
  -- party that `from_us` names.
  unfoldable pub emulate_balance :
      SendAction
      → CoinConfig
      → Cell
      → Dict BalanceInfo
      → Bool
      → Result ActionError (Dict BalanceInfo)
  emulate_balance kind coin state balances from_us = do
    cur ← or_raise (load_state codec state) bad_state
    let id = balance_of kind
    let b = or_new (lookup id balances) coin
    ok (insert id (add_to b from_us (is_vault kind) (cur.amount -ℤ cur.commited)) balances)

-- ===== src/Conditionals/Virtual/Ops.antt =====
-- pkg/payments/conditionals/channel.go: the operations on a virtual channel's conditional.
use ton_payment_network.Base.{
  ℕ, Bool, true, false, not, Option, none, some, List, [], ◌∷◌, Result, ok, err, ◌>>=◌, ◌>>◌,
  raise_if, or_raise, ◌==◌, if◌then◌else◌,
}
use ton_payment_network.Base.Int.{ℤ, pos, ◌+ℤ◌, ◌-ℤ◌, ltb_ℤ, leb_ℤ, eqb_ℤ}
use ton_payment_network.Base.Dict.{Dict, lookup, insert}
use ton_payment_network.Cells.{Codec, load_state}
use ton_payment_network.Balance.{
  Float64, CoinConfig, BalanceInfo, LockedDepositInfo, resolve_action_balance,
}
use ton_payment_network.Actions.{StateActionSend, use_deposit}
use ton_payment_network.Conditionals.{
  Code, CondError, missing_balance, something_changed, prepay_decreased, bad_state, not_serialized,
  invalid_capacity, invalid_fee, prepay_not_zero, expired_deadline, bad_signature,
  amount_over_capacity, prepay_above_required, newer_state_known,
}
use ton_payment_network.Conditionals.Virtual.Defs.{ConditionalVirtualChannel, serialize}

-- `ConditionalVirtualChannelInstructionDetails`
pub record InstructionDetails : Type 0 where
  pub expected_fee : ℕ
  pub expected_capacity : ℕ
  pub next_fee : ℕ
  pub next_capacity : ℕ

pub record VirtualChannelState : Type 0 where
  pub signature : ℕ
  pub amount : ℤ

-- What the operations call: the codecs of the cells, `ed25519.Verify` on a key, the signed amount
-- and the signature, the hash of a code, and the float product of `CheckInstruction`, which is cut
-- to an integer (`percent_of p x` is x * (p / 100)).
pub record VirtualEnv (Cell : Type 0) : Type 0 where
  pub state_codec : Codec Cell VirtualChannelState
  pub action_codec : Codec Cell StateActionSend
  pub details_codec : Codec Cell InstructionDetails
  pub verify : ℕ → ℤ → ℕ → Bool
  pub hash : Code → ℕ
  pub static_code : ℕ
  pub percent_of : Float64 → ℕ → ℤ

abbrev first_id : List CoinConfig → ℕ
first_id [] = 0
first_id (cc ∷ ccs) = cc.balance_id

abbrev pub or_missing_balance : {E A : Type 0} → Result E A → Result CondError A
or_missing_balance (ok a) = ok a
or_missing_balance (err e) = err missing_balance

-- What is locked for the conditional: `EmulateBalance`'s `amt`.
abbrev pub locked_amount : ConditionalVirtualChannel → ℤ
locked_amount c =
    let amt = c.capacity +ℤ c.fee in if ltb_ℤ (pos 0) c.prepay then amt -ℤ c.prepay else amt

abbrev pub lock : BalanceInfo → Bool → ℤ → BalanceInfo
lock b true amt = record b { conditional_locked = b.conditional_locked +ℤ amt }
lock b false amt = record b { conditional_pending = b.conditional_pending +ℤ amt }

-- `EmulateBalance`
unfoldable pub emulate_balance :
    ConditionalVirtualChannel → Dict BalanceInfo → Bool → Result CondError (Dict BalanceInfo)
emulate_balance c balances from_us = do
  b ← or_missing_balance (resolve_action_balance balances c.action.affected_coins)
  let amt = locked_amount c
  ok (
      if leb_ℤ amt (pos 0)
      then balances
      else insert (first_id c.action.affected_coins) (lock b from_us amt) balances)

-- `ValidateOnAdd` at the time `now`
unfoldable pub validate_on_add : ℕ → ConditionalVirtualChannel → Result CondError Unit
validate_on_add now c = do
  raise_if (leb_ℤ c.capacity (pos 0)) invalid_capacity
  raise_if (ltb_ℤ c.fee (pos 0)) invalid_fee
  raise_if (not (eqb_ℤ c.prepay (pos 0))) prepay_not_zero
  raise_if (ltb_ℤ c.deadline (pos now)) expired_deadline
  ok tt

abbrev pub max_ℤ : ℤ → ℤ → ℤ
max_ℤ a b = if ltb_ℤ a b then b else a

module _ {Cell : Type 0} (env : VirtualEnv Cell) where
  -- `Commit`: the action's new state, and the conditional with the new prepay.
  unfoldable pub commit :
      ConditionalVirtualChannel
      → ConditionalVirtualChannel
      → Cell
      → Result CondError (Cell × ConditionalVirtualChannel)
  commit c updated act_state = do
    raise_if
        (not (
          env.hash (serialize env.static_code (record updated { prepay = pos 0 }))
          == env.hash (serialize env.static_code (record c { prepay = pos 0 }))))
        something_changed
    let prepay_amt = updated.prepay -ℤ c.prepay
    raise_if (ltb_ℤ prepay_amt (pos 0)) prepay_decreased
    state ← or_raise (load_state env.action_codec act_state) bad_state
    new_state ←
        or_raise (env.action_codec.store (record state { amount = state.amount +ℤ prepay_amt }))
          not_serialized
    ok (new_state, record c { prepay = updated.prepay })

  -- `PrepareCommit`
  unfoldable pub prepare_commit :
      ConditionalVirtualChannel → Cell → Result CondError ConditionalVirtualChannel
  prepare_commit c cond_state = do
    state ← or_raise (load_state env.state_codec cond_state) bad_state
    raise_if (not (env.verify c.key state.amount state.signature)) bad_signature
    raise_if (ltb_ℤ c.capacity state.amount) amount_over_capacity
    let new_prepay = state.amount +ℤ c.fee
    raise_if (ltb_ℤ new_prepay c.prepay) prepay_above_required
    ok (record c { prepay = new_prepay })

  abbrev load_old : Option Cell → Result CondError (Option VirtualChannelState)
  load_old none = ok none
  load_old (some cell) = do s ← or_raise (load_state env.state_codec cell) bad_state; ok (some s)

  abbrev is_newer : Option VirtualChannelState → VirtualChannelState → Bool
  is_newer none new = false
  is_newer (some old) new = ltb_ℤ new.amount old.amount

  -- `ValidateState`
  unfoldable pub validate_state :
      ConditionalVirtualChannel → Option Cell → Cell → Result CondError Unit
  validate_state c old_cell new_cell = do
    old ← load_old old_cell
    new ← or_raise (load_state env.state_codec new_cell) bad_state
    raise_if (not (env.verify c.key new.amount new.signature)) bad_signature
    raise_if (is_newer old new) newer_state_known
    raise_if (ltb_ℤ c.capacity new.amount) amount_over_capacity
    ok tt

  -- `Execute`: the action's new state, and the rented deposits with what it used.
  unfoldable pub execute :
      ConditionalVirtualChannel
      → Cell
      → Cell
      → Dict LockedDepositInfo
      → Result CondError (Cell × Dict LockedDepositInfo)
  execute c action_state latest locked = do
    cond_state ← or_raise (load_state env.state_codec latest) bad_state
    raise_if (not (env.verify c.key cond_state.amount cond_state.signature)) bad_signature
    act_state ← or_raise (load_state env.action_codec action_state) bad_state
    let need = max_ℤ (cond_state.amount +ℤ c.fee -ℤ c.prepay) (pos 0)
    new_state ←
        or_raise (env.action_codec.store (record act_state { amount = act_state.amount +ℤ need }))
          not_serialized
    let id = first_id c.action.affected_coins
    ok (new_state, use_deposit id need locked (lookup id locked))

-- ===== src/Exchange/Balances/Kept.antt =====
-- `Channel.CalcBalance`: what leaves the balances of the actions as they are, on-chain balances,
-- transfers that are pending, and conditionals.
use ton_payment_network.Base.{
  ℕ, ◌≡◌, refl, ◌∙◌, Bool, true, false, Option, some, List, [], ◌∷◌, ok, arith, inl, inr,
  Option-cases, Result-cases, Bool-cases, if◌then◌else◌,
}
use ton_payment_network.Base.Int.{ℤ, pos, ◌+ℤ◌}
use ton_payment_network.Base.Dict.{Dict, lookup, insert}
use ton_payment_network.Balance.{CoinConfig, BalanceInfo, new_balance_info, resolve_action_balance}
use ton_payment_network.Actions.{PendingMessageInfo}
use ton_payment_network.Actions.Moves.{moved, moved-insert, moved-insert_same}
use ton_payment_network.Conditionals.Virtual.Ops as VirtualOps
use ton_payment_network.Conditionals.Virtual.Defs.{ConditionalVirtualChannel}
use ton_payment_network.Conditionals.Resolvable.Defs.{ConditionalResolvable, PriceResolver}
use ton_payment_network.Conditionals.Resolvable.Defs as ResolvableDefs
use ton_payment_network.Exchange.{Side}
use ton_payment_network.Exchange.Conds.{
  virtual, resolvable, Conditional, CondEnv, prices_of, code_to_conditional,
}
use ton_payment_network.Exchange.Balances.{
  Resolver, start_balances, put_onchain, hold_amounts, hold_transfers, emulate_conditional,
  emulate_conditionals,
}

start_balances-moved :
    (i : ℕ) (ccs : List CoinConfig) (balances : Dict BalanceInfo)
    → moved i balances ≡ pos 0
    → moved i (start_balances ccs balances) ≡ pos 0
unfolding start_balances
start_balances-moved i [] balances h = h
start_balances-moved i (coin ∷ ccs) balances h =
    start_balances-moved i ccs _
      (ground (arith, moved-insert i coin.balance_id (new_balance_info coin) balances))

put_onchain-moved :
    (i : ℕ) (amounts : Dict ℤ) (balances out : Dict BalanceInfo)
    → put_onchain amounts balances ≡ ok out
    → moved i out ≡ moved i balances
unfolding put_onchain
put_onchain-moved i [] balances out h = ground arith
put_onchain-moved i ((id, amount) ∷ rest) balances out h =
    elim (Option-cases (lookup id balances)) [
      | inl bad ↦ absurd (ground arith)
      | inr (b, there) ↦
          let b' = record b { onchain = amount } in
          ground (
            arith,
            moved-insert_same i id b' b balances there refl,
            put_onchain-moved i rest (insert id b' balances) out,
          )
    ]

pub onchain_balances-moved :
    {Cell : Type 0} (resolver : Resolver) (i : ℕ) (s1 : Side Cell) (onchain : Dict BalanceInfo)
    → (if s1.active_onchain
        then put_onchain s1.onchain_balances (start_balances resolver.known_balance_types [])
        else ok (start_balances resolver.known_balance_types []))
      ≡ ok onchain
    → moved i onchain ≡ pos 0
unfolding lookup
onchain_balances-moved resolver i s1 onchain e =
    let start = start_balances resolver.known_balance_types [] in
    let zero = start_balances-moved i resolver.known_balance_types [] refl in
    elim (Bool-cases s1.active_onchain) [
      | inl onchain_side ↦
          put_onchain-moved i s1.onchain_balances start onchain (ground arith) ∙ zero
      | inr offchain ↦ ground arith
    ]

hold_amounts-moved :
    (i : ℕ) (amounts : Dict ℤ) (balances out : Dict BalanceInfo)
    → hold_amounts amounts balances ≡ ok out
    → moved i out ≡ moved i balances
unfolding hold_amounts
hold_amounts-moved i [] balances out h = ground arith
hold_amounts-moved i ((id, amount) ∷ rest) balances out h =
    elim (Option-cases (lookup id balances)) [
      | inl bad ↦ absurd (ground arith)
      | inr (b, there) ↦
          let b' = record b { on_hold = b.on_hold +ℤ amount } in
          ground (
            arith,
            moved-insert_same i id b' b balances there refl,
            hold_amounts-moved i rest (insert id b' balances) out,
          )
    ]

pub hold_transfers-moved :
    (i : ℕ) (transfers : Dict PendingMessageInfo) (balances out : Dict BalanceInfo)
    → hold_transfers transfers balances ≡ ok out
    → moved i out ≡ moved i balances
unfolding hold_transfers
hold_transfers-moved i [] balances out h = ground arith
hold_transfers-moved i ((id, transfer) ∷ rest) balances out h =
    elim (Result-cases (hold_amounts transfer.amounts balances)) [
      | inl (held, e) ↦ ground (
        arith,
        hold_amounts-moved i transfer.amounts balances held e,
        hold_transfers-moved i rest held out,
      )
      | inr (e, bad) ↦ absurd (ground arith)
    ]

-- The coin of a conditional, as both kinds find it.
balance-found :
    (balances : Dict BalanceInfo) (ccs : List CoinConfig) (b : BalanceInfo)
    → resolve_action_balance balances ccs ≡ ok b
    → (coin : CoinConfig) × (ccs ≡ coin ∷ []) × (lookup coin.balance_id balances ≡ some b)
unfolding resolve_action_balance
balance-found balances [] b h = absurd (ground arith)
balance-found balances (coin ∷ []) b h = (coin, refl, ground arith)
balance-found balances (coin ∷ next ∷ ccs) b h = absurd (ground arith)

lock-action :
    (b : BalanceInfo) (from_us : Bool) (amt : ℤ) → (VirtualOps.lock b from_us amt).action ≡ b.action
lock-action b true amt = refl
lock-action b false amt = refl

virtual-moved :
    (i : ℕ) (from_us : Bool) (c : ConditionalVirtualChannel) (balances out : Dict BalanceInfo)
    → VirtualOps.emulate_balance c balances from_us ≡ ok out
    → moved i out ≡ moved i balances
unfolding VirtualOps.emulate_balance
virtual-moved i from_us c balances out h =
    elim (Result-cases (resolve_action_balance balances c.action.affected_coins)) [
      | inr (e, bad) ↦ absurd (ground arith)
      | inl (b, e) ↦
          let (coin, one, there) = balance-found balances c.action.affected_coins b e in
          let locked = VirtualOps.lock b from_us (VirtualOps.locked_amount c) in
          ground (
            arith,
            moved-insert_same i coin.balance_id locked b balances there
                (lock-action b from_us (VirtualOps.locked_amount c)),
          )
    ]

abbrev after : BalanceInfo → Bool → ConditionalResolvable → ℤ → BalanceInfo
after b from_us c result =
    if from_us
    then ResolvableDefs.lock b (ResolvableDefs.locked_at c result)
    else ResolvableDefs.pend b (ResolvableDefs.with_fee c result)

after-action :
    (b : BalanceInfo) (from_us : Bool) (c : ConditionalResolvable) (result : ℤ)
    → (after b from_us c result).action ≡ b.action
after-action b true c result = refl
after-action b false c result = ground arith

resolvable-moved :
    (i : ℕ) (from_us : Bool) (c : ConditionalResolvable) (prices : Option PriceResolver) (now : ℤ)
    (balances out : Dict BalanceInfo)
    → ResolvableDefs.emulate_balance c prices now balances from_us ≡ ok out
    → moved i out ≡ moved i balances
unfolding ResolvableDefs.emulate_balance
resolvable-moved i from_us c prices now balances out h =
    elim (Result-cases (resolve_action_balance balances c.action.affected_coins)) [
      | inr (e, bad) ↦ absurd (ground arith)
      | inl (b, e) ↦
          let (coin, one, there) = balance-found balances c.action.affected_coins b e in
          elim (Option-cases prices) [
            | inl bad ↦ absurd (ground arith)
            | inr (r, feed) ↦ elim (Result-cases (ResolvableDefs.best_effort_price r now)) [
              | inr (e, bad) ↦ absurd (ground arith)
              | inl (price, best) ↦
                  let b' = after b from_us c (ResolvableDefs.roi c price) in
                  ground (
                    arith,
                    moved-insert_same i coin.balance_id b' b balances there
                        (after-action b from_us c (ResolvableDefs.roi c price)),
                  )
            ]
          ]
    ]

module _ {Cell : Type 0} (env : CondEnv Cell) (resolver : Resolver) (i : ℕ) where
  emulate_conditional-moved :
      (from_us : Bool) (c : Conditional) (balances out : Dict BalanceInfo)
      → emulate_conditional env resolver from_us c balances ≡ ok out
      → moved i out ≡ moved i balances
  unfolding emulate_conditional
  emulate_conditional-moved from_us (virtual c) balances out h =
      virtual-moved i from_us c balances out (ground arith)
  emulate_conditional-moved from_us (resolvable c) balances out h =
      resolvable-moved i from_us c (prices_of resolver.moment c) (pos resolver.moment.now) balances
        out (ground arith)

  pub emulate_conditionals-moved :
      (from_us : Bool) (conditionals : Dict Cell) (balances out : Dict BalanceInfo)
      → emulate_conditionals env resolver from_us conditionals balances ≡ ok out
      → moved i out ≡ moved i balances
  unfolding emulate_conditionals
  emulate_conditionals-moved from_us [] balances out h = ground arith
  emulate_conditionals-moved from_us ((id, cell) ∷ rest) balances out h =
      elim (Result-cases (code_to_conditional env resolver.moment cell)) [
        | inr (e, bad) ↦ absurd (ground arith)
        | inl (c, reads) ↦
            elim (Result-cases (emulate_conditional env resolver from_us c balances)) [
              | inr (e, bad) ↦ absurd (ground arith)
              | inl (next, e) ↦ ground (
                arith,
                emulate_conditional-moved from_us c balances next e,
                emulate_conditionals-moved from_us rest next out,
              )
            ]
      ]

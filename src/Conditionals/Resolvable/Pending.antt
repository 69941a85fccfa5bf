-- ===== src/Conditionals/Resolvable/Pending.antt =====
-- What `EmulateBalance` adds to our pending balance for the other party's conditional.
use ton_payment_network.Base.{◌≡◌, ◌⊎◌, true, false, arith, [], ◌∷◌, some, ok}
use ton_payment_network.Base.Int.{ℤ, pos, abs, ◌+ℤ◌, ◌≤ℤ◌, ◌<ℤ◌, +ℤ_parts}
use ton_payment_network.Base.Dict.{Dict, lookup, lookup-insert}
use ton_payment_network.Balance.{CoinConfig, BalanceInfo, resolve_action_balance}
use ton_payment_network.Conditionals.Resolvable.Defs.{
  ConditionalResolvable, PriceResolver, roi, expected_amount, best_effort_price, emulate_balance,
}

-- For the initiator's conditional, seen by the other party: when its position has a positive
-- result the initiator owes nothing, and yet that result and the fee are added to what we expect to
-- get; when its loss is at least the fee it owes us the loss, or the whole amount where the loss is no
-- less than that, and nothing is added.
pub emulate_balance-pending_sign :
    (c : ConditionalResolvable) (r : PriceResolver) (now price : ℤ)
    (balances after : Dict BalanceInfo) (cc : CoinConfig) (b : BalanceInfo)
    → c.is_initiator ≡ true
    → pos 0 ≤ℤ c.fee
    → c.action.affected_coins ≡ cc ∷ []
    → resolve_action_balance balances c.action.affected_coins ≡ ok b
    → best_effort_price r now ≡ ok price
    → emulate_balance c (some r) now balances false ≡ ok after
    → (pos 0 <ℤ roi c price
        → (expected_amount c price ≡ pos 0)
          × (lookup cc.balance_id after
              ≡ some (record b {
                conditional_pending = b.conditional_pending +ℤ (roi c price +ℤ c.fee);
              })))
      × (roi c price +ℤ c.fee ≤ℤ pos 0
          → ((expected_amount c price ≡ pos (abs (roi c price)))
              ⊎ (expected_amount c price ≡ c.amount) × (c.amount ≤ℤ pos (abs (roi c price))))
            × (lookup cc.balance_id after ≡ some b))
unfolding emulate_balance expected_amount
emulate_balance-pending_sign c r now price balances after cc b i f a e q h = (
  λ p. (
    ground arith,
    ground (
      arith,
      +ℤ_parts (roi c price) c.fee,
      lookup-insert cc.balance_id cc.balance_id
          (record b { conditional_pending = b.conditional_pending +ℤ (roi c price +ℤ c.fee) })
          balances,
    ),
  ),
  λ p. (
    ground (arith, +ℤ_parts (roi c price) c.fee),
    ground
        (arith, +ℤ_parts (roi c price) c.fee, lookup-insert cc.balance_id cc.balance_id b balances),
  ),
)

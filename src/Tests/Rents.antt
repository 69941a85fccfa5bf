-- ===== src/Tests/Rents.antt =====
-- Runs of renting capacity.
use ton_payment_network.Base.{◌-◌, ◌*◌, ◌≤◌, ◌<◌, ◌≡◌, refl, none, [], ◌∷◌, arith}
use ton_payment_network.Base.Int.{pos, ◌+ℤ◌, ◌-ℤ◌}
use ton_payment_network.Base.Dict.{lookup, insert}
use ton_payment_network.Cells.{load_state}
use ton_payment_network.Balance.{Float64, finite, available, resolve_action_balance}
use ton_payment_network.Actions as Actions
use ton_payment_network.Conditionals.Virtual.Defs as VirtualDefs
use ton_payment_network.Conditionals.Virtual.Ops as VirtualOps
use ton_payment_network.Exchange.{Agreed}
use ton_payment_network.Exchange.Conds.{code_to_conditional}
use ton_payment_network.Exchange.Balances.{
  start_balances, put_onchain, hold_amounts, hold_transfers, emulate_actions, emulate_conditional,
  emulate_conditionals, balances_of,
}
use ton_payment_network.Exchange.Swaps.{new_send_action, action_kind}
use ton_payment_network.Exchange.Rents.{
  Rent, running, price_for, fee_at, check_usable, add_fee, propose_rent, process_rent,
}
use ton_payment_network.Exchange.Rents.Price.{fee_at-covers, fee_at-second_counts}
use ton_payment_network.Exchange.Rents.Same.{IsTimely, process_rent-propose_rent}
use ton_payment_network.Tests.Parties.{cells, resolver, promised, bare, left, right}
use ton_payment_network.Tests.Commits.{wallets, coins, sent_new, exchanged}
use ton_payment_network.Tests.Fixtures.{Slip, coin}

-- 100 percent for 30 days
abbrev hundredth : Float64 → Float64
hundredth x = finite (pos 1) 0

fee_at-covers_example : (2 ≤ 12) × (25920000 ≤ (12 - 2) * 2592000) × ((12 - 2) * 2592000 < 28512000)
unfolding fee_at price_for ◌-ℤ◌
fee_at-covers_example =
    fee_at-covers hundredth coin 10 2592010 none 1 0 refl (omega arith) 2592000 12 (omega arith)
      refl

fee_at-second_counts_example : 3 < 4
unfolding fee_at price_for ◌-ℤ◌
fee_at-second_counts_example =
    fee_at-second_counts hundredth coin 2592000 2592010 none 1 0 refl (omega arith) 1 4 3
      (omega arith) (omega arith) refl refl

-- From the second 10 on, for 30 days
abbrev rent : Rent
rent = record { till = 2592010; amount = 10; balance_id = 0 }

abbrev paid : Agreed Slip
paid = record bare { action_states = (5, sent_new 12) ∷ [] }

abbrev kept : Agreed Slip
kept = record promised {
  locked_deposits = (0, record { amount = pos 10; till = 2592010; used = pos 0 }) ∷ [];
}

timely : IsTimely 10000000000 10000000000 2592010 promised
timely = record { left = refl; runs = λ id. refl }

process_rent-propose_rent_example : (paid ≡ paid) × (kept ≡ kept)
unfolding propose_rent process_rent add_fee check_usable fee_at price_for running new_send_action
    action_kind available balances_of start_balances put_onchain hold_amounts hold_transfers
    emulate_actions emulate_conditional emulate_conditionals Actions.emulate_balance
    VirtualOps.emulate_balance resolve_action_balance code_to_conditional VirtualDefs.parse
    VirtualDefs.serialize load_state lookup insert ◌+ℤ◌ ◌-ℤ◌
process_rent-propose_rent_example =
    process_rent-propose_rent cells hundredth wallets coins coins resolver 10000000000 10000000000
      rent left right paid kept kept paid exchanged timely refl refl refl

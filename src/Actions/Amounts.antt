-- ===== src/Actions/Amounts.antt =====
-- Adding coins to a send action, and what its state means for both parties' balances.
use ton_payment_network.Base.{
  ℕ, ◌≡◌, ◌≢◌, refl, true, false, none, some, [], ◌∷◌, ok, arith, inl, inr, Option, Option-cases,
}
use ton_payment_network.Base.Int.{ℤ, pos, ◌+ℤ◌, ◌-ℤ◌, ◌≤ℤ◌, add-sub_cancel, sub-add_cancel}
use ton_payment_network.Base.Dict.{Dict, lookup, insert, lookup-insert}
use ton_payment_network.Cells.{Codec, load_state, load_state-store}
use ton_payment_network.Balance.{CoinConfig, BalanceInfo, LockedDepositInfo, mark_used}
use ton_payment_network.Balance.Laws.{mark_used_bounds}
use ton_payment_network.Actions.{
  StateActionSend, SendAction, balance_of, is_vault, send_add_coins, send_states_diff,
  emulate_balance, use_deposit, add_to,
}

-- Every rented deposit of the map is used at most in full.
abbrev pub IsWithin : Dict LockedDepositInfo → Type 0
IsWithin locked =
    (id : ℕ) (lk : LockedDepositInfo) → lookup id locked ≡ some lk → lk.used ≤ℤ lk.amount

mark_used_amount : (amount : ℤ) (lk : LockedDepositInfo) → (mark_used amount lk).amount ≡ lk.amount
unfolding mark_used
mark_used_amount amount lk = refl

use_deposit-IsWithin :
    (id : ℕ) (amount : ℤ) (locked : Dict LockedDepositInfo) (o : Option LockedDepositInfo)
    → lookup id locked ≡ o
    → IsWithin locked
    → pos 0 ≤ℤ amount
    → IsWithin (use_deposit id amount locked o)
use_deposit-IsWithin id amount locked none e h p j x q = h j x q
use_deposit-IsWithin id amount locked (some lk) e h p j x q = ground (
  arith,
  lookup-insert j id (mark_used amount lk) locked,
  mark_used_bounds amount lk (h id lk e) p,
  mark_used_amount amount lk,
  h j x,
)

use_deposit_ne :
    (id j : ℕ) (amount : ℤ) (locked : Dict LockedDepositInfo) (o : Option LockedDepositInfo)
    → j ≢ id
    → lookup j (use_deposit id amount locked o) ≡ lookup j locked
use_deposit_ne id j amount locked none ne = refl
use_deposit_ne id j amount locked (some lk) ne =
    ground (arith, lookup-insert j id (mark_used amount lk) locked)

module _ {Cell : Type 0} (codec : Codec Cell StateActionSend) where
  -- What one party sends the other receives: the state of an insured action, taken once from the
  -- sender's view and once from the receiver's, leaves the action's balance as it was.
  emulate_balance-cancels :
      (kind : SendAction) (coin : CoinConfig) (state : Cell) (balances sent both : Dict BalanceInfo)
      (b : BalanceInfo)
      → is_vault kind ≡ false
      → lookup (balance_of kind) balances ≡ some b
      → emulate_balance codec kind coin state balances true ≡ ok sent
      → emulate_balance codec kind coin state sent false ≡ ok both
      → lookup (balance_of kind) both ≡ some b
  unfolding emulate_balance
  emulate_balance-cancels kind coin state balances sent both b v e f g =
      elim (Option-cases (load_state codec state)) [
        | inl bad ↦ absurd (ground arith)
        | inr (s, loaded) ↦
            let id = balance_of kind in
            let x = s.amount -ℤ s.commited in
            let b' = add_to b true false x in
            ground (
              arith,
              lookup-insert id id b' balances,
              lookup-insert id id (add_to b' false false x) (insert id b' balances),
              sub-add_cancel b.action x,
            )
      ]

  module _ (cc : CoinConfig) (state : Cell) (amount : ℤ) (locked locked' : Dict LockedDepositInfo)
      (c : Cell) (done : send_add_coins codec cc state amount locked ≡ ok (c, locked')) where
    pub added :
        (s : StateActionSend)
        → load_state codec state ≡ some s
        → (codec.store (record s { amount = s.amount +ℤ amount }) ≡ some c)
          × (locked' ≡ use_deposit cc.balance_id amount locked (lookup cc.balance_id locked))
    unfolding send_add_coins
    added s e = ground arith

    -- Adding coins raises what the state says was sent by exactly the amount, keeps every rented
    -- deposit within its size if none was overused and the amount is not negative, and touches no
    -- deposit of another coin.
    send_add_coins-adds :
        (s : StateActionSend)
        → load_state codec state ≡ some s
        → IsWithin locked
        → pos 0 ≤ℤ amount
        → (send_states_diff codec state c cc.balance_id ≡ ok ((cc.balance_id, amount) ∷ []))
          × IsWithin locked'
          × ((id : ℕ) → id ≢ cc.balance_id → lookup id locked' ≡ lookup id locked)
    send_add_coins-adds s e within p =
        let stored = added s e in
        (
          unfold send_states_diff in
              ground (arith, load_state-store codec _ c stored.0, add-sub_cancel s.amount amount),
          rw (stored.1) (use_deposit-IsWithin cc.balance_id amount locked _ refl within p),
          λ id ne. rw (stored.1) (use_deposit_ne cc.balance_id id amount locked _ ne),
        )

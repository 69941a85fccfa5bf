-- ===== src/Balance/Laws.antt =====
-- What is available of a balance and of a rented deposit.
use ton_payment_network.Base.Int.{ℤ, pos, ◌≤ℤ◌, int_laws}
use ton_payment_network.Balance.{LockedDepositInfo, mark_used}

-- A payment never uses more of a rented deposit than was rented, and never lowers what is used.
pub mark_used_bounds :
    (amount : ℤ) (lk : LockedDepositInfo)
    → lk.used ≤ℤ lk.amount
    → pos 0 ≤ℤ amount
    → (lk.used ≤ℤ (mark_used amount lk).used) × ((mark_used amount lk).used ≤ℤ lk.amount)
unfolding mark_used
mark_used_bounds amount lk h p = grind int_laws

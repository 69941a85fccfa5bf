-- ===== src/Vault.antt =====
-- pkg/payments/vault/manager.go: keeping a vault's balances between their limits.
pub mod Limits
pub mod Pace
use ton_payment_network.Base.{
  ℕ, ◌+◌, ◌-◌, ◌≡◌, Bool, true, false, not, ◌&&◌, ◌||◌, Option, none, some, List, [], ◌∷◌, leb, ltb,
  ◌==◌, if◌then◌else◌,
}
use ton_payment_network.Base.Dict.{Dict, lookup, insert}

-- `CoinLimits`; amounts in the chain are naturals.
pub record CoinLimits : Type 0 where
  pub min_balance : ℕ
  pub max_balance : ℕ

-- `TopUp` of a coin, or `Transfer` of it to the wallet
pub data Order : Type 0 where
  top_up : ℕ → ℕ → Order
  withdraw : ℕ → ℕ → Order

-- `DefaultDeployAmount` and `DefaultActionLockTTL` (nanoseconds)
pub record Defaults : Type 0 where
  pub deploy_amount : ℕ
  pub action_lock_ttl : ℕ

-- What a manager is configured with, in the order in which its map of limits is walked, and when it
-- acted last on each coin
pub record Manager : Type 0 where
  pub defaults : Defaults
  pub coins : Dict Bool
  pub limits : List (ℕ × CoinLimits)
  pub last_action : Dict ℕ

-- `effectiveLimits`, and the last test of `Reconcile`: a TON balance keeps the reserve, and the upper
-- limit is no lower than the lower one.
unfoldable pub effective_limits : Defaults → Bool → CoinLimits → CoinLimits
effective_limits d is_ton l =
    let least =
      if is_ton && ltb l.min_balance d.deploy_amount then d.deploy_amount else l.min_balance in
    record {
      min_balance = least;
      max_balance = if ltb l.max_balance least then least else l.max_balance;
    }

-- `canAct` at the time `now`
unfoldable pub can_act : Defaults → ℕ → Option ℕ → Bool
can_act d now none = true
can_act d now (some last) = leb (last + d.action_lock_ttl) now

-- The switch of `Reconcile` for one coin with the given limits, where `may` is what `canAct` says of
-- the coin
unfoldable pub order_for : Bool → ℕ → CoinLimits → ℕ → Option Order
order_for may symbol l balance =
    if ltb balance l.min_balance
    then (if may && ltb balance l.max_balance
        then some (top_up symbol (l.max_balance - balance))
        else none)
    else (if ltb l.max_balance balance && may
        then some (withdraw symbol (balance - l.max_balance))
        else none)

abbrev pub or_zero : Option ℕ → ℕ
or_zero none = 0
or_zero (some n) = n

-- How `Reconcile` ends: all coins were looked at, one of the limits is of an unknown coin, or an order
-- failed.
pub data Outcome : Type 0 where
  done unknown_coin order_failed : Outcome

-- The loop of `Reconcile` at the time `now` over a snapshot's balances; `sent` says whether an order
-- is carried out. The orders, the times of the last actions and the outcome.
unfoldable pub reconcile_loop :
    Manager
    → (Order → Bool)
    → ℕ
    → Dict ℕ
    → List (ℕ × CoinLimits)
    → Dict ℕ
    → List Order × Dict ℕ × Outcome
reconcile_loop m sent now balances [] acted = ([], acted, done)
reconcile_loop m sent now balances ((symbol, l) ∷ more) acted = elim (lookup symbol m.coins) [
  | none ↦ ([], acted, unknown_coin)
  | some is_ton ↦
      elim (order_for (can_act m.defaults now (lookup symbol acted)) symbol
        (effective_limits m.defaults is_ton l) (or_zero (lookup symbol balances))) [
          | none ↦ reconcile_loop m sent now balances more acted
          | some order ↦ elim (sent order) [
            | false ↦ ([], acted, order_failed)
            | true ↦
                let rest = reconcile_loop m sent now balances more (insert symbol now acted) in
                (order ∷ rest.0, rest.1, rest.2)
          ]
        ]
]

-- `Reconcile`, once the vault is deployed and its snapshot is taken
unfoldable pub reconcile : Manager → (Order → Bool) → ℕ → Dict ℕ → List Order × Manager × Outcome
reconcile m sent now balances =
    let r = reconcile_loop m sent now balances m.limits m.last_action in
    (r.0, record m { last_action = r.1 }, r.2)

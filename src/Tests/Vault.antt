-- ===== src/Tests/Vault.antt =====
-- A run of the vault: a TON balance of 30 that may lie between 10 and 100, with a reserve of 50.
use ton_payment_network.Base.{
  ℕ, ◌≤◌, ◌<◌, ◌≡◌, ◌≢◌, ◌↔◌, ◌⊎◌, refl, Bool, true, false, Option, none, some, [], ◌∷◌, arith,
}
use ton_payment_network.Base.Dict.{lookup}
use ton_payment_network.Vault.{
  CoinLimits, Order, top_up, withdraw, Defaults, Manager, effective_limits, can_act, reconcile,
}
use ton_payment_network.Vault.Limits.{find_order, reconcile-orders}

abbrev defaults : Defaults
defaults = record { deploy_amount = 50; action_lock_ttl = 120 }

abbrev limits : CoinLimits
limits = record { min_balance = 10; max_balance = 100 }

abbrev manager : Manager
manager = record {
  defaults = defaults;
  coins = (1, true) ∷ [];
  limits = (1, limits) ∷ [];
  last_action = [];
}

abbrev always : Order → Bool
always o = true

all_known :
    (s : ℕ) (x : CoinLimits) → lookup s manager.limits ≡ some x → lookup s manager.coins ≢ none
unfolding lookup
all_known s x h = ground arith

abbrev found : Option Order
found = find_order 1 ((reconcile manager always 7 ((1, 30) ∷ [])).0)

reconcile-orders_example :
    (50 ≤ 100)
    × (true ≡ true → 50 ≤ 50)
    × ((found ≡ none) ↔ (((50 ≤ 30) × (30 ≤ 100)) ⊎ (true ≡ false)))
    × ((o : Order)
        → found ≡ some o
        → ((o ≡ top_up 1 70) × (30 < 50)) ⊎ ((o ≡ withdraw 1 0) × (100 < 30)))
unfolding effective_limits can_act lookup
reconcile-orders_example =
    reconcile-orders manager always 7 ((1, 30) ∷ []) 1 true limits (λ o. refl) (refl, tt) all_known
      refl refl

-- ===== src/Vault/Pace.antt =====
-- No coin gets two orders within the lock time of its last action.
use ton_payment_network.Base.{
  ℕ, ◌+◌, ◌<◌, ◌≡◌, ◌≢◌, ◌⊎◌, refl, Bool, true, false, ◌∙◌, Option-cases, Bool-cases, Option, some,
  List, [], ◌∷◌, arith, ◌==◌, if◌then◌else◌, inl, inr,
}
use ton_payment_network.Base.Dict.{Dict, lookup, insert, lookup-insert}
use ton_payment_network.Vault.{
  CoinLimits, Order, top_up, withdraw, Manager, effective_limits, can_act, order_for, or_zero,
  reconcile_loop, reconcile,
}

abbrev pub coin_of : Order → ℕ
coin_of (top_up s x) = s
coin_of (withdraw s x) = s

abbrev pub orders_coin : ℕ → List Order → Bool
orders_coin symbol [] = false
orders_coin symbol (o ∷ more) =
    let rest = orders_coin symbol more in if symbol == coin_of o then true else rest

pub order_coin :
    (may : Bool) (symbol : ℕ) (l : CoinLimits) (balance : ℕ) (o : Order)
    → order_for may symbol l balance ≡ some o
    → (coin_of o ≡ symbol) × (may ≡ true)
unfolding order_for
order_coin may symbol l balance (top_up s x) h = (ground arith, ground arith)
order_coin may symbol l balance (withdraw s x) h = (ground arith, ground arith)

module _ (m : Manager) (now : ℕ) (balances : Dict ℕ) where
  -- What the loop finds to order for a coin, and what the order says of it.
  abbrev pub order_at : ℕ → Bool → CoinLimits → Dict ℕ → Option Order
  order_at s ton l acted =
      order_for (can_act m.defaults now (lookup s acted)) s (effective_limits m.defaults ton l)
        (or_zero (lookup s balances))

  pub order_at-coin :
      (s : ℕ) (ton : Bool) (l : CoinLimits) (acted : Dict ℕ) (o : Order)
      → order_at s ton l acted ≡ some o
      → (coin_of o ≡ s) × (can_act m.defaults now (lookup s acted) ≡ true)
  order_at-coin s ton l acted o e =
      order_coin (can_act m.defaults now (lookup s acted)) s (effective_limits m.defaults ton l)
        (or_zero (lookup s balances)) o e

module _ (m : Manager) (sent : Order → Bool) (now : ℕ) (balances : Dict ℕ) (symbol : ℕ) where
  loop-waits :
      (limits : List (ℕ × CoinLimits)) (acted : Dict ℕ)
      → can_act m.defaults now (lookup symbol acted) ≡ false
      → (orders_coin symbol ((reconcile_loop m sent now balances limits acted).0) ≡ false)
        × (lookup symbol ((reconcile_loop m sent now balances limits acted).1)
            ≡ lookup symbol acted)
  unfolding reconcile_loop
  loop-waits [] acted h = (refl, refl)
  loop-waits ((s, l) ∷ more) acted h = elim (Option-cases (lookup s m.coins)) [
    | inl nil ↦ (ground arith, ground arith)
    | inr (ton, c) ↦ elim (Option-cases (order_at m now balances s ton l acted)) [
      | inl nil ↦ let rest = loop-waits more acted h in (ground arith, ground arith)
      | inr (o, e) ↦ elim (Bool-cases (sent o)) [
        | inr failed ↦ (ground arith, ground arith)
        | inl done' ↦
            let (coin, go) = order_at-coin m now balances s ton l acted o e in
            let apart : symbol ≢ s = λ same. ground arith in
            let set = lookup-insert symbol s now acted in
            let kept : can_act m.defaults now (lookup symbol (insert s now acted)) ≡ false =
              ground (arith, set) in
            let rest = loop-waits more (insert s now acted) kept in
            (ground arith, ground (arith, set))
      ]
    ]
  ]

  loop-acts :
      (limits : List (ℕ × CoinLimits)) (acted : Dict ℕ)
      → (orders_coin symbol ((reconcile_loop m sent now balances limits acted).0) ≡ true)
        ⊎ (lookup symbol acted ≡ some now)
      → lookup symbol ((reconcile_loop m sent now balances limits acted).1) ≡ some now
  unfolding reconcile_loop
  loop-acts [] acted h = ground arith
  loop-acts ((s, l) ∷ more) acted h = elim (Option-cases (lookup s m.coins)) [
    | inl nil ↦ ground arith
    | inr (ton, c) ↦ elim (Option-cases (order_at m now balances s ton l acted)) [
      | inl nil ↦ let rest = loop-acts more acted in ground arith
      | inr (o, e) ↦ elim (Bool-cases (sent o)) [
        | inr failed ↦ ground arith
        | inl done' ↦
            let set = lookup-insert symbol s now acted in
            let rest = loop-acts more (insert s now acted) in
            let coin = order_at-coin m now balances s ton l acted o e in ground (arith, set)
      ]
    ]
  ]

-- A coin that one round made an order for, at the time `now`, gets no order in a later round before
-- the lock time is over, whatever its balance is then and whichever orders succeed; the time of its
-- last action stays.
reconcile-waits :
    (m : Manager) (sent later_sent : Order → Bool) (now later : ℕ)
    (balances later_balances : Dict ℕ) (symbol : ℕ)
    → orders_coin symbol ((reconcile m sent now balances).0) ≡ true
    → later < now + m.defaults.action_lock_ttl
    → let second = reconcile ((reconcile m sent now balances).1) later_sent later later_balances in
      (orders_coin symbol (second.0) ≡ false) × (lookup symbol second.1.last_action ≡ some now)
unfolding reconcile can_act
reconcile-waits m sent later_sent now later balances later_balances symbol h soon =
    let r = reconcile_loop m sent now balances m.limits m.last_action in
    let m' = record m { last_action = r.1 } in
    let acted : lookup symbol (r.1) ≡ some now =
      loop-acts m sent now balances symbol m.limits m.last_action (inl h) in
    let waits =
      loop-waits m' later_sent later later_balances symbol m.limits (r.1) (ground arith) in
    (waits.0, waits.1 ∙ acted)

-- ===== src/Vault/Limits.antt =====
-- Which orders a round of `Reconcile` makes.
use ton_payment_network.Base.{
  ℕ, ◌-◌, ◌≤◌, ◌<◌, ◌≡◌, ◌≢◌, ◌↔◌, ◌⊎◌, ◌∙◌, sym, refl, Bool, true, false, Option, none, some,
  Option-cases, Bool-cases, List, [], ◌∷◌, arith, ◌==◌, if◌then◌else◌, inl, inr,
}
use ton_payment_network.Base.Dict.{Dict, lookup, insert, lookup-insert}
use ton_payment_network.Vault.{
  CoinLimits, Order, top_up, withdraw, Manager, effective_limits, can_act, order_for, or_zero,
  reconcile_loop, reconcile,
}
use ton_payment_network.Vault.Pace.{coin_of, order_at, order_at-coin}

-- The first order for a coin
abbrev pub find_order : ℕ → List Order → Option Order
find_order symbol [] = none
find_order symbol (o ∷ more) =
    let rest = find_order symbol more in if symbol == coin_of o then some o else rest

-- A map's keys are different.
abbrev pub IsMap : List (ℕ × CoinLimits) → Type 0
IsMap [] = Unit
IsMap ((s, l) ∷ more) = (lookup s more ≡ none) × IsMap more

module _ (m : Manager) (sent : Order → Bool) (now : ℕ) (balances : Dict ℕ)
    (all_sent : (o : Order) → sent o ≡ true) where
  abbrev pub IsKnown : List (ℕ × CoinLimits) → Type 0
  IsKnown limits = (s : ℕ) (l : CoinLimits) → lookup s limits ≡ some l → lookup s m.coins ≢ none

  IsKnown-rest :
      (s : ℕ) (l : CoinLimits) (more : List (ℕ × CoinLimits))
      → IsMap ((s, l) ∷ more)
      → IsKnown ((s, l) ∷ more)
      → IsKnown more
  unfolding lookup
  IsKnown-rest s l more d k t x e = k t x (ground arith)

  no_order :
      (symbol : ℕ) (limits : List (ℕ × CoinLimits)) (acted : Dict ℕ)
      → lookup symbol limits ≡ none
      → find_order symbol ((reconcile_loop m sent now balances limits acted).0) ≡ none
  unfolding reconcile_loop lookup
  no_order symbol [] acted h = refl
  no_order symbol ((s, l) ∷ more) acted h = elim (Option-cases (lookup s m.coins)) [
    | inl nil ↦ ground arith
    | inr (ton, c) ↦ elim (Option-cases (order_at m now balances s ton l acted)) [
      | inl nil ↦ ground (arith, no_order symbol more acted)
      | inr (o, e) ↦ ground (
        arith,
        all_sent o,
        order_at-coin m now balances s ton l acted o e,
        no_order symbol more (insert s now acted),
      )
    ]
  ]

  loop-orders :
      (symbol : ℕ) (ton : Bool) (l : CoinLimits) (limits : List (ℕ × CoinLimits)) (acted : Dict ℕ)
      → IsMap limits
      → IsKnown limits
      → lookup symbol m.coins ≡ some ton
      → lookup symbol limits ≡ some l
      → find_order symbol ((reconcile_loop m sent now balances limits acted).0)
        ≡ order_at m now balances symbol ton l acted
  unfolding reconcile_loop lookup
  loop-orders symbol ton l [] acted d k c h = absurd (ground arith)
  loop-orders symbol ton l ((s, x) ∷ more) acted d k c h =
      let rest = loop-orders symbol ton l more in
      let later = IsKnown-rest s x more d k in
      elim (Option-cases (lookup s m.coins)) [
        | inl nil ↦ absurd (k s x (ground arith) nil)
        | inr (ton', c') ↦ elim (Option-cases (order_at m now balances s ton' x acted)) [
          | inl nil ↦ elim (Bool-cases (symbol == s)) [
            | inl same ↦ ground (arith, no_order symbol more acted)
            | inr apart ↦ ground (arith, rest acted (d.1) later c)
          ]
          | inr (o, e) ↦ elim (Bool-cases (symbol == s)) [
            | inl same ↦ ground (arith, all_sent o, order_at-coin m now balances s ton' x acted o e)
            | inr apart ↦ ground (
              arith,
              all_sent o,
              order_at-coin m now balances s ton' x acted o e,
              rest (insert s now acted) (d.1) later c,
              lookup-insert symbol s now acted,
            )
          ]
        ]
      ]

switch_none :
    (may : Bool) (symbol balance : ℕ) (e : CoinLimits)
    → e.min_balance ≤ e.max_balance
    → (order_for may symbol e balance ≡ none)
      ↔ (((e.min_balance ≤ balance) × (balance ≤ e.max_balance)) ⊎ (may ≡ false))
unfolding order_for
switch_none may symbol balance e le = ground arith

switch_amount :
    (may : Bool) (symbol balance : ℕ) (e : CoinLimits) (o : Order)
    → order_for may symbol e balance ≡ some o
    → ((o ≡ top_up symbol (e.max_balance - balance)) × (balance < e.min_balance))
      ⊎ ((o ≡ withdraw symbol (balance - e.max_balance)) × (e.max_balance < balance))
unfolding order_for
switch_amount may symbol balance e o h = ground arith

limits_in_order :
    (m : Manager) (ton : Bool) (l : CoinLimits)
    → let e = effective_limits m.defaults ton l in
      (e.min_balance ≤ e.max_balance) × (ton ≡ true → m.defaults.deploy_amount ≤ e.min_balance)
unfolding effective_limits
limits_in_order m ton l = (ground arith, ground arith)

-- A round of Reconcile in which every configured coin is known and every order is carried out: a
-- coin gets no order exactly when its balance is within its effective limits or it was acted on
-- within the lock time. Otherwise it gets one for the distance to the upper limit: a top-up below
-- the lower limit, a withdrawal above the upper one. The effective limits are in order and keep the
-- reserve of a TON balance.
pub reconcile-orders :
    (m : Manager) (sent : Order → Bool) (now : ℕ) (balances : Dict ℕ) (symbol : ℕ) (ton : Bool)
    (l : CoinLimits)
    → ((o : Order) → sent o ≡ true)
    → IsMap m.limits
    → ((s : ℕ) (x : CoinLimits) → lookup s m.limits ≡ some x → lookup s m.coins ≢ none)
    → lookup symbol m.coins ≡ some ton
    → lookup symbol m.limits ≡ some l
    → let e = effective_limits m.defaults ton l in
      let b = or_zero (lookup symbol balances) in
      let found = find_order symbol ((reconcile m sent now balances).0) in
      (e.min_balance ≤ e.max_balance)
      × (ton ≡ true → m.defaults.deploy_amount ≤ e.min_balance)
      × ((found ≡ none) ↔ (
          ((e.min_balance ≤ b) × (b ≤ e.max_balance))
          ⊎ (can_act m.defaults now (lookup symbol m.last_action) ≡ false)))
      × ((o : Order)
          → found ≡ some o
          → ((o ≡ top_up symbol (e.max_balance - b)) × (b < e.min_balance))
            ⊎ ((o ≡ withdraw symbol (b - e.max_balance)) × (e.max_balance < b)))
unfolding reconcile
reconcile-orders m sent now balances symbol ton l all_sent d k c h =
    let e = effective_limits m.defaults ton l in
    let b = or_zero (lookup symbol balances) in
    let may = can_act m.defaults now (lookup symbol m.last_action) in
    let found =
      loop-orders m sent now balances all_sent symbol ton l m.limits m.last_action d k c h in
    let (le, reserve) = limits_in_order m ton l in
    (
      le,
      reserve,
      rw (found) (switch_none may symbol b e le),
      λ o x. switch_amount may symbol b e o (sym found ∙ x),
    )

-- ===== src/Monitor/Entry.antt =====
-- When a position counts as open.
use ton_payment_network.Base.{
  ℕ, ◌<◌, ◌≡◌, Bool, false, ◌||◌, List, [], ◌∷◌, if◌then◌else◌, arith, Option-cases,
}
use ton_payment_network.Base.Int.{ℤ, pos, leb_ℤ}
use ton_payment_network.Conditionals.Resolvable.Defs.{ConditionalResolvable}
use ton_payment_network.Monitor.{
  MonitorState, fresh, widen, cross, liquidate, apply_price_sample, apply_samples, at_least,
  at_most,
}

-- A price at which the incoming position opens: at the entry or above it for a long one, at the
-- entry or below it for a short one.
abbrev pub reaches_entry : ConditionalResolvable → ℤ → Bool
reaches_entry c price =
    if c.details.is_long
    then leb_ℤ (pos c.details.entry_price) price
    else leb_ℤ price (pos c.details.entry_price)

abbrev pub any_reaches : ConditionalResolvable → List (ℕ × ℤ) → Bool
any_reaches c [] = false
any_reaches c ((at, price) ∷ more) = let rest = any_reaches c more in reaches_entry c price || rest

-- The range says by itself what `entry_crossed` says.
abbrev IsTracked : ConditionalResolvable → MonitorState → Type 0
IsTracked c m = m.entry_crossed ≡ (
    if c.details.is_long
    then at_least m.max_price c.details.entry_price
    else at_most m.min_price c.details.entry_price)

sample-IsTracked :
    (c : ConditionalResolvable) (at : ℕ) (price : ℤ) (m : MonitorState)
    → 0 < c.details.entry_price
    → IsTracked c m
    → IsTracked c ((apply_price_sample c (at, price) m).0)
      × ((apply_price_sample c (at, price) m).0.entry_crossed
          ≡ (m.entry_crossed || reaches_entry c price))
unfolding apply_price_sample widen cross liquidate
sample-IsTracked c at price m p w =
    ground (arith, Option-cases m.min_price, Option-cases m.max_price)

samples-crossed :
    (c : ConditionalResolvable) (samples : List (ℕ × ℤ)) (m : MonitorState)
    → 0 < c.details.entry_price
    → IsTracked c m
    → (apply_samples c samples m).entry_crossed ≡ (m.entry_crossed || any_reaches c samples)
unfolding apply_samples
samples-crossed c [] m p w = ground arith
samples-crossed c ((at, price) ∷ more) m p w =
    let (next, step) = sample-IsTracked c at price m p w in
    ground (arith, step, samples-crossed c more ((apply_price_sample c (at, price) m).0) p next)

-- A position is open exactly when one of the prices seen since the start has reached its entry, in
-- whatever order the prices came and however they moved afterwards.
pub apply_samples-entry_crossed :
    (c : ConditionalResolvable) (last : ℕ) (samples : List (ℕ × ℤ))
    → 0 < c.details.entry_price
    → (apply_samples c samples (fresh last)).entry_crossed ≡ any_reaches c samples
apply_samples-entry_crossed c last samples p =
    samples-crossed c samples (fresh last) p (ground arith)

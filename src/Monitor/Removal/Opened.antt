-- ===== src/Monitor/Removal/Opened.antt =====
-- Which prices make an order impossible to remove.
use ton_payment_network.Base.{
  ℕ, ◌<◌, ◌≡◌, Bool, true, false, ◌||◌, Option, none, some, List, [], ◌∷◌, Result, ok, err, refl,
  if◌then◌else◌, arith, Option-cases,
}
use ton_payment_network.Base.Int.{ℤ, pos, leb_ℤ}
use ton_payment_network.Db.Metas.{Meta}
use ton_payment_network.Conditionals.Resolvable.Defs.{ConditionalResolvable}
use ton_payment_network.Monitor.{
  MonitorState, fresh, widen, cross, liquidate, apply_price_sample, apply_samples, at_least,
  at_most,
}
use ton_payment_network.Monitor.Removal.{
  RefreshError, already_opened, incoming_key_for_remove, canonical_is_long, order_opened,
  can_remove_without_history, ensure_derivative_removable,
}

-- A price at which the order opens: for a long one at the entry or below it, for a short one at the
-- entry or above it.
abbrev pub opens_at : Bool → ConditionalResolvable → ℤ → Bool
opens_at is_long c price =
    if is_long
    then leb_ℤ price (pos c.details.entry_price)
    else leb_ℤ (pos c.details.entry_price) price

abbrev pub any_opens : Bool → ConditionalResolvable → List (ℕ × ℤ) → Bool
any_opens is_long c [] = false
any_opens is_long c ((at, price) ∷ more) =
    let rest = any_opens is_long c more in opens_at is_long c price || rest

abbrev has : Option ℤ → Bool
has none = false
has (some m) = true

abbrev in_range : Bool → ConditionalResolvable → MonitorState → Bool
in_range is_long c m =
    if is_long
    then at_most m.min_price c.details.entry_price
    else at_least m.max_price c.details.entry_price

-- The range, the history flag, and that nothing counts as crossed before the first price
abbrev IsSeen : MonitorState → Type 0
IsSeen m =
    (m.history_too_old ≡ false)
    × ((has m.min_price ≡ false) → m.entry_crossed ≡ false)
    × ((has m.max_price ≡ false) → m.entry_crossed ≡ false)

sample-in_range :
    (is_long : Bool) (c : ConditionalResolvable) (at : ℕ) (price : ℤ) (m : MonitorState)
    → in_range is_long c ((apply_price_sample c (at, price) m).0)
      ≡ (in_range is_long c m || opens_at is_long c price)
unfolding apply_price_sample widen cross liquidate
sample-in_range is_long c at price m =
    ground (arith, Option-cases m.min_price, Option-cases m.max_price)

sample-range :
    (c : ConditionalResolvable) (at : ℕ) (price : ℤ) (m : MonitorState)
    → m.history_too_old ≡ false
    → ((apply_price_sample c (at, price) m).0.history_too_old ≡ false)
      × (has ((apply_price_sample c (at, price) m).0.min_price) ≡ true)
      × (has ((apply_price_sample c (at, price) m).0.max_price) ≡ true)
unfolding apply_price_sample widen cross liquidate
sample-range c at price m h = ground (arith, Option-cases m.min_price, Option-cases m.max_price)

sample-IsSeen :
    (c : ConditionalResolvable) (at : ℕ) (price : ℤ) (m : MonitorState)
    → IsSeen m
    → IsSeen ((apply_price_sample c (at, price) m).0)
sample-IsSeen c at price m w =
    let (old, low, high) = sample-range c at price m (w.0) in
    (old, (λ e. ground (arith, e, low)), λ e. ground (arith, e, high))

samples-in_range :
    (is_long : Bool) (c : ConditionalResolvable) (samples : List (ℕ × ℤ)) (m : MonitorState)
    → IsSeen m
    → IsSeen (apply_samples c samples m)
      × (in_range is_long c (apply_samples c samples m)
          ≡ (in_range is_long c m || any_opens is_long c samples))
unfolding apply_samples
samples-in_range is_long c [] m w = (w, ground arith)
samples-in_range is_long c ((at, price) ∷ more) m w =
    let (seen, rest) = samples-in_range is_long c more _ (sample-IsSeen c at price m w) in
    (seen, ground (arith, rest, sample-in_range is_long c at price m))

order_opened-in_range :
    (key : ℕ → ℕ) (meta : Meta) (c : ConditionalResolvable) (m : MonitorState)
    → 0 < c.details.entry_price
    → IsSeen m
    → order_opened key meta c m ≡ in_range (canonical_is_long key meta c) c m
unfolding order_opened
order_opened-in_range key meta c m p w =
    ground (arith, Option-cases m.min_price, Option-cases m.max_price)

-- A derivative with an entry price, whose incoming side has been watched since it was opened, is
-- removable exactly while none of the prices seen has opened the order, in the order's own
-- direction; from the first such price on the removal is refused, however the prices move later.
pub ensure_derivative_removable-unopened :
    (key : ℕ → ℕ) (hedged : Meta → Bool)
    (refresh : ℕ → Result RefreshError (Meta × ConditionalResolvable × MonitorState))
    (load : ℕ → Result RefreshError Meta) (outgoing : Meta) (incoming : ℕ) (meta : Meta)
    (c : ConditionalResolvable) (samples : List (ℕ × ℤ)) (last : ℕ)
    → 0 < c.details.entry_price
    → incoming_key_for_remove outgoing ≡ some incoming
    → refresh incoming ≡ ok (meta, c, apply_samples c samples (fresh last))
    → ensure_derivative_removable key hedged refresh load outgoing
      ≡ (if any_opens (canonical_is_long key meta c) c samples then err already_opened else ok tt)
unfolding ensure_derivative_removable can_remove_without_history
ensure_derivative_removable-unopened key hedged refresh load outgoing incoming meta c samples last p
      k r =
    let (seen, range) =
      samples-in_range (canonical_is_long key meta c) c samples (fresh last)
        (refl, (λ e. refl), λ e. refl) in
    ground (
      arith,
      range,
      seen.0,
      order_opened-in_range key meta c (apply_samples c samples (fresh last)) p seen,
    )

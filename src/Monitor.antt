-- ===== src/Monitor.antt =====
-- tonpayments/derivatives_worker.go: what the price worker knows of an open derivative, and how one
-- price sample changes it.
pub mod Entry
pub mod Liquidation
pub mod Removal
use ton_payment_network.Base.{
  ℕ, ◌≡◌, Bool, true, false, not, ◌&&◌, ◌||◌, Option, none, some, List, [], ◌∷◌, leb, ltb, ◌==◌,
  if◌then◌else◌,
}
use ton_payment_network.Base.Int.{ℤ, pos, div_ℤ, ◌*ℤ◌, ltb_ℤ, leb_ℤ}
use ton_payment_network.Conditionals.Resolvable.Defs.{Details, ConditionalResolvable, delta}

-- `derivativeMonitorState`: its decimal strings are the numbers that they spell, the empty one none.
pub record MonitorState : Type 0 where
  pub last_checked_at : ℕ
  pub min_price : Option ℤ
  pub max_price : Option ℤ
  pub entry_crossed : Bool
  pub entry_crossed_at : ℕ
  pub liquidated : Bool
  pub liquidated_at : ℕ
  pub liquidated_price : Option ℤ
  pub liquidation_payout : Option ℤ
  pub history_too_old : Bool
  pub history_too_old_at : ℕ

-- What `parseDerivativeMonitor` makes for a derivative without a monitor
abbrev pub fresh : ℕ → MonitorState
fresh last = record {
  last_checked_at = last;
  min_price = none;
  max_price = none;
  entry_crossed = false;
  entry_crossed_at = 0;
  liquidated = false;
  liquidated_at = 0;
  liquidated_price = none;
  liquidation_payout = none;
  history_too_old = false;
  history_too_old_at = 0;
}

-- `calcDerivativeROI`
unfoldable pub calc_derivative_roi : ConditionalResolvable → ℤ → ℤ
calc_derivative_roi c price =
    if leb_ℤ c.amount (pos 0) || c.details.leverage == 0 || c.details.entry_price == 0
    then pos 0
    else (let d = delta c.details.is_long price c.details.entry_price in
        let r = div_ℤ (d *ℤ c.amount *ℤ pos c.details.leverage) c.details.entry_price in
        if leb_ℤ d (pos 0) then pos 0 else (if ltb_ℤ r (pos 0) then pos 0 else r))

abbrev pub is_lower : ℤ → Option ℤ → Bool
is_lower price none = true
is_lower price (some m) = ltb_ℤ price m

abbrev pub is_higher : ℤ → Option ℤ → Bool
is_higher price none = true
is_higher price (some m) = ltb_ℤ m price

abbrev pub at_least : Option ℤ → ℕ → Bool
at_least none entry = false
at_least (some m) entry = leb_ℤ (pos entry) m

abbrev pub at_most : Option ℤ → ℕ → Bool
at_most none entry = false
at_most (some m) entry = leb_ℤ m (pos entry)

-- The first part of `applyDerivativePriceSample`: the lowest and the highest price
unfoldable pub widen : ℤ → MonitorState → MonitorState
widen price m = record m {
  min_price = if is_lower price m.min_price then some price else m.min_price;
  max_price = if is_higher price m.max_price then some price else m.max_price;
}

-- The second part: whether the price has reached the entry
unfoldable pub cross : ConditionalResolvable → ℕ → MonitorState → MonitorState
cross c at m =
    if not m.entry_crossed
      && ltb 0 c.details.entry_price
      && (if c.details.is_long
          then at_least m.max_price c.details.entry_price
          else at_most m.min_price c.details.entry_price)
    then record m {
      entry_crossed = true;
      entry_crossed_at = if m.entry_crossed_at == 0 then at else m.entry_crossed_at;
    }
    else m

-- The third part's test: an open position whose profit has reached the amount
unfoldable pub liquidates : ConditionalResolvable → ℤ → MonitorState → Bool
liquidates c price m =
    m.entry_crossed
    && not m.liquidated
    && ltb_ℤ (pos 0) c.amount
    && leb_ℤ c.amount (calc_derivative_roi c price)

unfoldable pub liquidate : ConditionalResolvable → ℕ → ℤ → MonitorState → MonitorState
liquidate c at price m =
    if liquidates c price m
    then record m {
      liquidated = true;
      liquidated_at = at;
      liquidated_price = some price;
      liquidation_payout = some c.amount;
    }
    else m

-- `applyDerivativePriceSample`: the new state, and whether it became liquidated now
unfoldable pub apply_price_sample :
    ConditionalResolvable → ℕ × ℤ → MonitorState → MonitorState × Bool
apply_price_sample c (at, price) m =
    let seen = cross c at (widen price m) in (liquidate c at price seen, liquidates c price seen)

-- One sample after another, as the worker applies them
unfoldable pub apply_samples : ConditionalResolvable → List (ℕ × ℤ) → MonitorState → MonitorState
apply_samples c [] m = m
apply_samples c (s ∷ more) m = apply_samples c more ((apply_price_sample c s m).0)

-- ===== src/Monitor/Liquidation.antt =====
-- A liquidation: earned by a price, final, and covered by the other side of the pair.
use ton_payment_network.Base.{
  ℕ, ◌<◌, ◌≡◌, refl, true, false, Option, some, List, [], ◌∷◌, arith, ◌⊎◌, inl, inr,
}
use ton_payment_network.Base.Int.{ℤ, pos, abs, ◌≤ℤ◌, ◌<ℤ◌, ◌+ℤ◌, +ℤ_parts}
use ton_payment_network.Conditionals.{Action}
use ton_payment_network.Conditionals.Resolvable.Defs.{
  ConditionalResolvable, roi, expected_amount, capped,
}
use ton_payment_network.Conditionals.Resolvable.Settle.{build_linked}
use ton_payment_network.Conditionals.Resolvable.Pairs.{linked-mirror, expected_lem}
use ton_payment_network.Monitor.{
  MonitorState, widen, cross, liquidates, liquidate, apply_price_sample, apply_samples,
  calc_derivative_roi,
}

abbrev pub IsAmong : ℕ × ℤ → List (ℕ × ℤ) → Type 0
IsAmong s [] = ⊥
IsAmong s (x ∷ more) = (s ≡ x) ⊎ IsAmong s more

-- The two monitors tell the same liquidation.
abbrev pub IsSame : MonitorState → MonitorState → Type 0
IsSame m n =
    (m.liquidated ≡ n.liquidated)
    × (m.liquidated_at ≡ n.liquidated_at)
    × (m.liquidated_price ≡ n.liquidated_price)
    × (m.liquidation_payout ≡ n.liquidation_payout)

step-final :
    (c : ConditionalResolvable) (s : ℕ × ℤ) (m : MonitorState)
    → m.liquidated ≡ true
    → IsSame ((apply_price_sample c s m).0) m
unfolding apply_price_sample widen cross liquidate liquidates
step-final c s m h = ground arith

samples-final :
    (c : ConditionalResolvable) (samples : List (ℕ × ℤ)) (m : MonitorState)
    → m.liquidated ≡ true
    → IsSame (apply_samples c samples m) m
unfolding apply_samples
samples-final c [] m h = (refl, refl, refl, refl)
samples-final c (s ∷ more) m h =
    let one = step-final c s m h in
    ground (arith, one, samples-final c more ((apply_price_sample c s m).0))

step-earned :
    (c : ConditionalResolvable) (at : ℕ) (price : ℤ) (m : MonitorState)
    → m.liquidated ≡ false
    → let m' = (apply_price_sample c (at, price) m).0 in
      (m'.liquidated ≡ false)
      ⊎ ((m'.liquidated ≡ true)
          × (m'.liquidated_at ≡ at)
          × (m'.liquidated_price ≡ some price)
          × (m'.liquidation_payout ≡ some c.amount)
          × (pos 0 <ℤ c.amount)
          × (c.amount ≤ℤ calc_derivative_roi c price))
unfolding apply_price_sample widen cross liquidate liquidates
step-earned c at price m h = ground arith

profit :
    (c : ConditionalResolvable) (price : ℤ)
    → pos 0 <ℤ c.amount
    → c.amount ≤ℤ calc_derivative_roi c price
    → (0 < c.details.entry_price) × (c.amount ≤ℤ roi c price)
unfolding calc_derivative_roi roi
profit c price p h = (ground arith, ground arith)

capped_above : (cap x : ℤ) → pos 0 <ℤ cap → cap ≤ℤ x → capped cap x ≡ cap
capped_above cap x p h = ground arith

owes_all :
    (c m : ConditionalResolvable) (price : ℤ)
    → m.amount ≡ c.amount
    → roi c price +ℤ roi m price ≤ℤ pos 0
    → pos 0 <ℤ c.amount
    → c.amount ≤ℤ roi c price
    → expected_amount m price ≡ c.amount
owes_all c m price a le p h =
    let sum = +ℤ_parts (roi c price) (roi m price) in
    ground (
      arith,
      sum,
      expected_lem m price (rw (a) (ground arith)),
      capped_above c.amount (pos (abs (roi m price))) p,
    )

-- A liquidation is earned: its second and price are those of one of the samples, at which the
-- profit had reached the position's amount. It pays exactly that amount, which is what the other
-- side of the pair owes at that price. Later samples do not change it.
pub apply_samples-liquidated :
    (key : ℕ → ℕ) (reverse : Action → Option Action) (c m : ConditionalResolvable)
    (samples : List (ℕ × ℤ)) (start : MonitorState)
    → build_linked key reverse c ≡ some m
    → start.liquidated ≡ false
    → (apply_samples c samples start).liquidated ≡ true
    → (at : ℕ) × (price : ℤ) × IsAmong (at, price) samples
      × ((apply_samples c samples start).liquidated_at ≡ at)
      × ((apply_samples c samples start).liquidated_price ≡ some price)
      × ((apply_samples c samples start).liquidation_payout ≡ some (expected_amount m price))
      × (c.amount ≤ℤ calc_derivative_roi c price)
      × ((later : List (ℕ × ℤ))
          → IsSame
              (apply_samples c later (apply_samples c samples start))
              (apply_samples c samples start))
unfolding apply_samples
apply_samples-liquidated key reverse c m [] start b open' h = absurd (ground arith)
apply_samples-liquidated key reverse c m ((at, price) ∷ more) start b open' h =
    let next = (apply_price_sample c (at, price) start).0 in
    elim (step-earned c at price start open') [
      | inl still ↦
          let (t, p, i, when, at_price, paid, r, last) =
            apply_samples-liquidated key reverse c m more next b still h in
          (t, p, inr i, when, at_price, paid, r, last)
      | inr (yes', t, p, paid, a, r) ↦
          let (entry, gain) = profit c price a r in
          let pair = linked-mirror key reverse c m price b entry in
          let owed = owes_all c m price (pair.0) (pair.2) a gain in
          let final = samples-final c more next yes' in
          (
            at,
            price,
            inl refl,
            ground arith,
            ground arith,
            ground arith,
            r,
            λ later. samples-final c later _ h,
          )
    ]

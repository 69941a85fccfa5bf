-- ===== src/Exchange/Rents/Price.antt =====
-- `CalcDepositFee`: the fee against the exact price.
use native.Mathlib.Nat.{div-add-mod', mod-lt, mul-le-mul_right, one-le-pow, mul-add, add-mul}
use ton_payment_network.Base.{
  ℕ, ◌+◌, ◌-◌, ◌*◌, ◌/◌, ◌≤◌, ◌<◌, ◌≡◌, ap, sym, ◌∙◌, Option, some, ok, arith, inl, inr, Bool-cases,
  ltb,
}
use ton_payment_network.Balance.{Float64, CoinConfig, LockedDepositInfo}
use ton_payment_network.Exchange.Rents.{divisor, extension, growth, price_for, rate_of, fee_at}

-- A quotient rounded up
rounded_up : (n d : ℕ) → 0 < d → (n ≤ (n + (d - 1)) / d * d) × ((n + (d - 1)) / d * d < n + d)
rounded_up n d h =
    let split = div-add-mod' (n + (d - 1)) d in
    let rest = mod-lt (n + (d - 1)) h in (omega arith, omega arith)

divisor_pos : (k : ℕ) → 0 < divisor k
divisor_pos k = let p = one-le-pow k 2 (omega arith) in omega arith

later_rounds_up : (n e d : ℕ) → 0 < d → d ≤ e → (n + (d - 1)) / d < (n + e + (d - 1)) / d
later_rounds_up n e d h le =
    let q = (n + (d - 1)) / d in
    let q' = (n + e + (d - 1)) / d in
    let low = rounded_up n d h in
    let high = rounded_up (n + e) d h in
    elim (Bool-cases (ltb q q')) [
      | inl less ↦ ground arith
      | inr more ↦
          let back : q' * d ≤ q * d = mul-le-mul_right d (ground arith) in absurd (omega arith)
    ]

one_more : (x g l m : ℕ) → (x + g * (l + 1)) * m ≡ (x + g * l) * m + g * m
one_more x g l m =
    let spread = mul-add g l 1 in
    let inner : x + g * (l + 1) ≡ x + g * l + g = omega arith in
    ap (λ z. z * m) inner ∙ add-mul (x + g * l) g m

module _ (hundredth : Float64 → Float64) (cc : CoinConfig) (amount till : ℕ)
    (ld : Option LockedDepositInfo) (m k : ℕ) (rate : rate_of hundredth cc ≡ some (m, k))
    (grows : 0 < growth ld amount) where
  price_of :
      (left fee : ℕ)
      → 0 < left
      → fee_at hundredth cc amount left till ld ≡ ok fee
      → price_for
          (m, k)
          cc.virtual_tunnel_config.capacity_deposit_fee
          left
          till
          ld
          (growth ld amount)
        ≡ fee
  unfolding fee_at
  price_of left fee some_left h = ground arith

  -- The fee of a deposit that grows, while time is left, covers the exact price and no more than
  -- rounding it up: with the fixed fee taken off, it is not below the price of the added coins for the
  -- time that is left and of the free ones for the time that is added, and less than one unit above.
  pub fee_at-covers :
      (left fee : ℕ)
      → 0 < left
      → fee_at hundredth cc amount left till ld ≡ ok fee
      → let price = (extension ld till + growth ld amount * left) * m in
        let fixed = cc.virtual_tunnel_config.capacity_deposit_fee in
        (fixed ≤ fee)
        × (price ≤ (fee - fixed) * divisor k)
        × ((fee - fixed) * divisor k < price + divisor k)
  unfolding price_for
  fee_at-covers left fee some_left h =
      let is = price_of left fee some_left h in
      let bounds =
        rounded_up ((extension ld till + growth ld amount * left) * m) (divisor k)
          (divisor_pos k) in
      let q = ((extension ld till + growth ld amount * left) * m + (divisor k - 1)) / divisor k in
      let only : fee - cc.virtual_tunnel_config.capacity_deposit_fee ≡ q = omega (arith, is) in
      (omega (arith, is), rw only bounds.0, rw only bounds.1)

  -- A second counts: both parties take the time that is left from their own clocks, and where a second
  -- of the added coins costs a unit or more, one second more or less is another fee.
  pub fee_at-second_counts :
      (left fee later : ℕ)
      → 0 < left
      → divisor k ≤ growth ld amount * m
      → fee_at hundredth cc amount (left + 1) till ld ≡ ok fee
      → fee_at hundredth cc amount left till ld ≡ ok later
      → later < fee
  unfolding price_for
  fee_at-second_counts left fee later some_left unit h g =
      let is = price_of (left + 1) fee (omega arith) h in
      let was = price_of left later some_left g in
      let x = extension ld till + growth ld amount * left in
      let more = later_rounds_up (x * m) (growth ld amount * m) (divisor k) (divisor_pos k) unit in
      let next = one_more (extension ld till) (growth ld amount) left m in
      let is_more : (x * m + growth ld amount * m + (divisor k - 1)) / divisor k
            + cc.virtual_tunnel_config.capacity_deposit_fee
          ≡ fee =
        ap (λ z. (z + (divisor k - 1)) / divisor k + cc.virtual_tunnel_config.capacity_deposit_fee)
          (sym next)
        ∙ is in
      omega (arith, is_more, was, more)

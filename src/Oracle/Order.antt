-- ===== src/Oracle/Order.antt =====
-- The last price: the newest one that the cache has, which a request for its second gives again.
use ton_payment_network.Base.{
  ℕ, zero, suc, ◌+◌, ◌-◌, ◌≤◌, ◌<◌, ◌≡◌, none, some, Option-cases, inl, inr, ok, err, arith,
}
use ton_payment_network.Base.Int.{ℤ, pos}
use ton_payment_network.Conditionals.Resolvable.Defs.{unavailable}
use ton_payment_network.Oracle.{
  Resolver, price_error, sample, get_price_at, walk_back, get_last_price,
}
use ton_payment_network.Oracle.Ring.{get_price_at_lem}

module _ {Proof : Type 0} where
  walk_back-finds :
      (r : Resolver Proof) (n i at : ℕ) (price : ℤ)
      → walk_back r i n ≡ ok (at, price)
      → (sample r at ≡ some price)
        × (at ≤ r.latest)
        × (r.latest < at + (i + n))
        × ((x : ℕ) → at < x → x + i ≤ r.latest → sample r x ≡ none)
  unfolding walk_back
  walk_back-finds r zero i at price h = absurd (ground arith)
  walk_back-finds r (suc n) i at price h = elim (Option-cases (sample r (r.latest - i))) [
    | inl nil ↦
        let (found, le, near, newest) = walk_back-finds r n (suc i) at price (ground arith) in
        (found, le, omega arith, λ x lt le. ground (arith, newest x))
    | inr (p, e) ↦ (ground arith, ground arith, ground arith, λ x lt le. absurd (ground arith))
  ]

  -- The last price is a price of the window: asking for its second gives the same price, and every
  -- later second up to the latest one has none.
  get_last_price-newest :
      (r : Resolver Proof) (at : ℕ) (price : ℤ)
      → get_last_price r ≡ ok (at, price)
      → (get_price_at r (pos at) ≡ ok price)
        × ((x : ℕ) → at < x → x ≤ r.latest → get_price_at r (pos x) ≡ err (price_error unavailable))
  unfolding get_last_price
  get_last_price-newest r at price h =
      let (found, le, near, newest) = walk_back-finds r 120 0 at price (ground arith) in
      (
        ground (arith, get_price_at_lem r at),
        λ x lt up. ground (arith, get_price_at_lem r x, newest x),
      )

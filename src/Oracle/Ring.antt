-- ===== src/Oracle/Ring.antt =====
-- Writing to the cache: the new sample can be read, and no other second of the window is lost.
use native.Mathlib.Omega.{arith}
use ton_payment_network.Base.{
  ℕ, ◌+◌, ◌%◌, ◌≤◌, ◌<◌, ◌≡◌, ◌≢◌, leb, ltb, ◌==◌, if◌then◌else◌, Bool, Option-cases, inl, inr,
  none, some, List, [], ◌∷◌, ok, err, or_raise,
}
use ton_payment_network.Base.Int.{ℤ, pos, ◌-ℤ◌}
use ton_payment_network.Base.Dict.{lookup, lookup-insert}
use ton_payment_network.Conditionals.Resolvable.Defs.{no_data, too_new, too_old, unavailable}
use ton_payment_network.Oracle.{
  RangePrice, Resolver, price_error, window, sample, get_price_at, set_price, store_price,
  store_prices,
}

window_slot :
    (a b latest : ℕ)
    → a ≤ latest
    → b ≤ latest
    → latest < a + 120
    → latest < b + 120
    → a % 120 ≡ b % 120
    → a ≡ b
window_slot a b latest h1 h2 h3 h4 e = omega arith

module _ {Proof : Type 0} where
  -- Every slot that was written has a timestamp of that slot, no later than the latest one.
  abbrev pub IsCache : Resolver Proof → Type 0
  IsCache r = (i at : ℕ) → lookup i r.timestamps ≡ some at → (at % window ≡ i) × (at ≤ r.latest)

  set_price-IsCache :
      (r : Resolver Proof) (at : ℕ) (price : ℤ) → IsCache r → IsCache (set_price r at price)
  unfolding set_price
  set_price-IsCache r at price h i x e =
      ground (arith, h i x, lookup-insert i (at % window) at r.timestamps)

  store_price-IsCache :
      (verified : Proof → Bool) (r : Resolver Proof) (p : RangePrice Proof)
      → IsCache r
      → IsCache (store_price verified r p)
  unfolding store_price
  store_price-IsCache verified r p h i x e = elim (Option-cases p.price) [
    | inl nil ↦ ground (arith, h i x)
    | inr (price, q) ↦ ground (arith, set_price-IsCache r p.at price h i x, Option-cases p.proof)
  ]

  -- A cache stays one through any batch of samples: every written slot has the timestamp of a second
  -- of that slot, and none is later than the latest one.
  store_prices-IsCache :
      (verified : Proof → Bool) (r : Resolver Proof) (ps : List (RangePrice Proof))
      → IsCache r
      → IsCache (store_prices verified r ps)
  unfolding store_prices
  store_prices-IsCache verified r [] h = h
  store_prices-IsCache verified r (p ∷ more) h =
      store_prices-IsCache verified (store_price verified r p) more
        (store_price-IsCache verified r p h)

  sample-set_price :
      (r : Resolver Proof) (at x : ℕ) (price : ℤ)
      → sample (set_price r at price) x
        ≡ (if x % 120 == at % 120 then (if x == at then some price else none) else sample r x)
  unfolding sample set_price
  sample-set_price r at x price = ground (
    arith,
    lookup-insert (x % 120) (at % 120) at r.timestamps,
    lookup-insert (x % 120) (at % 120) price r.prices,
  )

  sample-after_latest : (r : Resolver Proof) (x : ℕ) → IsCache r → r.latest < x → sample r x ≡ none
  unfolding sample
  sample-after_latest r x h late = elim (Option-cases (lookup (x % 120) r.timestamps)) [
    | inl nil ↦ ground arith
    | inr (t, e) ↦ ground (arith, h (x % 120) t e)
  ]

  sample-store_price :
      (verified : Proof → Bool) (r : Resolver Proof) (p : RangePrice Proof) (price : ℤ) (x : ℕ)
      → p.price ≡ some price
      → (sample (store_price verified r p) x ≡ sample (set_price r p.at price) x)
        × ((store_price verified r p).latest ≡ (if ltb r.latest p.at then p.at else r.latest))
  unfolding store_price sample set_price
  sample-store_price verified r p price x e = ground (arith, Option-cases p.proof)

  pub get_price_at_lem :
      (r : Resolver Proof) (x : ℕ)
      → get_price_at r (pos x) ≡ (
          if r.latest == 0
          then err (price_error no_data)
          else (if ltb r.latest x
              then err (price_error too_new)
              else (if leb (x + 120) r.latest
                  then err (price_error too_old)
                  else or_raise (sample r x) (price_error unavailable))))
  unfolding get_price_at ◌-ℤ◌
  get_price_at_lem r x = ground arith

  -- Storing a sample of a second that is not behind the window: it is what the cache answers for
  -- that second from then on; every second of the window that the cache had before has the answer
  -- it had; and the seconds skipped since the latest one are unavailable, not too new.
  pub store_price-get_price_at :
      (verified : Proof → Bool) (r : Resolver Proof) (p : RangePrice Proof) (price : ℤ)
      → IsCache r
      → p.price ≡ some price
      → 0 < p.at
      → r.latest < p.at + 120
      → (get_price_at (store_price verified r p) (pos p.at) ≡ ok price)
        × ((x : ℕ)
            → x ≢ p.at
            → 0 < r.latest
            → x ≤ r.latest
            → p.at < x + 120
            → r.latest < x + 120
            → get_price_at (store_price verified r p) (pos x) ≡ get_price_at r (pos x))
        × ((x : ℕ)
            → r.latest < x
            → x < p.at
            → p.at < x + 120
            → get_price_at (store_price verified r p) (pos x) ≡ err (price_error unavailable))
  store_price-get_price_at verified r p price h e late w =
      let after = store_price verified r p in
      let stored = λ (x : ℕ). sample-store_price verified r p price x e in
      let read = λ (x : ℕ). sample-set_price r p.at x price in
      (
        ground (arith, get_price_at_lem after p.at, stored p.at, read p.at),
        λ x ne n le f g. ground (
          arith,
          get_price_at_lem after x,
          get_price_at_lem r x,
          stored x,
          read x,
          window_slot x p.at (store_price verified r p).latest,
        ),
        λ x n le f. ground (
          arith,
          get_price_at_lem after x,
          stored x,
          read x,
          window_slot x p.at p.at,
          sample-after_latest r x h n,
        ),
      )

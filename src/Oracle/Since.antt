-- ===== src/Oracle/Since.antt =====
-- The prices since a second: all that the cache has, oldest first.
use ton_payment_network.Base.{
  ℕ, zero, suc, ◌+◌, ◌-◌, ◌≤◌, ◌≡◌, true, false, leb, ltb, ◌==◌, ◌&&◌, ◌||◌, if◌then◌else◌, Bool,
  Option, none, some, Option-cases, Result, ok, err, arith, List, [], ◌∷◌,
}
use ton_payment_network.Base.Int.{ℤ, pos}
use ton_payment_network.Base.Dict.{lookup}
use ton_payment_network.Oracle.{
  Resolver, OracleError, sample, get_price_at, collect, first_since, get_prices_since,
}
use ton_payment_network.Oracle.Ring.{get_price_at_lem}

-- The seconds of a list rise, from `from` on.
abbrev pub IsRising : {A : Type 0} → ℕ → List (ℕ × A) → Type 0
IsRising from [] = Unit
IsRising from ((at, a) ∷ more) = (from ≤ at) × IsRising (suc at) more

abbrev pub found : Result OracleError ℤ → Option ℤ
found (ok p) = some p
found (err e) = none

module _ {A : Type 0} (f : ℕ → Option A) where
  lookup-collect :
      (x at n : ℕ) → lookup x (collect f at n) ≡ (if leb at x && ltb x (at + n) then f x else none)
  unfolding lookup collect
  lookup-collect x at zero = ground arith
  lookup-collect x at (suc n) = ground (arith, lookup-collect x (suc at) n, Option-cases (f at))

  weaken : (from to : ℕ) (l : List (ℕ × A)) → to ≤ from → IsRising from l → IsRising to l
  weaken from to [] h r = tt
  weaken from to ((at, a) ∷ more) h r = (ground arith, r.1)

  IsRising-next :
      (at : ℕ) (rest : List (ℕ × A)) (o : Option A)
      → IsRising (suc at) rest
      → IsRising at (elim o [ some a ↦ (at, a) ∷ rest | none ↦ rest ])
  IsRising-next at rest (some a) h = (ground arith, h)
  IsRising-next at rest none h = weaken (suc at) at rest (ground arith) h

  collect-IsRising : (at n : ℕ) → IsRising at (collect f at n)
  unfolding collect
  collect-IsRising at zero = tt
  collect-IsRising at (suc n) =
      IsRising-next at (collect f (suc at) n) (f at) (collect-IsRising (suc at) n)

  IsRising-or_empty :
      (from : ℕ) (b : Bool) (l : List (ℕ × A))
      → IsRising from l
      → IsRising from (if b then [] else l)
  IsRising-or_empty from true l h = tt
  IsRising-or_empty from false l h = h

module _ {Proof : Type 0} where
  -- `GetPricesSince` gives, for every later second, what `GetPriceAt` gives for it, and nothing for
  -- the seconds that one refuses; each second stands once, the oldest first.
  get_prices_since-get_price_at :
      (r : Resolver Proof) (since : ℕ)
      → ((x : ℕ)
          → lookup x (get_prices_since r since)
            ≡ (if ltb since x then found (get_price_at r (pos x)) else none))
        × IsRising (suc since) (get_prices_since r since)
  unfolding get_prices_since first_since lookup
  get_prices_since-get_price_at r since = (
    λ x. ground (
      arith,
      get_price_at_lem r x,
      lookup-collect (sample r) x (first_since r since) (suc (r.latest - first_since r since)),
      Option-cases (sample r x),
    ),
    IsRising-or_empty (sample r) (suc since) (r.latest == 0 || ltb r.latest (first_since r since)) _
        (weaken (sample r) (first_since r since) (suc since) _ (ground arith)
          (collect-IsRising (sample r) (first_since r since) _)),
  )

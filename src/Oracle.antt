-- ===== src/Oracle.antt =====
-- pkg/payments/conditionals/oracle/price.go: the resolver's cache of one price for each of the last
-- 120 seconds.
pub mod Ring
pub mod Order
pub mod Since
use ton_payment_network.Base.{
  ℕ, zero, suc, ◌+◌, ◌-◌, ◌%◌, ◌≡◌, Bool, true, false, not, ◌&&◌, ◌||◌, Option, none, some, List,
  [], ◌∷◌, map, Result, ok, err, ◌>>=◌, ◌>>◌, raise_if, or_raise, leb, ltb, ◌==◌, if◌then◌else◌,
}
use ton_payment_network.Base.Int.{ℤ, pos, negsuc, ◌-ℤ◌, ltb_ℤ, leb_ℤ}
use ton_payment_network.Base.Dict.{Dict, lookup, insert}
use ton_payment_network.Conditionals.Resolvable.Defs.{
  PriceError, too_new, too_old, no_data, unavailable, PriceResolver,
}

-- An error of the resolver, or the panic of an array access with a negative index.
pub data OracleError : Type 0 where
  price_error : PriceError → OracleError
  index_panic : OracleError

-- Stored seconds are Unix seconds, natural numbers; `Proof` is the type of a signed cell.
pub record RangePrice (Proof : Type 0) : Type 0 where
  pub at : ℕ
  pub price : Option ℤ
  pub proof : Option Proof

-- The arrays are dictionaries of the slots that were written; an unwritten slot of `timestamps` is 0
-- and one of `prices` is nil.
pub record Resolver (Proof : Type 0) : Type 0 where
  pub prices : Dict ℤ
  pub timestamps : Dict ℕ
  pub latest : ℕ
  pub proof_cells : Dict Proof
  pub proof_timestamps : Dict ℕ

abbrev pub window : ℕ
window = 120

abbrev pub or_zero : Option ℕ → ℕ
or_zero none = 0
or_zero (some n) = n

abbrev max_ℕ : ℕ → ℕ → ℕ
max_ℕ a b = if ltb a b then b else a

-- The loop of both: the seconds that the cache has, from `at` for `n` seconds.
unfoldable pub collect : {A : Type 0} → (ℕ → Option A) → ℕ → ℕ → List (ℕ × A)
collect f at zero = []
collect f at (suc n) =
    let rest = collect f (suc at) n in elim (f at) [ some a ↦ (at, a) ∷ rest | none ↦ rest ]

module _ {Proof : Type 0} where
  -- The cached price of the second `at`: its slot has that timestamp, and a price.
  unfoldable pub sample : Resolver Proof → ℕ → Option ℤ
  sample r at =
      if or_zero (lookup (at % window) r.timestamps) == at
      then lookup (at % window) r.prices
      else none

  unfoldable pub proof_sample : Resolver Proof → ℕ → Option Proof
  proof_sample r at =
      if or_zero (lookup (at % window) r.proof_timestamps) == at
      then lookup (at % window) r.proof_cells
      else none

  -- What a slot has for a second, negative ones included: -120 * n is slot 0, which never has a
  -- negative timestamp, and the other negative indices are out of range.
  abbrev slot_of : Resolver Proof → ℤ → Result OracleError ℤ
  slot_of r (pos at) = or_raise (sample r at) (price_error unavailable)
  slot_of r (negsuc n) = err (if suc n % window == 0 then price_error unavailable else index_panic)

  -- `GetPriceAt`
  unfoldable pub get_price_at : Resolver Proof → ℤ → Result OracleError ℤ
  get_price_at r at = do
    raise_if (r.latest == 0) (price_error no_data)
    raise_if (ltb_ℤ (pos r.latest) at) (price_error too_new)
    raise_if (leb_ℤ (pos window) (pos r.latest -ℤ at)) (price_error too_old)
    slot_of r at

  -- The loop of `GetLastPrice`: the seconds `latest - i` for the next `n` values of `i`. A negative
  -- one, which is more than -120, is out of range.
  unfoldable pub walk_back : Resolver Proof → ℕ → ℕ → Result OracleError (ℕ × ℤ)
  walk_back r i zero = err (price_error unavailable)
  walk_back r i (suc n) =
      let rest = walk_back r (suc i) n in
      if leb i r.latest
      then elim (sample r (r.latest - i)) [ some p ↦ ok (r.latest - i, p) | none ↦ rest ]
      else err index_panic

  -- `GetLastPrice`: the latest second, and then the 119 before it.
  unfoldable pub get_last_price : Resolver Proof → Result OracleError (ℕ × ℤ)
  get_last_price r = if r.latest == 0 then err (price_error no_data) else walk_back r 0 window

  -- The first second that `GetPricesSince` and `GetSignedPricesSince` look at.
  unfoldable pub first_since : Resolver Proof → ℕ → ℕ
  first_since r since = if leb (suc since + window) r.latest then r.latest - 119 else suc since

  abbrev since_in : {A : Type 0} → Resolver Proof → (ℕ → Option A) → ℕ → List (ℕ × A)
  since_in r f since =
      let from = first_since r since in
      if r.latest == 0 || ltb r.latest from then [] else collect f from (suc (r.latest - from))

  -- `GetPricesSince`
  unfoldable pub get_prices_since : Resolver Proof → ℕ → List (ℕ × ℤ)
  get_prices_since r since = since_in r (sample r) since

  -- `GetSignedPricesSince`, with the second of each cell
  unfoldable pub get_signed_prices_since : Resolver Proof → ℕ → List (ℕ × Proof)
  get_signed_prices_since r since = since_in r (proof_sample r) since

  abbrev keep_proof : (Proof → Bool) → ℕ → Option Proof → Resolver Proof → Resolver Proof
  keep_proof verified at none r = r
  keep_proof verified at (some p) r =
      if verified p
      then record r {
        proof_cells = insert (at % window) p r.proof_cells;
        proof_timestamps = insert (at % window) at r.proof_timestamps;
      }
      else r

  -- The writes of `SetPrice`, at the time `at`
  unfoldable pub set_price : Resolver Proof → ℕ → ℤ → Resolver Proof
  set_price r at price = record r {
    prices = insert (at % window) price r.prices;
    timestamps = insert (at % window) at r.timestamps;
    latest = max_ℕ r.latest at;
  }

  -- One round of `storePrices`: `verified` says that there is no proof key or that the cell's
  -- signature is the key's.
  unfoldable pub store_price : (Proof → Bool) → Resolver Proof → RangePrice Proof → Resolver Proof
  store_price verified r p = elim p.price [
    | none ↦ r
    | some price ↦ keep_proof verified p.at p.proof (set_price r p.at price)
  ]

  unfoldable pub store_prices :
      (Proof → Bool) → Resolver Proof → List (RangePrice Proof) → Resolver Proof
  store_prices verified r [] = r
  store_prices verified r (p ∷ more) = store_prices verified (store_price verified r p) more

  -- A resolver before its provider gave anything
  abbrev pub empty : Resolver Proof
  empty = record {
    prices = [];
    timestamps = [];
    latest = 0;
    proof_cells = [];
    proof_timestamps = [];
  }

abbrev pub strip : {A B : Type 0} → (A → B) → Result OracleError A → Result PriceError B
strip f (ok a) = ok (f a)
strip f (err (price_error e)) = err e
strip f (err index_panic) = err unavailable

-- What a conditional sees of the resolver, when no access panics.
abbrev pub as_price_resolver : {Proof : Type 0} → Resolver Proof → PriceResolver
as_price_resolver r = record {
  price_at = λ at. strip (λ p. p) (get_price_at r at);
  last_price = strip (λ x. (pos x.0, x.1)) (get_last_price r);
}

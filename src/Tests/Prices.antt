-- ===== src/Tests/Prices.antt =====
-- Runs of the oracle's cache: the seconds 999 and 1000 are known, and 1002 is stored.
use ton_payment_network.Base.{
  ℕ, ◌+◌, ◌≤◌, ◌<◌, ◌≡◌, ◌≢◌, refl, Bool, true, none, some, List, [], ◌∷◌, ok, err, arith,
}
use ton_payment_network.Base.Int.{pos}
use ton_payment_network.Base.Dict.{lookup}
use ton_payment_network.Conditionals.Resolvable.Defs.{unavailable}
use ton_payment_network.Oracle.{RangePrice, Resolver, price_error, get_price_at, store_price, empty}
use ton_payment_network.Oracle.Ring.{IsCache, store_price-get_price_at}

abbrev always : ℕ → Bool
always proof = true

abbrev at : ℕ → RangePrice ℕ
at second = record { at = second; price = some (pos 7); proof = none }

abbrev batch : List (RangePrice ℕ)
batch = at 999 ∷ at 1000 ∷ []

abbrev blank : Resolver ℕ
blank = empty

abbrev cache : Resolver ℕ
cache = record {
  prices = (39, pos 7) ∷ (40, pos 7) ∷ [];
  timestamps = (39, 999) ∷ (40, 1000) ∷ [];
  latest = 1000;
  proof_cells = [];
  proof_timestamps = [];
}

nothing-IsCache : IsCache blank
unfolding lookup
nothing-IsCache i second h = absurd (ground arith)

cached : IsCache cache
unfolding lookup
cached i second h = ground arith

store_price-get_price_at_example :
    (get_price_at (store_price always cache (at 1002)) (pos 1002) ≡ ok (pos 7))
    × ((x : ℕ)
        → x ≢ 1002
        → 0 < 1000
        → x ≤ 1000
        → 1002 < x + 120
        → 1000 < x + 120
        → get_price_at (store_price always cache (at 1002)) (pos x) ≡ get_price_at cache (pos x))
    × ((x : ℕ)
        → 1000 < x
        → x < 1002
        → 1002 < x + 120
        → get_price_at (store_price always cache (at 1002)) (pos x) ≡ err (price_error unavailable))
store_price-get_price_at_example =
    store_price-get_price_at always cache (at 1002) (pos 7) cached refl (omega arith) (omega arith)

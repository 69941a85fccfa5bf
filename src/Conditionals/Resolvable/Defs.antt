-- ===== src/Conditionals/Resolvable/Defs.antt =====
-- pkg/payments/conditionals/resolvable.go: the data of a derivative's conditional, its result at a
-- price, and what it accepts, locks and pays.
use ton_payment_network.Base.{
  ℕ, ◌+◌, ◌*◌, ◌/◌, ◌^◌, ◌-◌, Bool, true, false, not, ◌&&◌, ◌||◌, Option, none, some, List, [], ◌∷◌,
  Result, ok, err, ◌>>=◌, ◌>>◌, raise_if, or_raise, ltb, ◌==◌, if◌then◌else◌,
}
use ton_payment_network.Base.Int.{ℤ, pos, abs, div_ℤ, ◌+ℤ◌, ◌-ℤ◌, ◌*ℤ◌, ltb_ℤ, leb_ℤ}
use ton_payment_network.Base.Dict.{Dict, insert}
use ton_payment_network.Cells.{Codec, load_state}
use ton_payment_network.Balance.{
  Float64, finite, CoinConfig, BalanceInfo, LockedDepositInfo, resolve_action_balance,
}
use ton_payment_network.Actions.{StateActionSend, send_add_coins}
use ton_payment_network.Conditionals.{Action}

pub record Details : Type 0 where
  pub asset_id : ℕ
  pub is_long : Bool
  pub leverage : ℕ
  pub entry_price : ℕ

-- The entry price is `actions.Coins`, which is read without a sign; the resolver's address and the
-- key are the numbers that their bytes spell.
pub record ConditionalResolvable : Type 0 where
  pub key : ℕ
  pub amount : ℤ
  pub fee : ℤ
  pub is_initiator : Bool
  pub resolver_addr : Option ℕ
  pub details : Details
  pub action : Action

pub record ResolvableState : Type 0 where
  pub key : ℕ
  pub amount : ℤ
  pub at : ℤ

pub data PriceError : Type 0 where
  too_new too_old no_data unavailable : PriceError

-- `PriceResolver`, as the values that it answers with at one moment
pub record PriceResolver : Type 0 where
  pub price_at : ℤ → Result PriceError ℤ
  pub last_price : Result PriceError (ℤ × ℤ)

pub data ResolveError : Type 0 where
  invalid_amount invalid_fee unsupported_leverage missing_resolver unexpected_coins : ResolveError
  already_accepted no_price_resolver bad_state incorrect_key not_ready : ResolveError
  in_future too_old_state no_price invalid_entry_price incorrect_amount : ResolveError
  missing_balance action_failed : ResolveError

-- `CalcPercentFeeCeil`: the exact fraction amount * m / (2 ^ k * 100), rounded up.
unfoldable pub calc_percent_fee_ceil : ℤ → Float64 → ℤ
calc_percent_fee_ceil (pos amount) (finite (pos m) k) =
    let den = 2 ^ k * 100 in
    if amount == 0 || m == 0 then pos 0 else pos ((amount * m + (den - 1)) / den)
calc_percent_fee_ceil _ _ = pos 0

-- (price - entry) for a long position, (entry - price) for a short one.
abbrev pub delta : Bool → ℤ → ℕ → ℤ
delta true price entry = price -ℤ pos entry
delta false price entry = pos entry -ℤ price

-- roi = delta * amount * leverage / entry, rounded as `big.Int.Div` does.
unfoldable pub roi : ConditionalResolvable → ℤ → ℤ
roi c price =
    div_ℤ
      (delta c.details.is_long price c.details.entry_price *ℤ c.amount *ℤ pos c.details.leverage)
      c.details.entry_price

-- `x`, at most `cap` where that is positive
abbrev pub capped : ℤ → ℤ → ℤ
capped cap x = if ltb_ℤ (pos 0) cap && ltb_ℤ cap x then cap else x

-- `expectedAmount` of `ValidateState`: nothing for a winning side, the loss for a losing one.
unfoldable pub expected_amount : ConditionalResolvable → ℤ → ℤ
expected_amount c price =
    let r = roi c price in if leb_ℤ r (pos 0) then capped c.amount (pos (abs r)) else pos 0

abbrev pub max_supported_leverage : ℕ
max_supported_leverage = 20

-- `derivativeResolveAcceptanceWindowSec`
abbrev pub acceptance_window : ℕ
acceptance_window = 10

abbrev pub single_coin : List CoinConfig → ResolveError → Result ResolveError CoinConfig
single_coin (cc ∷ []) e = ok cc
single_coin _ e = err e

-- `ValidateOnAdd`
unfoldable pub validate_on_add : ConditionalResolvable → Result ResolveError Unit
validate_on_add c = do
  raise_if (ltb_ℤ c.amount (pos 0)) invalid_amount
  raise_if (ltb_ℤ c.fee (pos 0)) invalid_fee
  raise_if (c.details.leverage == 0 || ltb max_supported_leverage c.details.leverage)
      unsupported_leverage
  _addr ← or_raise c.resolver_addr missing_resolver
  cc ← single_coin c.action.affected_coins unexpected_coins
  raise_if
      (ltb_ℤ c.fee (
        calc_percent_fee_ceil c.amount cc.virtual_tunnel_config.derivative_fee_percent
        *ℤ pos c.details.leverage))
      invalid_fee

abbrev pub or_error : {E A : Type 0} → Result E A → ResolveError → Result ResolveError A
or_error (ok a) e = ok a
or_error (err x) e = err e

abbrev pub floor_zero : ℤ → ℤ
floor_zero x = if ltb_ℤ x (pos 0) then pos 0 else x

-- The initiator pays the fee on top, the other side gets it off what it pays.
abbrev pub with_fee : ConditionalResolvable → ℤ → ℤ
with_fee c x = if c.is_initiator then x +ℤ c.fee else floor_zero (x -ℤ c.fee)

abbrev is_transient : PriceError → Bool
is_transient too_old = false
is_transient _ = true

-- The attempts of `getBestEffortCurrentPrice` at the seconds `now - back`.
abbrev pub try_prices : PriceResolver → ℤ → List ℕ → Result PriceError ℤ → Result PriceError ℤ
try_prices r now [] last = last
try_prices r now (back ∷ more) last =
    let next = try_prices r now more last in
    elim (r.price_at (now -ℤ pos back)) [
      | ok price ↦ ok price
      | err e ↦ if is_transient e then next else last
    ]

-- `getBestEffortCurrentPrice` at the time `now`: the errors are those of the last call.
unfoldable pub best_effort_price : PriceResolver → ℤ → Result PriceError ℤ
best_effort_price r now =
    try_prices r now (0 ∷ 1 ∷ 2 ∷ 3 ∷ [])
      (elim r.last_price [ ok (at, price) ↦ ok price | err e ↦ err e ])

abbrev pub lock : BalanceInfo → ℤ → BalanceInfo
lock b x = record b { conditional_locked = b.conditional_locked +ℤ x }

abbrev pub pend : BalanceInfo → ℤ → BalanceInfo
pend b x =
    if ltb_ℤ (pos 0) x then record b { conditional_pending = b.conditional_pending +ℤ x } else b

-- What `EmulateBalance` locks of the payer's balance at the result `r`.
abbrev pub locked_at : ConditionalResolvable → ℤ → ℤ
locked_at c r =
    with_fee c (if ltb_ℤ r (pos 0) && ltb (abs c.amount) (abs r) then pos (abs r) else c.amount)

-- `EmulateBalance` at the time `now`
unfoldable pub emulate_balance :
    ConditionalResolvable
    → Option PriceResolver
    → ℤ
    → Dict BalanceInfo
    → Bool
    → Result ResolveError (Dict BalanceInfo)
emulate_balance c resolver now balances from_us = do
  b ← or_error (resolve_action_balance balances c.action.affected_coins) missing_balance
  cc ← single_coin c.action.affected_coins unexpected_coins
  r ← or_raise resolver no_price_resolver
  price ← or_error (best_effort_price r now) no_price
  raise_if (c.details.entry_price == 0) invalid_entry_price
  let result = roi c price
  ok (
      insert cc.balance_id
        (if from_us then lock b (locked_at c result) else pend b (with_fee c result)) balances)

module _ {Cell : Type 0} (state_codec : Codec Cell ResolvableState) where
  -- `ValidateState`; "allow ±1 tolerance for integer division rounding".
  unfoldable pub validate_state :
      ConditionalResolvable → Option PriceResolver → Option Cell → Cell → Result ResolveError Unit
  validate_state c resolver (some old_state) new_state = err already_accepted
  validate_state c resolver none new_state = do
    r ← or_raise resolver no_price_resolver
    state ← or_raise (load_state state_codec new_state) bad_state
    raise_if (not (state.key == c.key)) incorrect_key
    latest ← or_error r.last_price not_ready
    raise_if (leb_ℤ latest.0 (pos 0)) not_ready
    raise_if (ltb_ℤ (latest.0 +ℤ pos 2) state.at) in_future
    raise_if (ltb_ℤ (pos acceptance_window) (latest.0 -ℤ state.at)) too_old_state
    raise_if (ltb_ℤ state.amount (pos 0)) invalid_amount
    price ← or_error (r.price_at state.at) no_price
    raise_if (c.details.entry_price == 0) invalid_entry_price
    raise_if (ltb 1 (abs (state.amount -ℤ expected_amount c price))) incorrect_amount

  -- `Execute` for a send action, which has one coin: the capped amount, plus the fee on the initiator's side and less the fee on the
  -- other, is added to the action.
  unfoldable pub execute :
      ConditionalResolvable
      → Codec Cell StateActionSend
      → Cell
      → Cell
      → Dict LockedDepositInfo
      → Result ResolveError (Cell × Dict LockedDepositInfo)
  execute c action_codec action_state latest locked = do
    state ← or_raise (load_state state_codec latest) bad_state
    raise_if (not (state.key == c.key)) incorrect_key
    raise_if (ltb_ℤ state.amount (pos 0)) invalid_amount
    cc ← single_coin c.action.affected_coins unexpected_coins
    or_error
        (send_add_coins action_codec cc action_state (with_fee c (capped c.amount state.amount))
          locked)
        action_failed

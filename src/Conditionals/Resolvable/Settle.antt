-- ===== src/Conditionals/Resolvable/Settle.antt =====
-- tonpayments/derivatives_resolve.go and derivatives_linked.go: the other party's conditional of a
-- position, and the states that resolve the pair at a price.
use ton_payment_network.Base.{
  ℕ, not, Option, none, some, Result, ok, ◌>>=◌, ◌>>◌, raise_if, or_raise, ◌==◌, if◌then◌else◌,
}
use ton_payment_network.Base.Int.{ℤ, pos, abs, div_ℤ, ◌*ℤ◌, ltb_ℤ, leb_ℤ}
use ton_payment_network.Conditionals.{Action}
use ton_payment_network.Conditionals.Resolvable.Defs.{
  ConditionalResolvable, ResolvableState, PriceResolver, ResolveError, no_price, no_price_resolver,
  invalid_entry_price, invalid_amount, unsupported_leverage, delta, capped, or_error,
}

-- `buildLinkedDerivativeConditional`: the key is derived by a hash, the action's direction is
-- reversed, and both are arguments here; the other numbers are the position's.
unfoldable pub build_linked :
    (ℕ → ℕ) → (Action → Option Action) → ConditionalResolvable → Option ConditionalResolvable
build_linked linked_key reverse base = elim (reverse base.action) [
  | none ↦ none
  | some a ↦ some (record base {
    key = linked_key base.key;
    is_initiator = not base.is_initiator;
    details = record base.details { is_long = not base.details.is_long };
    action = a;
  })
]

-- pnl = (amount * leverage) * delta / entry
unfoldable pub pnl : ConditionalResolvable → ℤ → ℤ
pnl c price =
    div_ℤ
      (c.amount *ℤ pos c.details.leverage *ℤ delta c.details.is_long price c.details.entry_price)
      c.details.entry_price

-- `buildDerivativeResolveForPrice`
unfoldable pub build_resolve_for_price :
    ConditionalResolvable → ℤ → ℤ → Result ResolveError ResolvableState
build_resolve_for_price c at last_price = do
  raise_if (leb_ℤ last_price (pos 0)) no_price
  raise_if (c.details.entry_price == 0) invalid_entry_price
  raise_if (leb_ℤ c.amount (pos 0)) invalid_amount
  raise_if (c.details.leverage == 0) unsupported_leverage
  let p = pnl c last_price
  let loss = pos (abs p)
  ok (record {
    key = c.key;
    amount = if ltb_ℤ p (pos 0) then (if ltb_ℤ c.amount loss then c.amount else loss) else pos 0;
    at = at;
  })

-- `buildIncomingDerivativeResolve`: the incoming side pays our profit.
unfoldable pub build_incoming_resolve :
    Option PriceResolver → ConditionalResolvable → ℕ → Result ResolveError ResolvableState
build_incoming_resolve resolver out_cond incoming_key = do
  r ← or_raise resolver no_price_resolver
  last ← or_error r.last_price no_price
  raise_if (leb_ℤ last.1 (pos 0)) no_price
  raise_if (out_cond.details.entry_price == 0) invalid_entry_price
  let p = pnl out_cond last.1
  ok (record {
    key = incoming_key;
    amount = if ltb_ℤ (pos 0) p then capped out_cond.amount p else pos 0;
    at = last.0;
  })

-- `computeLinkedDerivativeSettle`, on the resolve of the primary side; `none` says that the linked
-- side pays nothing.
unfoldable pub compute_linked_settle :
    Option PriceResolver
    → ResolvableState
    → ConditionalResolvable
    → Result ResolveError (Option ResolvableState)
compute_linked_settle resolver primary linked = if ltb_ℤ (pos 0) primary.amount then ok none else do
  r ← or_raise resolver no_price_resolver
  price ← or_error (r.price_at primary.at) no_price
  raise_if (linked.details.entry_price == 0) invalid_entry_price
  let p = pnl linked price
  if leb_ℤ (pos 0) p
      then ok none
      else ok (
          some (record {
            key = linked.key;
            amount = capped linked.amount (pos (abs p));
            at = primary.at;
          }))

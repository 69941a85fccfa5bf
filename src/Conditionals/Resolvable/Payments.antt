-- ===== src/Conditionals/Resolvable/Payments.antt =====
-- What a derivative's conditional pays, against what is locked for it.
use ton_payment_network.Base.{◌≡◌, Option-cases, some, Result-cases, ok, arith, inl, inr}
use ton_payment_network.Base.Int.{ℤ, pos, ◌+ℤ◌, ◌-ℤ◌, ◌≤ℤ◌, ◌<ℤ◌, int_laws}
use ton_payment_network.Base.Dict.{Dict}
use ton_payment_network.Cells.{Codec, load_state, load_state-store}
use ton_payment_network.Balance.{CoinConfig, LockedDepositInfo}
use ton_payment_network.Actions.{StateActionSend, send_add_coins}
use ton_payment_network.Actions.Amounts.{added}
use ton_payment_network.Conditionals.Resolvable.Defs.{
  ConditionalResolvable, ResolvableState, with_fee, capped, locked_at, execute, unexpected_coins,
  single_coin,
}

with_fee_mono : (c : ConditionalResolvable) (x y : ℤ) → x ≤ℤ y → with_fee c x ≤ℤ with_fee c y
unfolding ◌+ℤ◌ ◌-ℤ◌
with_fee_mono c x y h = ground arith

with_fee_nonneg :
    (c : ConditionalResolvable) (x : ℤ) → pos 0 ≤ℤ x → pos 0 ≤ℤ c.fee → pos 0 ≤ℤ with_fee c x
unfolding ◌+ℤ◌ ◌-ℤ◌
with_fee_nonneg c x h f = ground arith

capped_within :
    (cap x : ℤ) → pos 0 <ℤ cap → pos 0 ≤ℤ x → (pos 0 ≤ℤ capped cap x) × (capped cap x ≤ℤ cap)
capped_within cap x p h = ground arith

locked_within :
    (c : ConditionalResolvable) (x r : ℤ)
    → pos 0 <ℤ c.amount
    → x ≤ℤ c.amount
    → with_fee c x ≤ℤ locked_at c r
locked_within c x r p h = with_fee_mono c x _ (ground arith)

raised : (a x y : ℤ) → pos 0 ≤ℤ x → x ≤ℤ y → (a ≤ℤ a +ℤ x) × (a +ℤ x ≤ℤ a +ℤ y)
raised a x y h le = omega int_laws

module _ {Cell : Type 0} (state_codec : Codec Cell ResolvableState)
    (action_codec : Codec Cell StateActionSend) where
  executed :
      (c : ConditionalResolvable) (action_state latest new : Cell)
      (locked locked' : Dict LockedDepositInfo)
      → execute state_codec c action_codec action_state latest locked ≡ ok (new, locked')
      → (cc : CoinConfig) × (s : ResolvableState) × (pos 0 ≤ℤ s.amount)
        × (send_add_coins action_codec cc action_state
              (with_fee c (capped c.amount s.amount))
              locked
            ≡ ok (new, locked'))
  unfolding execute
  executed c action_state latest new locked locked' x =
      elim (Option-cases (load_state state_codec latest)) [
        | inl bad ↦ absurd (ground arith)
        | inr (s, e) ↦ elim (Result-cases (single_coin c.action.affected_coins unexpected_coins)) [
          | inr (bad, q) ↦ absurd (ground arith)
          | inl (cc, q) ↦
              let pay =
                send_add_coins action_codec cc action_state (with_fee c (capped c.amount s.amount))
                  locked in
              elim (Result-cases pay) [
                | inr (bad, k) ↦ absurd (ground arith)
                | inl (done, k) ↦ (cc, s, ground arith, ground arith)
              ]
        ]
      ]

  -- Executing a derivative's conditional never takes back what was sent, and adds at most what
  -- `EmulateBalance` has locked for it, whatever result the position had when that was computed; the
  -- amount is positive and the fee is not negative, as the parser demands.
  pub execute-le-locked_at :
      (c : ConditionalResolvable) (action_state latest new : Cell)
      (locked locked' : Dict LockedDepositInfo) (a b : StateActionSend) (r : ℤ)
      → pos 0 <ℤ c.amount
      → pos 0 ≤ℤ c.fee
      → load_state action_codec action_state ≡ some a
      → execute state_codec c action_codec action_state latest locked ≡ ok (new, locked')
      → load_state action_codec new ≡ some b
      → (a.amount ≤ℤ b.amount) × (b.amount ≤ℤ a.amount +ℤ locked_at c r)
  execute-le-locked_at c action_state latest new locked locked' a b r p f ea x eb =
      let (cc, s, n, pay) = executed c action_state latest new locked locked' x in
      let amount = with_fee c (capped c.amount s.amount) in
      let (stored, rest) = added action_codec cc action_state amount locked locked' new pay a ea in
      let total : b ≡ record a { amount = a.amount +ℤ amount } =
        ground (arith, load_state-store action_codec _ new stored) in
      let (least, most) = capped_within c.amount s.amount p n in
      rw (total) (
        raised a.amount amount (locked_at c r)
          (with_fee_nonneg c (capped c.amount s.amount) least f)
          (locked_within c (capped c.amount s.amount) r p most))

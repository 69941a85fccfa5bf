-- ===== src/Conditionals/Virtual/Payments.antt =====
-- What a virtual channel's conditional pays: an early commit and the final execution together.
use ton_payment_network.Base.{◌≡◌, true, Option, some, ok, err, arith, inl, inr, Option-cases, ◌↔◌}
use ton_payment_network.Base.Int.{ℤ, pos, ◌+ℤ◌, ◌-ℤ◌, ◌≤ℤ◌, ◌<ℤ◌, int_laws, -ℤ_parts}
use ton_payment_network.Base.Dict.{Dict}
use ton_payment_network.Cells.{load_state, load_state-store}
use ton_payment_network.Balance.{LockedDepositInfo}
use ton_payment_network.Actions.{StateActionSend}
use ton_payment_network.Conditionals.{newer_state_known}
use ton_payment_network.Conditionals.Virtual.Defs.{ConditionalVirtualChannel}
use ton_payment_network.Conditionals.Virtual.Ops.{
  VirtualChannelState, VirtualEnv, locked_amount, max_ℤ, commit, prepare_commit, validate_state,
  execute,
}

max_of_nonneg : (x : ℤ) → pos 0 ≤ℤ x → max_ℤ x (pos 0) ≡ x
max_of_nonneg x h = ground arith

max_nonneg : (x : ℤ) → pos 0 ≤ℤ max_ℤ x (pos 0)
max_nonneg x = ground arith

max_mono : (x y : ℤ) → x ≤ℤ y → max_ℤ x (pos 0) ≤ℤ max_ℤ y (pos 0)
max_mono x y h = ground arith

pay_split :
    (sent fee prepay s t : ℤ)
    → prepay ≤ℤ s +ℤ fee
    → s ≤ℤ t
    → sent +ℤ (s +ℤ fee -ℤ prepay) +ℤ max_ℤ (t +ℤ fee -ℤ (s +ℤ fee)) (pos 0)
      ≡ sent +ℤ max_ℤ (t +ℤ fee -ℤ prepay) (pos 0)
pay_split sent fee prepay s t h le =
    rw
      (
        max_of_nonneg (t +ℤ fee -ℤ (s +ℤ fee)) (omega int_laws),
        max_of_nonneg (t +ℤ fee -ℤ prepay) (omega int_laws),
      )
      (omega int_laws)

locked_amount_lem :
    (c : ConditionalVirtualChannel)
    → pos 0 ≤ℤ c.prepay
    → locked_amount c ≡ c.capacity +ℤ c.fee -ℤ c.prepay
locked_amount_lem c h = grind int_laws

added_within :
    (sent x y : ℤ)
    → x ≤ℤ y
    → (sent ≤ℤ sent +ℤ max_ℤ x (pos 0)) × (sent +ℤ max_ℤ x (pos 0) ≤ℤ sent +ℤ max_ℤ y (pos 0))
added_within sent x y h = omega (int_laws, max_nonneg x, max_mono x y h)

module _ {Cell : Type 0} (env : VirtualEnv Cell) where
  -- What an execution adds to the action's amount.
  executed :
      (c : ConditionalVirtualChannel) (action_state latest : Cell)
      (locked locked' : Dict LockedDepositInfo) (new : Cell) (s : VirtualChannelState)
      (a : StateActionSend)
      → load_state env.state_codec latest ≡ some s
      → load_state env.action_codec action_state ≡ some a
      → execute env c action_state latest locked ≡ ok (new, locked')
      → load_state env.action_codec new
        ≡ some (record a { amount = a.amount +ℤ max_ℤ (s.amount +ℤ c.fee -ℤ c.prepay) (pos 0) })
  unfolding execute
  executed c action_state latest locked locked' new s a e f h =
      load_state-store env.action_codec _ new (ground arith)

  committed :
      (c updated c' : ConditionalVirtualChannel) (action_state new : Cell) (a : StateActionSend)
      → load_state env.action_codec action_state ≡ some a
      → commit env c updated action_state ≡ ok (new, c')
      → (load_state env.action_codec new
          ≡ some (record a { amount = a.amount +ℤ (updated.prepay -ℤ c.prepay) }))
        × (c' ≡ record c { prepay = updated.prepay })
        × (c.prepay ≤ℤ updated.prepay)
  unfolding commit
  committed c updated c' action_state new a e h = (
    load_state-store env.action_codec _ new (ground arith),
    ground arith,
    ground (arith, -ℤ_parts updated.prepay c.prepay),
  )

  prepared :
      (c updated : ConditionalVirtualChannel) (first : Cell) (s : VirtualChannelState)
      → load_state env.state_codec first ≡ some s
      → prepare_commit env c first ≡ ok updated
      → (updated ≡ record c { prepay = s.amount +ℤ c.fee }) × (s.amount ≤ℤ c.capacity)
  unfolding prepare_commit
  prepared c updated first s e h = (ground arith, ground arith)

  -- Committing a signed state early and executing a later one, of no smaller amount, leaves the
  -- action with the same sum as executing the later state at once: nothing is paid twice, and
  -- nothing is lost. It holds for every prepay that the first state's amount and the fee cover.
  pub commit-execute :
      (c updated c' : ConditionalVirtualChannel) (first last action_state mid new direct : Cell)
      (locked l1 l2 : Dict LockedDepositInfo) (s t : VirtualChannelState) (a : StateActionSend)
      → load_state env.state_codec first ≡ some s
      → load_state env.state_codec last ≡ some t
      → load_state env.action_codec action_state ≡ some a
      → s.amount ≤ℤ t.amount
      → prepare_commit env c first ≡ ok updated
      → commit env c updated action_state ≡ ok (mid, c')
      → execute env c' mid last locked ≡ ok (new, l1)
      → execute env c action_state last locked ≡ ok (direct, l2)
      → load_state env.action_codec new ≡ load_state env.action_codec direct
  commit-execute c updated c' first last action_state mid new direct locked l1 l2 s t a es et ea le
        p k x d =
      let pre = prepared c updated first s es p in
      let early = committed c updated c' action_state mid a ea k in
      let fin = executed c' mid last locked l1 new t _ et early.0 x in
      let once = executed c action_state last locked l2 direct t a et ea d in
      ground (arith, pre, early, fin, once, pay_split a.amount c.fee c.prepay s.amount t.amount)

  accepted :
      (c : ConditionalVirtualChannel) (old : Option Cell) (latest : Cell)
      → validate_state env c old latest ≡ ok tt
      → (t : VirtualChannelState) × (load_state env.state_codec latest ≡ some t)
        × (t.amount ≤ℤ c.capacity)
  unfolding validate_state
  accepted c old latest v = elim (Option-cases (load_state env.state_codec latest)) [
    | inl bad ↦ absurd (ground arith)
    | inr (t, e) ↦ (t, e, ground arith)
  ]

  -- An accepted state never takes more than what was locked for the conditional, when its prepay
  -- is not negative: the execution adds at most the locked amount, and nothing if that is negative.
  pub execute-le-locked :
      (c : ConditionalVirtualChannel) (old : Option Cell) (action_state latest new : Cell)
      (locked locked' : Dict LockedDepositInfo) (a b : StateActionSend)
      → pos 0 ≤ℤ c.prepay
      → validate_state env c old latest ≡ ok tt
      → load_state env.action_codec action_state ≡ some a
      → execute env c action_state latest locked ≡ ok (new, locked')
      → load_state env.action_codec new ≡ some b
      → (a.amount ≤ℤ b.amount) × (b.amount ≤ℤ a.amount +ℤ max_ℤ (locked_amount c) (pos 0))
  execute-le-locked c old action_state latest new locked locked' a b p v ea x eb =
      let (t, et, within) = accepted c old latest v in
      let fin = executed c action_state latest locked locked' new t a et ea x in
      let total : b
          ≡ record a { amount = a.amount +ℤ max_ℤ (t.amount +ℤ c.fee -ℤ c.prepay) (pos 0) } =
        cc (eb, fin) in
      rw (total, locked_amount_lem c p)
        (added_within a.amount (t.amount +ℤ c.fee -ℤ c.prepay) (c.capacity +ℤ c.fee -ℤ c.prepay)
          (omega int_laws))

  -- The two parties never go back: a state that `ValidateState` accepts over a known one has no
  -- smaller amount, an older one is told apart from the other errors, and both fit the capacity.
  validate_state_order :
      (c : ConditionalVirtualChannel) (old_cell new_cell : Cell) (old new : VirtualChannelState)
      → load_state env.state_codec old_cell ≡ some old
      → load_state env.state_codec new_cell ≡ some new
      → env.verify c.key new.amount new.signature ≡ true
      → new.amount ≤ℤ c.capacity
      → ((validate_state env c (some old_cell) new_cell ≡ ok tt) ↔ (old.amount ≤ℤ new.amount))
        × ((validate_state env c (some old_cell) new_cell ≡ err newer_state_known)
            ↔ (new.amount <ℤ old.amount))
  unfolding validate_state
  validate_state_order c old_cell new_cell old new eo en sig cap = ground arith

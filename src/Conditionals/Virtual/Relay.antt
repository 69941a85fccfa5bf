-- ===== src/Conditionals/Virtual/Relay.antt =====
-- pkg/payments/conditionals/channel.go: a node that is asked to accept a virtual channel, as its
-- last party or as a relay: `CheckInstruction`, `PrepareNext` and `ScoreTunnelTarget`.
use ton_payment_network.Base.{
  ℕ, ◌+◌, ◌≡◌, Bool, false, not, Option, none, some, Result, ok, err, ◌>>=◌, ◌>>◌, raise_if,
  or_raise, ltb, ◌||◌, if◌then◌else◌, arith, inl, inr, Option-cases,
}
use ton_payment_network.Base.Int.{ℤ, pos, ◌+ℤ◌, ◌-ℤ◌, ◌≤ℤ◌, ltb_ℤ, eqb_ℤ, int_laws}
use ton_payment_network.Base.Dict.{Dict}
use ton_payment_network.Cells.{load_state}
use ton_payment_network.Balance.{
  VirtualConfig, BalanceInfo, available, BalanceError, unexpected_balances_num,
  missing_balance_info, resolve_action_balance,
}
use ton_payment_network.Conditionals.{
  Action, CondError, missing_balance, bad_state, missing_details, incorrect_values, bad_signature,
  not_full_capacity, too_big_to_rent, not_enough_balance, capacity_increased, tunneling_not_allowed,
  too_big_next, fee_too_low,
}
use ton_payment_network.Conditionals.Virtual.Defs.{ConditionalVirtualChannel}
use ton_payment_network.Conditionals.Virtual.Ops.{
  InstructionDetails, VirtualEnv, or_missing_balance, max_ℤ,
}

abbrev balance_or_zero : Result BalanceError BalanceInfo → Result CondError ℤ
balance_or_zero (ok b) = ok (available (some b))
balance_or_zero (err unexpected_balances_num) = err missing_balance
balance_or_zero (err missing_balance_info) = ok (pos 0)

module _ {Cell : Type 0} (env : VirtualEnv Cell) where
  -- "for channels with known final state we allow credit"
  abbrev check_final : ConditionalVirtualChannel → BalanceInfo → Option Cell → Result CondError Unit
  check_final c b none = raise_if (ltb_ℤ (available (some b)) (pos 0)) not_enough_balance
  check_final c b (some cell) = do
    state ← or_raise (load_state env.state_codec cell) bad_state
    raise_if (not (env.verify c.key state.amount state.signature)) bad_signature
    raise_if (not (eqb_ℤ state.amount c.capacity)) not_full_capacity
    raise_if
        (ltb_ℤ (pos b.coin_config.virtual_tunnel_config.max_capacity_to_rent_per_tx) state.amount)
        too_big_to_rent

  -- The fee that this node wants for passing on `next` coins.
  abbrev pub want_fee : VirtualConfig → ℕ → ℤ
  want_fee cfg next = max_ℤ (env.percent_of cfg.proxy_fee_percent next) (pos cfg.proxy_min_fee)

  abbrev check_tunnel :
      ConditionalVirtualChannel → BalanceInfo → InstructionDetails → Result CondError Unit
  check_tunnel c b details = do
    let cfg = b.coin_config.virtual_tunnel_config
    let next = details.next_capacity + details.next_fee
    raise_if (ltb_ℤ (available (some b)) (pos 0)) not_enough_balance
    raise_if (ltb_ℤ c.capacity (pos details.next_capacity)) capacity_increased
    raise_if (not cfg.allow_tunneling) tunneling_not_allowed
    raise_if (ltb cfg.proxy_max_capacity next) too_big_next
    raise_if (ltb_ℤ (c.fee -ℤ pos details.next_fee) (want_fee cfg next)) fee_too_low

  -- `CheckInstruction`
  unfoldable pub check_instruction :
      ConditionalVirtualChannel
      → Option Cell
      → Bool
      → Dict BalanceInfo
      → Option Cell
      → Result CondError Unit
  check_instruction c details_cell is_final_dest balances final_state = do
    cell ← or_raise details_cell missing_details
    details ← or_raise (load_state env.details_codec cell) bad_state
    raise_if
        (not (eqb_ℤ (pos details.expected_fee) c.fee)
          || not (eqb_ℤ (pos details.expected_capacity) c.capacity))
        incorrect_values
    b ← or_missing_balance (resolve_action_balance balances c.action.affected_coins)
    if is_final_dest then check_final c b final_state else check_tunnel c b details

  -- `PrepareNext`: `tlb.Parse` is read as the same load of the details.
  unfoldable pub prepare_next :
      ConditionalVirtualChannel → Cell → Action → ℤ → Result CondError ConditionalVirtualChannel
  prepare_next c details_cell act next_deadline = do
    details ← or_raise (load_state env.details_codec details_cell) bad_state
    ok (record {
      key = c.key;
      capacity = pos details.next_capacity;
      fee = pos details.next_fee;
      prepay = pos 0;
      deadline = next_deadline;
      action = act;
    })

  -- `ScoreTunnelTarget`
  unfoldable pub score_tunnel_target :
      ConditionalVirtualChannel → Option Cell → Dict BalanceInfo → Result CondError ℤ
  score_tunnel_target c details_cell target_balances = do
    cell ← or_raise details_cell missing_details
    details ← or_raise (load_state env.details_codec cell) bad_state
    avb ← balance_or_zero (resolve_action_balance target_balances c.action.affected_coins)
    ok (avb -ℤ pos (details.next_capacity + details.next_fee))

  tunnel_fee :
      (c : ConditionalVirtualChannel) (b : BalanceInfo) (d : InstructionDetails)
      → check_tunnel c b d ≡ ok tt
      → (pos d.next_capacity ≤ℤ c.capacity)
        × (want_fee b.coin_config.virtual_tunnel_config (d.next_capacity + d.next_fee)
            ≤ℤ c.fee -ℤ pos d.next_fee)
  tunnel_fee c b d h = ground arith

  want_fee_min : (cfg : VirtualConfig) (next : ℕ) → pos cfg.proxy_min_fee ≤ℤ want_fee cfg next
  want_fee_min cfg next = ground arith

  accepted :
      (c next : ConditionalVirtualChannel) (cell : Cell) (balances : Dict BalanceInfo)
      (final : Option Cell) (act : Action) (next_deadline : ℤ) (b : BalanceInfo)
      → resolve_action_balance balances c.action.affected_coins ≡ ok b
      → check_instruction c (some cell) false balances final ≡ ok tt
      → prepare_next c cell act next_deadline ≡ ok next
      → (d : InstructionDetails) × (load_state env.details_codec cell ≡ some d)
        × (check_tunnel c b d ≡ ok tt)
        × (next.key ≡ c.key)
        × (next.prepay ≡ pos 0)
        × (next.capacity ≡ pos d.next_capacity)
        × (next.fee ≡ pos d.next_fee)
  unfolding check_instruction prepare_next
  accepted c next cell balances final act next_deadline b e h g =
      elim (Option-cases (load_state env.details_codec cell)) [
        | inl bad ↦ absurd (ground arith)
        | inr (d, loaded) ↦
            (d, loaded, ground arith, ground arith, ground arith, ground arith, ground arith)
      ]

  -- A relay that accepts a virtual channel, with a minimal fee that is not negative by its type,
  -- passes on a conditional of the same key that can never cost it more than it may receive: the
  -- next capacity and the next fee are each no larger, the fee that stays is at least the minimal
  -- one, and the next conditional starts with no prepay.
  pub check_instruction-covers_next :
      (c next : ConditionalVirtualChannel) (cell : Cell) (balances : Dict BalanceInfo)
      (final : Option Cell) (act : Action) (next_deadline : ℤ) (b : BalanceInfo)
      → resolve_action_balance balances c.action.affected_coins ≡ ok b
      → check_instruction c (some cell) false balances final ≡ ok tt
      → prepare_next c cell act next_deadline ≡ ok next
      → (next.key ≡ c.key)
        × (next.prepay ≡ pos 0)
        × (next.capacity ≤ℤ c.capacity)
        × (next.fee +ℤ pos b.coin_config.virtual_tunnel_config.proxy_min_fee ≤ℤ c.fee)
        × (next.capacity +ℤ next.fee ≤ℤ c.capacity +ℤ c.fee)
  check_instruction-covers_next c next cell balances final act next_deadline b e h g =
      let (d, loaded, tunnel, same_key, no_prepay, cap, fee) =
        accepted c next cell balances final act next_deadline b e h g in
      let fits = tunnel_fee c b d tunnel in
      let least = want_fee_min b.coin_config.virtual_tunnel_config (d.next_capacity + d.next_fee) in
      (
        same_key,
        no_prepay,
        rw cap fits.0,
        rw fee (omega (int_laws, least, fits.1)),
        rw (cap, fee) (omega (int_laws, least, fits.0, fits.1)),
      )

-- ===== src/Exchange/Balances/Conserve.antt =====
-- `Channel.CalcBalance`: what actions move between the two parties.
use ton_payment_network.Base.{
  ℕ, ◌≡◌, ap, ◌∙◌, Bool, true, false, none, some, [], ◌∷◌, ok, arith, inl, inr, Option-cases,
  Result-cases, bind-ok, if◌then◌else◌,
}
use ton_payment_network.Base.Int.{ℤ, pos, ◌+ℤ◌, ◌-ℤ◌, pos_part, neg_part, int_laws}
use ton_payment_network.Base.Dict.{Dict}
use ton_payment_network.Cells.{load_state}
use ton_payment_network.Balance.{CoinConfig, BalanceInfo}
use ton_payment_network.Actions.{StateActionSend, SendAction, PendingMessageInfo, is_vault}
use ton_payment_network.Actions as Actions
use ton_payment_network.Actions.Moves.{moved, sent_by, leaves, arrives, emulate_balance-moved}
use ton_payment_network.Exchange.{Side, Channel}
use ton_payment_network.Exchange.Conds.{CondEnv}
use ton_payment_network.Exchange.Balances.{
  Resolver, start_balances, put_onchain, hold_transfers, emulate_actions, emulate_conditionals,
  balances_of, calc_balance,
}
use ton_payment_network.Exchange.Balances.Kept.{
  onchain_balances-moved, hold_transfers-moved, emulate_conditionals-moved,
}

-- All actions of a side are insured ones, whose party pays in the channel.
abbrev pub AllInsured : {Cell : Type 0} → Resolver → Dict Cell → Type 0
AllInsured resolver [] = Unit
AllInsured resolver ((id, state) ∷ rest) =
    ((act : SendAction × CoinConfig) → resolver.send_actions id ≡ some act → is_vault act.0 ≡ false)
    × AllInsured resolver rest

chain :
    (from_us : Bool) (o n b x y : ℤ)
    → n +ℤ leaves from_us x ≡ b +ℤ arrives from_us x
    → o +ℤ leaves from_us y ≡ n +ℤ arrives from_us y
    → o +ℤ leaves from_us (x +ℤ y) ≡ b +ℤ arrives from_us (x +ℤ y)
chain true o n b x y first others =
    omega (int_laws, ap pos_part first, ap neg_part first, ap pos_part others, ap neg_part others)
chain false o n b x y first others =
    omega (int_laws, ap pos_part first, ap neg_part first, ap pos_part others, ap neg_part others)

balanced :
    (start sent out y z : ℤ)
    → start ≡ pos 0
    → sent +ℤ y ≡ start +ℤ pos 0
    → out +ℤ pos 0 ≡ sent +ℤ z
    → out ≡ z -ℤ y
balanced start sent out y z s h g = omega (
  int_laws,
  ap pos_part s,
  ap neg_part s,
  ap pos_part h,
  ap neg_part h,
  ap pos_part g,
  ap neg_part g,
)

cancels : (a b y z : ℤ) → a ≡ z -ℤ y → b ≡ y -ℤ z → a +ℤ b ≡ pos 0
cancels a b y z h g = omega (int_laws, ap pos_part h, ap neg_part h, ap pos_part g, ap neg_part g)

module _ {Cell : Type 0} (env : CondEnv Cell) (resolver : Resolver) (i : ℕ) where
  -- What one side's actions say was sent of the coin and not yet paid out.
  unfoldable pub sent_in : Dict Cell → ℤ
  sent_in [] = pos 0
  sent_in ((id, state) ∷ rest) = elim (resolver.send_actions id) [
    | none ↦ pos 0
    | some act ↦ sent_by i act.0 (load_state env.virtual_env.action_codec state) +ℤ sent_in rest
  ]

  emulate_actions-moved :
      (from_us : Bool) (states : Dict Cell) (balances out : Dict BalanceInfo)
      → AllInsured resolver states
      → emulate_actions env resolver from_us states balances ≡ ok out
      → moved i out +ℤ leaves from_us (sent_in states)
        ≡ moved i balances +ℤ arrives from_us (sent_in states)
  unfolding emulate_actions sent_in
  emulate_actions-moved from_us [] balances out w h = ground arith
  emulate_actions-moved from_us ((id, state) ∷ rest) balances out w h =
      elim (Option-cases (resolver.send_actions id)) [
        | inl bad ↦ absurd (ground arith)
        | inr (act, known) ↦
            elim (Result-cases (
              Actions.emulate_balance env.virtual_env.action_codec act.0 act.1 state balances
                from_us)) [
                  | inr (e, bad) ↦ absurd (ground arith)
                  | inl (next, e) ↦
                      let x = sent_by i act.0 (load_state env.virtual_env.action_codec state) in
                      let first =
                        emulate_balance-moved env.virtual_env.action_codec act.0 act.1 state
                          balances next from_us i (w.0 act known) e in
                      let others = emulate_actions-moved from_us rest next out w.1 (ground arith) in
                      rw (known, sent_in)
                        (chain from_us _ (moved i next) _ x (sent_in rest) first others)
                ]
      ]

  balances_of-moved :
      (s1 s2 : Side Cell) (out : Dict BalanceInfo)
      → AllInsured resolver s1.agreed.action_states
      → AllInsured resolver s2.agreed.action_states
      → balances_of env resolver s1 s2 ≡ ok out
      → moved i out ≡ sent_in s2.agreed.action_states -ℤ sent_in s1.agreed.action_states
  unfolding balances_of
  balances_of-moved s1 s2 out w1 w2 h =
      let start = start_balances resolver.known_balance_types [] in
      let (onchain, e1, h1) =
        bind-ok (if s1.active_onchain then put_onchain s1.onchain_balances start else ok start) h in
      let (held, e2, h2) = bind-ok (hold_transfers s1.pending_onchain_transfers onchain) h1 in
      let (sent, e3, h3) =
        bind-ok (emulate_actions env resolver true s1.agreed.action_states held) h2 in
      let (got, e4, h4) =
        bind-ok (emulate_actions env resolver false s2.agreed.action_states sent) h3 in
      let (promised, e5, h5) =
        bind-ok (emulate_conditionals env resolver true s1.agreed.conditionals got) h4 in
      emulate_conditionals-moved env resolver i false s2.agreed.conditionals promised out h5
      ∙ emulate_conditionals-moved env resolver i true s1.agreed.conditionals got promised e5
      ∙ balanced (moved i held) (moved i sent) (moved i got) _ _
          (hold_transfers-moved i s1.pending_onchain_transfers onchain held e2
            ∙ onchain_balances-moved resolver i s1 onchain e1)
          (emulate_actions-moved true s1.agreed.action_states held sent w1 e3)
          (emulate_actions-moved false s2.agreed.action_states sent got w2 e4)

  -- Whatever conditionals, transfers and on-chain balances there are, the balances that a channel
  -- gives for both parties fit: where all actions are insured ones, what each party got in a coin is
  -- what the other's actions say was sent less what its own say, so that the two cancel out: actions
  -- move money between the parties and make none.
  pub calc_balance-conserves :
      (ch : Channel Cell) (ours theirs : Dict BalanceInfo)
      → AllInsured resolver ch.our.agreed.action_states
      → AllInsured resolver ch.their.agreed.action_states
      → calc_balance env resolver ch false ≡ ok ours
      → calc_balance env resolver ch true ≡ ok theirs
      → (moved i ours
          ≡ sent_in ch.their.agreed.action_states -ℤ sent_in ch.our.agreed.action_states)
        × (moved i ours +ℤ moved i theirs ≡ pos 0)
  calc_balance-conserves ch ours theirs w v h g =
      let got = balances_of-moved ch.our ch.their ours w v h in
      let gave = balances_of-moved ch.their ch.our theirs v w g in (got, cancels _ _ _ _ got gave)

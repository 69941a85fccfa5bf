-- ===== src/Exchange/Commits/Fees.antt =====
-- The fee of a cooperative commit, as the two parties charge it.
use ton_payment_network.Base.{
  Result, ℕ, ◌+◌, ◌%◌, ◌^◌, ◌<◌, ◌≡◌, ◌≢◌, refl, sym, ap, ◌∙◌, not, ◌&&◌, Bool, true, false, Option,
  some, none, ok, arith, raise_if, bind-ok, ok-same, or_raise-ok, or_raise, if◌then◌else◌,
}
use ton_payment_network.Base.Int.{ℤ, ◌+ℤ◌, ◌-ℤ◌, pos_part, neg_part, int_laws}
use ton_payment_network.Base.Dict.{Dict}
use ton_payment_network.Cells.{Codec, load_state}
use ton_payment_network.Balance.{CoinConfig, BalanceInfo}
use ton_payment_network.Actions.{
  SendAction, StateActionSend, PendingMessageInfo, prepare_execute_send_state,
}
use ton_payment_network.Actions.Commit.{committed, fee_of, prepare_execute-pays_outstanding}
use ton_payment_network.Exchange.{
  ExchangeError, Channel, load_signed_state, unknown_action, not_onchain, nothing_to_commit,
  failed_action,
}
use ton_payment_network.Exchange.Conds.{CondEnv, or_fail, or_fail-ok}
use ton_payment_network.Exchange.Balances.{Resolver, calc_balance}
use ton_payment_network.Exchange.Commits.{
  CommitRequest, from_us, from_them, nothing, state_of, states_for, prepare_side,
  get_commit_request, completion_op,
}
use ton_payment_network.Exchange.Commits.Flip.{IsCommon, turned_states}

abbrev load_some :
    {Cell : Type 0} → Codec Cell StateActionSend → Option Cell → Option StateActionSend
load_some codec none = none
load_some codec (some c) = load_state codec c

module _ {Cell : Type 0} (env : CondEnv Cell) where
  -- The state of a side that a request pays out, with or without the fee.
  prepared :
      (act : SendAction × CoinConfig) (party seqno : ℕ) (fee : Bool)
      (balances : Result ExchangeError (Dict BalanceInfo)) (state : Cell) (s : StateActionSend)
      {x : Option Cell × Option PendingMessageInfo}
      → load_state env.virtual_env.action_codec state ≡ some s
      → prepare_side env act party seqno fee balances (some state) ≡ ok x
      → (c : Cell) × (x.0 ≡ some c)
        × (load_state env.virtual_env.action_codec c
            ≡ some (committed (s.amount -ℤ s.commited +ℤ fee_of fee act.1) seqno))
  unfolding prepare_side
  prepared act party seqno fee balances state s loaded h =
      let (bs, e1, h1) = bind-ok balances h in
      let (r, e2, h2) =
        bind-ok
          (or_fail
            (prepare_execute_send_state env.virtual_env.action_codec state seqno act.1 fee bs party
              (completion_op act.0))
            failed_action)
          h1 in
      (
        r.0,
        ap (λ y. y.0) (sym (ok-same h2)),
        (prepare_execute-pays_outstanding env.virtual_env.action_codec state seqno act.1 fee bs
            party (completion_op act.0) s r.0 r.1 loaded (or_fail-ok _ failed_action e2)).0,
      )

chosen :
    {Cell : Type 0} (left : Bool) (a b : Option Cell) (id : ℕ)
    → states_for left (
        some
          (record { state_a = if left then a else b; state_b = if left then b else a; code = id }))
      ≡ (a, b)
chosen true a b id = refl
chosen false a b id = refl

-- The amount with the fee is not the one without.
fee_shows :
    (x : ℤ) (coin : CoinConfig) (seqno seqno' : ℕ)
    → 0 < coin.fee_per_withdraw_propose
    → some (committed (x +ℤ fee_of true coin) seqno)
      ≢ some (committed (x +ℤ fee_of false coin) seqno')
fee_shows x coin seqno seqno' fee h =
    let amounts : x +ℤ fee_of true coin ≡ x +ℤ fee_of false coin = ground arith in
    omega (int_laws, ap pos_part amounts, ap neg_part amounts, fee)

module _ {Cell : Type 0} (env : CondEnv Cell) where
  prepared_as :
      (act : SendAction × CoinConfig) (party seqno : ℕ) (fee fee' : Bool)
      (balances : Result ExchangeError (Dict BalanceInfo)) (o : Option Cell) (state : Cell)
      (s : StateActionSend) {x : Option Cell × Option PendingMessageInfo}
      → fee' ≡ fee
      → o ≡ some state
      → load_state env.virtual_env.action_codec state ≡ some s
      → prepare_side env act party seqno fee' balances o ≡ ok x
      → (c : Cell) × (x.0 ≡ some c)
        × (load_state env.virtual_env.action_codec c
            ≡ some (committed (s.amount -ℤ s.commited +ℤ fee_of fee act.1) seqno))
  prepared_as act party seqno fee fee' balances o state s {x} same there loaded h =
      prepared env act party seqno fee balances state s {x = x} loaded (rw (← there, ← same) h)

module _ {Cell : Type 0} (env : CondEnv Cell) (resolver : Resolver) where
  -- The two states of a request, as our and their side gave them.
  requested :
      (ch : Channel Cell) (id : ℕ) (by_us : Bool) (fee : Option Bool) (q : CommitRequest Cell)
      (act : SendAction × CoinConfig)
      → resolver.send_actions id ≡ some act
      → get_commit_request env resolver ch id by_us fee ≡ ok q
      → let seqno = ((load_signed_state ch).body.seqno + 1) % 2 ^ 64 in
        (ours theirs : Option Cell × Option PendingMessageInfo) × (prepare_side env act
            ch.their.address seqno
            (from_us fee)
            (calc_balance env resolver ch false)
            (state_of id ch.our.agreed)
          ≡ ok ours)
        × (prepare_side env act ch.our.address seqno
              (from_them fee)
              (calc_balance env resolver ch true)
              (state_of id ch.their.agreed)
            ≡ ok theirs)
        × (states_for ch.we_left q.signed.action ≡ (ours.0, theirs.0))
  unfolding get_commit_request
  requested ch id by_us fee q act known h =
      let seqno = ((load_signed_state ch).body.seqno + 1) % 2 ^ 64 in
      let (on, e1, h1) =
        bind-ok (raise_if (not (ch.our.active_onchain && ch.their.active_onchain)) not_onchain) h in
      let (act', e2, h2) = bind-ok (or_raise (resolver.send_actions id) unknown_action) h1 in
      let (some_state, e3, h3) =
        bind-ok
          (raise_if (nothing (state_of id ch.our.agreed) (state_of id ch.their.agreed))
            nothing_to_commit)
          h2 in
      let (ours, e4, h4) =
        bind-ok
          (prepare_side env act' ch.their.address seqno (from_us fee)
            (calc_balance env resolver ch false) (state_of id ch.our.agreed))
          h3 in
      let (theirs, e5, h5) =
        bind-ok
          (prepare_side env act' ch.our.address seqno (from_them fee)
            (calc_balance env resolver ch true) (state_of id ch.their.agreed))
          h4 in
      let same : act' ≡ act =
        ground (arith, or_raise-ok (resolver.send_actions id) unknown_action e2) in
      (
        ours,
        theirs,
        ap
              (λ a.
                prepare_side env a ch.their.address seqno (from_us fee)
                  (calc_balance env resolver ch false) (state_of id ch.our.agreed))
              (sym same)
            ∙ e4,
        ap
              (λ a.
                prepare_side env a ch.our.address seqno (from_them fee)
                  (calc_balance env resolver ch true) (state_of id ch.their.agreed))
              (sym same)
            ∙ e5,
        sym (ap (λ x. states_for ch.we_left x.signed.action) (ok-same h5))
            ∙ chosen ch.we_left ours.0 theirs.0 id,
      )

  -- A proposer on the right that pays a fee makes another message than the other party does: it
  -- charges the fee to the other party, which charges it to the proposer. So where the other party
  -- has a state of the action and the coin's fee is positive, the proposer's signature is for a
  -- message that the other party does not make.
  pub get_commit_request-fee_differs :
      (p r : Channel Cell) (id : ℕ) (state : Cell) (s : StateActionSend)
      (act : SendAction × CoinConfig) (q q' : CommitRequest Cell)
      → IsCommon p r
      → p.we_left ≡ false
      → state_of id r.our.agreed ≡ some state
      → load_state env.virtual_env.action_codec state ≡ some s
      → resolver.send_actions id ≡ some act
      → 0 < act.1.fee_per_withdraw_propose
      → get_commit_request env resolver p id false (some p.we_left) ≡ ok q
      → get_commit_request env resolver r id true (some false) ≡ ok q'
      → q.signed ≢ q'.signed
  get_commit_request-fee_differs p r id state s act q q' m right there loaded known fee h g same =
      let (ours, theirs, e, f, split) = requested p id false (some p.we_left) q act known h in
      let (ours', theirs', e', f', split') = requested r id true (some false) q' act known g in
      let seqno = ((load_signed_state p).body.seqno + 1) % 2 ^ 64 in
      let seqno' = ((load_signed_state r).body.seqno + 1) % 2 ^ 64 in
      let (c, is, reads) =
        prepared_as env act p.our.address seqno true (from_them (some p.we_left))
          (calc_balance env resolver p true) (state_of id p.their.agreed) state s (ap not right)
          (ap (λ x. state_of id x.agreed) m.exchanged.theirs ∙ there) loaded f in
      let (c', is', reads') =
        prepared_as env act r.their.address seqno' false false (calc_balance env resolver r false)
          (state_of id r.our.agreed) state s refl there loaded e' in
      let cells : some c ≡ some c' =
        sym is
        ∙ sym (ap (λ x. x.1) split)
        ∙ ap (λ x. x.0) (sym (turned_states p.we_left q.signed.action))
        ∙ ap (λ b. (states_for b q.signed.action).0) (sym m.exchanged.turned)
        ∙ ap (λ x. (states_for r.we_left x.action).0) same
        ∙ ap (λ x. x.0) split'
        ∙ is' in
      fee_shows (s.amount -ℤ s.commited) act.1 seqno seqno' fee
        (sym reads ∙ ap (load_some env.virtual_env.action_codec) cells ∙ reads')

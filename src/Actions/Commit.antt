-- ===== src/Actions/Commit.antt =====
-- The on-chain commit of a send action: what it pays, and that it is made once.
use ton_payment_network.Base.{
  ℕ, ◌≤◌, ◌<◌, ◌≡◌, Bool, true, false, ◌||◌, some, [], ◌∷◌, ok, err, arith, leb, if◌then◌else◌,
}
use ton_payment_network.Base.Int.{ℤ, pos, ◌+ℤ◌, ◌-ℤ◌, leb_ℤ, int_laws, eqb_ℤ}
use ton_payment_network.Base.Dict.{Dict}
use ton_payment_network.Cells.{Codec, load_state, load_state-store}
use ton_payment_network.Balance.{CoinConfig, BalanceInfo}
use ton_payment_network.Actions.{
  StateActionSend, already_committed, PendingMessageInfo, prepare_execute_send_state,
  check_can_remove,
}

abbrev pub fee_of : Bool → CoinConfig → ℤ
fee_of true coin = pos coin.fee_per_withdraw_propose
fee_of false coin = pos 0

-- The new state's amount, before the fee is known to be covered.
abbrev left_of : Bool → CoinConfig → StateActionSend → ℤ
left_of with_fee coin s =
    let amount = if with_fee then s.amount +ℤ pos coin.fee_per_withdraw_propose else s.amount in
    if eqb_ℤ s.commited (pos 0) then amount else amount -ℤ s.commited

abbrev pub committed : ℤ → ℕ → StateActionSend
committed amount seqno = record { amount = amount; commited = amount; commited_seqno = seqno }

left_of_lem :
    (with_fee : Bool) (coin : CoinConfig) (s : StateActionSend)
    → left_of with_fee coin s ≡ s.amount -ℤ s.commited +ℤ fee_of with_fee coin
left_of_lem true coin s = grind int_laws
left_of_lem false coin s = grind int_laws

module _ {Cell : Type 0} (codec : Codec Cell StateActionSend) where
  stored :
      (state : Cell) (seqno : ℕ) (coin : CoinConfig) (with_fee : Bool) (balances : Dict BalanceInfo)
      (party op : ℕ) (s : StateActionSend) (c : Cell) (m : PendingMessageInfo)
      → load_state codec state ≡ some s
      → prepare_execute_send_state codec state seqno coin with_fee balances party op ≡ ok (c, m)
      → (codec.store (committed (left_of with_fee coin s) seqno) ≡ some c)
        × (m.amounts ≡ (coin.balance_id, left_of with_fee coin s) ∷ [])
        × (s.commited_seqno < seqno)
  unfolding prepare_execute_send_state
  stored state seqno coin true balances party op s c m e h = ground arith
  stored state seqno coin false balances party op s c m e h = ground arith

  -- A commit at a seqno above the last one pays what was sent and not yet paid out, plus the fee if
  -- it is charged; the new state records exactly that sum as both sent and paid, at this seqno.
  pub prepare_execute-pays_outstanding :
      (state : Cell) (seqno : ℕ) (coin : CoinConfig) (with_fee : Bool) (balances : Dict BalanceInfo)
      (party op : ℕ) (s : StateActionSend) (c : Cell) (m : PendingMessageInfo)
      → load_state codec state ≡ some s
      → prepare_execute_send_state codec state seqno coin with_fee balances party op ≡ ok (c, m)
      → let paid = s.amount -ℤ s.commited +ℤ fee_of with_fee coin in
        (load_state codec c ≡ some (committed paid seqno))
        × (m.amounts ≡ (coin.balance_id, paid) ∷ [])
        × (s.commited_seqno < seqno)
  prepare_execute-pays_outstanding state seqno coin with_fee balances party op s c m e h =
      let done = stored state seqno coin with_fee balances party op s c m e h in
      rw (← left_of_lem with_fee coin s) (load_state-store codec _ c done.0, done.1, done.2)

  module _ (state : Cell) (seqno : ℕ) (coin : CoinConfig) (with_fee : Bool)
      (balances : Dict BalanceInfo) (party op : ℕ) (s : StateActionSend) (c : Cell)
      (m : PendingMessageInfo) (loaded : load_state codec state ≡ some s)
      (done : prepare_execute_send_state codec state seqno coin with_fee balances party op
        ≡ ok (c, m)) where
    reloaded :
        load_state codec c ≡ some (committed (s.amount -ℤ s.commited +ℤ fee_of with_fee coin) seqno)
    reloaded =
        (prepare_execute-pays_outstanding state seqno coin with_fee balances party op s c m loaded
          done).0

    -- A state that a commit returned is not committed again at that seqno or an earlier one,
    -- whatever the coin, the fee and the balances of the second call.
    prepare_execute-once :
        (seqno' : ℕ) (coin' : CoinConfig) (with_fee' : Bool) (balances' : Dict BalanceInfo)
        (party' op' : ℕ)
        → seqno' ≤ seqno
        → prepare_execute_send_state codec c seqno' coin' with_fee' balances' party' op'
          ≡ err already_committed
    unfolding prepare_execute_send_state
    prepare_execute-once seqno' coin' with_fee' balances' party' op' le = ground (arith, reloaded)

    -- Once the chain has reached the seqno of a commit, its action has nothing left to pay and can
    -- be removed; before that it can be removed exactly if the commit paid nothing.
    check_can_remove-prepare_execute :
        (k : ℕ)
        → check_can_remove codec k c
          ≡ ok (leb seqno k || leb_ℤ (s.amount -ℤ s.commited +ℤ fee_of with_fee coin) (pos 0))
    unfolding check_can_remove
    check_can_remove-prepare_execute k = grind (int_laws, reloaded)

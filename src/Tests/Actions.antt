-- ===== src/Tests/Actions.antt =====
-- Runs of the send actions.
use ton_payment_network.Base.{◌≡◌, ◌<◌, refl, true, some, [], ◌∷◌, ok, arith}
use ton_payment_network.Base.Int.{pos, ◌+ℤ◌, ◌-ℤ◌}
use ton_payment_network.Base.Dict.{Dict, lookup, insert}
use ton_payment_network.Cells.{load_state}
use ton_payment_network.Balance.{LockedDepositInfo, mark_used, available}
use ton_payment_network.Actions.{
  StateActionSend, PendingMessageInfo, prepare_execute_send_state, send_add_coins,
}
use ton_payment_network.Actions.Commit.{committed, prepare_execute-pays_outstanding}
use ton_payment_network.Actions.Amounts.{IsWithin}
use ton_payment_network.Tests.Fixtures.{sends, send_codec, coin, balances, sent, deposits}

abbrev message : PendingMessageInfo
message = record {
  amounts = (0, pos 18) ∷ [];
  completion_body_prefix = 8;
  completion_address = 7;
  limit_depth = 0;
}

run :
    prepare_execute_send_state send_codec (sends sent) 3 coin true balances 7 8
    ≡ ok (sends (committed (pos 18) 3), message)
unfolding prepare_execute_send_state load_state lookup available ◌+ℤ◌ ◌-ℤ◌
run = refl

loaded : load_state send_codec (sends sent) ≡ some sent
unfolding load_state
loaded = refl

prepare_execute-pays_outstanding_example :
    (load_state send_codec (sends (committed (pos 18) 3)) ≡ some (committed (pos 18) 3))
    × (message.amounts ≡ (0, pos 18) ∷ [])
    × (2 < 3)
unfolding ◌+ℤ◌ ◌-ℤ◌
prepare_execute-pays_outstanding_example =
    prepare_execute-pays_outstanding send_codec (sends sent) 3 coin true balances 7 8 sent
      (sends (committed (pos 18) 3)) message loaded run

abbrev after_add : StateActionSend
after_add = record sent { amount = pos 26 }

abbrev deposits_after : Dict LockedDepositInfo
deposits_after = (0, record { amount = pos 50; till = 9; used = pos 16 }) ∷ []

added :
    send_add_coins send_codec coin (sends sent) (pos 6) deposits
    ≡ ok (sends after_add, deposits_after)
unfolding send_add_coins load_state lookup insert mark_used ◌+ℤ◌
added = refl

within : IsWithin deposits
unfolding lookup
within id lk h = ground arith

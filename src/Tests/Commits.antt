-- ===== src/Tests/Commits.antt =====
-- Runs of the balances, the swap and the cooperative commit.
use ton_payment_network.Base.{
  ℕ, ◌≡◌, ◌≢◌, refl, true, false, some, none, [], ◌∷◌, ok, arith, inl, ◌==◌, if◌then◌else◌,
}
use ton_payment_network.Base.Int.{ℤ, pos, negsuc, ◌+ℤ◌, ◌-ℤ◌}
use ton_payment_network.Base.Dict.{Dict, lookup, insert}
use ton_payment_network.Cells.{load_state}
use ton_payment_network.Balance.{BalanceInfo, available, resolve_action_balance}
use ton_payment_network.Actions as Actions
use ton_payment_network.Actions.{
  ton_insured, PendingMessageInfo, send_add_coins, prepare_execute_send_state,
}
use ton_payment_network.Conditionals.Virtual.Defs as VirtualDefs
use ton_payment_network.Conditionals.Virtual.Ops as VirtualOps
use ton_payment_network.Exchange.{Agreed, Channel, load_signed_state}
use ton_payment_network.Exchange.Conds.{code_to_conditional}
use ton_payment_network.Exchange.Balances.{
  start_balances, put_onchain, hold_amounts, hold_transfers, emulate_actions, emulate_conditional,
  emulate_conditionals, balances_of,
}
use ton_payment_network.Exchange.Balances.Conserve.{sent_in, calc_balance-conserves}
use ton_payment_network.Exchange.Swaps.{
  Wallets, Coins, Swap, new_send_action, action_kind, put_coins, check_funds, check_balances,
  propose_swap, process_swap,
}
use ton_payment_network.Exchange.Swaps.Same.{IsExchanged, process_swap-propose_swap}
use ton_payment_network.Exchange.Commits.{
  Signed, CommitRequest, CommitProposal, prepare_side, get_commit_request, with_commit,
  propose_coop_commit, process_coop_commit,
}
use ton_payment_network.Exchange.Commits.Flip.{IsCommon}
use ton_payment_network.Exchange.Commits.Same.{process_coop_commit-propose_coop_commit}
use ton_payment_network.Exchange.Commits.Fees.{get_commit_request-fee_differs}
use ton_payment_network.Tests.Parties.{
  keys, cells, resolver, other_coin, promised, bare, left, right, sent_of,
}
use ton_payment_network.Tests.Fixtures.{Slip, sends, coin, sent}

abbrev held : ℤ → ℤ → ℤ → BalanceInfo
held action locked pending = record {
  onchain = pos 100;
  action = action;
  on_hold = pos 0;
  conditional_locked = locked;
  conditional_pending = pending;
  coin_config = coin;
}

abbrev other : BalanceInfo
other = record (held (pos 0) (pos 0) (pos 0)) { onchain = pos 50; coin_config = other_coin }

-- The party that has sent 15 coins and promised 44, and the one that gets them.
abbrev payer_balances : Dict BalanceInfo
payer_balances = (0, held (negsuc 14) (pos 44) (pos 0)) ∷ (12884901888, other) ∷ []

abbrev payee_balances : Dict BalanceInfo
payee_balances = (0, held (pos 15) (pos 0) (pos 44)) ∷ (12884901888, other) ∷ []

calc_balance-conserves_example : (negsuc 14 ≡ pos 0 -ℤ pos 15) × (negsuc 14 +ℤ pos 15 ≡ pos 0)
unfolding balances_of start_balances put_onchain hold_amounts hold_transfers emulate_actions
    emulate_conditional emulate_conditionals Actions.emulate_balance VirtualOps.emulate_balance
    resolve_action_balance code_to_conditional VirtualDefs.parse VirtualDefs.serialize load_state
    lookup insert ◌+ℤ◌ ◌-ℤ◌ sent_in
calc_balance-conserves_example =
    calc_balance-conserves cells resolver 0 right payer_balances payee_balances
      (λ act e. ground arith, tt) tt refl refl

abbrev pub wallets : Wallets
wallets = record {
  vaults = λ cc a b. some false;
  jetton_root = λ cc. none;
  has_wallets = λ cc a b. true;
  code_hash = λ kind cc a b. if cc.balance_id == 0 then 5 else 6;
}

abbrev pub coins : Coins
coins id = if id == 0 then some coin else if id == 12884901888 then some other_coin else none

-- The party on the left gives 10 for 7 of the other coin.
abbrev swap : Swap
swap = record { from_balance_id = 0; to_balance_id = 12884901888; from_amount = 10; to_amount = 7 }

abbrev pub sent_new : ℕ → Slip
sent_new amount = sends (record { amount = pos amount; commited = pos 0; commited_seqno = 0 })

abbrev gave : Agreed Slip
gave = record bare { action_states = (5, sent_new 10) ∷ [] }

abbrev got : Agreed Slip
got = record promised { action_states = (5, sent_of 20) ∷ (6, sent_new 7) ∷ [] }

pub exchanged : IsExchanged left right
exchanged = record { turned = refl; ours = refl; theirs = refl }

process_swap-propose_swap_example : (gave ≡ gave) × (got ≡ got)
unfolding propose_swap process_swap new_send_action action_kind put_coins check_funds check_balances
    send_add_coins available balances_of start_balances put_onchain hold_amounts hold_transfers
    emulate_actions emulate_conditional emulate_conditionals Actions.emulate_balance
    VirtualOps.emulate_balance resolve_action_balance code_to_conditional VirtualDefs.parse
    VirtualDefs.serialize load_state lookup insert ◌+ℤ◌ ◌-ℤ◌
process_swap-propose_swap_example =
    process_swap-propose_swap cells wallets coins resolver resolver (some (λ s. true)) swap left
      right gave got got gave exchanged refl refl

-- The code of a message stands for it.
abbrev message : Signed Slip → Slip
message s = sends sent

abbrev hash : Slip → ℕ
hash c = 2

abbrev proposal : CommitProposal
proposal = record { action_id = 5; msg_signature = 4; with_fee = false }

common : IsCommon left right
unfolding load_signed_state
common = record { exchanged = exchanged; ids = refl; bodies = refl; commits = refl }

abbrev request : CommitRequest Slip
request = record {
  signed = record {
    channel_id = 40;
    seqno = 4;
    from_a = true;
    action = some (record {
      state_a = none;
      state_b = some (sends (record { amount = pos 15; commited = pos 15; commited_seqno = 4 }));
      code = 5;
    });
  };
  our_tx = none;
  their_tx = some (record {
    amounts = (0, pos 15) ∷ [];
    completion_body_prefix = 0;
    completion_address = 31;
    limit_depth = 0;
  });
}

requests :
    propose_coop_commit keys cells resolver message hash proposal left
    ≡ ok (with_commit message 5 left request)
unfolding propose_coop_commit get_commit_request prepare_side prepare_execute_send_state
    load_signed_state balances_of start_balances put_onchain hold_amounts hold_transfers
    emulate_actions emulate_conditional emulate_conditionals Actions.emulate_balance
    VirtualOps.emulate_balance resolve_action_balance code_to_conditional VirtualDefs.parse
    VirtualDefs.serialize load_state lookup insert ◌+ℤ◌ ◌-ℤ◌
requests = refl

process_coop_commit-propose_coop_commit_example :
    (stored : Channel Slip) × (process_coop_commit keys cells resolver message hash proposal right
      ≡ ok stored)
    × IsExchanged (with_commit message 5 left request) stored
    × ((with_commit message 5 left request).pending_commit ≡ stored.pending_commit)
process_coop_commit-propose_coop_commit_example =
    process_coop_commit-propose_coop_commit keys cells resolver message hash proposal left right
      (with_commit message 5 left request) common (inl refl) requests

-- The proposer on the right and the party on the left, whose action is paid out.
abbrev proposer : Channel Slip
proposer = record left { we_left = false }

abbrev accepting : Channel Slip
accepting = record right { we_left = true }

turned : IsCommon proposer accepting
unfolding load_signed_state
turned = record {
  exchanged = record { turned = refl; ours = refl; theirs = refl };
  ids = refl;
  bodies = refl;
  commits = refl;
}

abbrev paying : ℕ → Signed Slip
paying amount = record {
  channel_id = 40;
  seqno = 4;
  from_a = true;
  action = some (record {
    state_a =
        some (sends (record { amount = pos amount; commited = pos amount; commited_seqno = 4 }));
    state_b = none;
    code = 5;
  });
}

abbrev transfer : ℕ → PendingMessageInfo
transfer amount = record {
  amounts = (0, pos amount) ∷ [];
  completion_body_prefix = 0;
  completion_address = 31;
  limit_depth = 0;
}

get_commit_request-fee_differs_example : paying 18 ≢ paying 15
unfolding get_commit_request prepare_side prepare_execute_send_state available load_signed_state
    balances_of start_balances put_onchain hold_amounts hold_transfers emulate_actions
    emulate_conditional emulate_conditionals Actions.emulate_balance VirtualOps.emulate_balance
    resolve_action_balance code_to_conditional VirtualDefs.parse VirtualDefs.serialize load_state
    lookup insert ◌+ℤ◌ ◌-ℤ◌
get_commit_request-fee_differs_example =
    get_commit_request-fee_differs cells resolver proposer accepting 5 (sends sent) sent
      (ton_insured, coin)
      (record { signed = paying 18; our_tx = none; their_tx = some (transfer 18) })
      (record { signed = paying 15; our_tx = some (transfer 15); their_tx = none }) turned refl refl
      refl refl (omega arith) refl refl

-- ===== src/Tests/Exchanges.antt =====
-- Runs of the exchange of states.
use ton_payment_network.Base.{
  ℕ, ◌+◌, ◌%◌, ◌^◌, ◌≡◌, refl, Option, some, none, [], ◌∷◌, ok, arith, inr,
}
use ton_payment_network.Base.Int.{pos, ◌+ℤ◌, ◌-ℤ◌}
use ton_payment_network.Base.Dict.{lookup, insert, erase}
use ton_payment_network.Cells.{load_state}
use ton_payment_network.Balance.{mark_used}
use ton_payment_network.Conditionals.Virtual.Defs as VirtualDefs
use ton_payment_network.Conditionals.Virtual.Ops as VirtualOps
use ton_payment_network.Exchange.{StateBody, StateBodySigned, Agreed, Channel, load_signed_state}
use ton_payment_network.Exchange.Conds.{
  virtual, serialize, code_to_conditional, find_conditional, execute_settlement, run_action,
  add_known_resolve,
}
use ton_payment_network.Exchange.Propose.{
  ProposedAction, execute_conditional, of_meta, changed, propose, propose_execute, propose_remove,
  propose_commit, propose_add, executed_link, removed_link, find_linked, settle, settle_linked,
  drop, init_state, ensure_action_state, add_linked,
}
use ton_payment_network.Exchange.Process.{
  process, process_execute, process_remove, process_commit, process_add, outgoing_link, add_action,
}
use ton_payment_network.Exchange.Agree.{IsMirror, exchange-completes}
use ton_payment_network.Exchange.Signed.{
  update_our_state, process_action, finish_proposal, verify_both,
}
use ton_payment_network.Exchange.Mirror.{
  process_execute-propose_execute, process_remove-propose_remove, process_commit-propose_commit,
}
use ton_payment_network.Exchange.Adding.{Allows, process_add-propose_add}
use ton_payment_network.Exchange.Process.{with_action}
use ton_payment_network.Conditionals.{Action}
use ton_payment_network.Tests.Parties.{
  keys, cells, known, moment, node, meta, with_prepay, cell_of, state, sent_of, promised, paid,
  bare, left, right,
}
use ton_payment_network.Tests.Fixtures.{Slip, sends, action, channel}

process_execute-propose_execute_example :
    process_execute cells (node known ((9, meta) ∷ [])) 50 (state 30) promised bare
    ≡ ok (paid, bare)
unfolding propose_execute executed_link find_linked settle settle_linked run_action
    execute_settlement find_conditional code_to_conditional VirtualDefs.parse VirtualDefs.serialize
    VirtualOps.execute VirtualOps.validate_state load_state lookup insert erase outgoing_link
    add_known_resolve mark_used ◌+ℤ◌ ◌-ℤ◌
process_execute-propose_execute_example =
    process_execute-propose_execute cells (node known []) (node known ((9, meta) ∷ [])) 50
      (state 30) meta meta (virtual channel) (some (state 30)) bare promised bare paid refl refl
      refl refl refl refl refl

process_remove-propose_remove_example :
    process_remove cells (node known ((9, meta) ∷ [])) 50 promised bare
    ≡ ok (record promised { conditionals = [] }, bare)
unfolding propose_remove removed_link find_linked drop outgoing_link find_conditional
    code_to_conditional VirtualDefs.parse VirtualDefs.serialize lookup erase
process_remove-propose_remove_example =
    process_remove-propose_remove cells (node known ((9, meta) ∷ [])) (node known ((9, meta) ∷ []))
      50 meta meta (virtual channel) bare promised bare (record promised { conditionals = [] }) refl
      refl refl refl refl refl refl

abbrev committed : Agreed Slip
committed = record promised {
  conditionals = (50, cell_of (with_prepay 14)) ∷ [];
  action_states = (5, sent_of 34) ∷ [];
}

process_commit-propose_commit_example :
    process_commit cells (node known []) 50 (cell_of (with_prepay 14)) bare promised
    ≡ ok (bare, committed)
unfolding propose_commit find_conditional code_to_conditional serialize VirtualDefs.parse
    VirtualDefs.serialize VirtualOps.commit load_state lookup insert ◌+ℤ◌ ◌-ℤ◌
process_commit-propose_commit_example =
    process_commit-propose_commit cells (node known []) (node known []) 50
      (cell_of (with_prepay 14)) promised bare committed bare refl refl

abbrev fresh : Agreed Slip
fresh = record bare {
  action_states = (5, sends (record { amount = pos 0; commited = pos 0; commited_seqno = 0 })) ∷ [];
}

abbrev added : Agreed Slip
added = record fresh { conditionals = (50, cell_of channel) ∷ [] }

abbrev unknown : ℕ → Option Action
unknown id = none

-- The action is new to the accepting party.
allows :
    Allows cells
      (node unknown [])
      5
      (some action)
      (cell_of channel)
      (virtual channel)
      bare
      bare
      fresh
      (with_action action (moment unknown))
unfolding add_action ensure_action_state code_to_conditional VirtualDefs.parse VirtualDefs.serialize
    VirtualOps.validate_on_add lookup insert ◌-ℤ◌
allows = record {
  brings = inr refl;
  resolves = refl;
  reads = refl;
  near = refl;
  addable = refl;
  kind = refl;
  action_allowed = refl;
  new_key = refl;
  instruction = refl;
  pair = tt;
}

process_add-propose_add_example :
    process_add cells (node unknown []) 5 (some action) (cell_of channel) bare bare
    ≡ ok (bare, added)
unfolding propose_add init_state ensure_action_state add_linked serialize VirtualDefs.serialize
    VirtualOps.validate_on_add lookup insert ◌-ℤ◌
process_add-propose_add_example =
    process_add-propose_add cells (node known []) (node unknown []) 5 5 (some action)
      (cell_of channel) (virtual channel) bare bare fresh added bare
      (with_action action (moment unknown)) refl allows refl

abbrev pub paying : ProposedAction Slip
paying = execute_conditional 50 (state 30)

abbrev pub next : StateBody
next = record {
  channel_id = 40;
  seqno = 4;
  a = record { conditionals_hash = 0; action_states_hash = 0 };
  b = record { conditionals_hash = 0; action_states_hash = 7 };
}

-- The two bodies' hash is 44.
abbrev pub proposal : StateBodySigned
proposal = record { signature_a = 46; signature_b = 0; body = next }

abbrev pub answer : StateBodySigned
answer = record { signature_a = 46; signature_b = 47; body = next }

abbrev pub paid_right : Channel Slip
paid_right = record right { our = record right.our { agreed = paid }; signed_state = some answer }

mirror : IsMirror left right
unfolding load_signed_state
mirror = record {
  turned = refl;
  ours = refl;
  theirs = refl;
  our_keys = refl;
  their_keys = refl;
  bodies = refl;
}

proposes :
    propose cells (node known []) 5 paying (of_meta meta) bare promised ≡ ok (changed bare paid)
unfolding propose propose_execute executed_link find_linked settle settle_linked run_action
    execute_settlement find_conditional code_to_conditional VirtualDefs.parse VirtualDefs.serialize
    VirtualOps.execute VirtualOps.validate_state load_state lookup insert erase mark_used ◌+ℤ◌ ◌-ℤ◌
proposes = refl

pub processes : process cells (node known ((9, meta) ∷ [])) 5 paying promised bare ≡ ok (paid, bare)
unfolding process process_execute find_linked settle settle_linked run_action execute_settlement
    find_conditional code_to_conditional VirtualDefs.parse VirtualDefs.serialize VirtualOps.execute
    VirtualOps.validate_state load_state lookup insert erase outgoing_link add_known_resolve
    mark_used ◌+ℤ◌ ◌-ℤ◌
processes = refl

exchange-completes_example :
    (new stored done : Channel Slip) × (state answer : StateBodySigned) × (update_our_state keys
        cells
        (node known [])
        1
        left
        paying
        (of_meta meta)
      ≡ ok (new, state))
    × (process_action keys cells (node known ((9, meta) ∷ [])) 2 1 right state paying
        ≡ ok (stored, answer))
    × (finish_proposal keys new state answer ≡ ok done)
    × IsMirror done stored
    × (done.signed_state ≡ some answer)
    × (stored.signed_state ≡ some answer)
    × (verify_both keys stored answer ≡ ok tt)
    × (answer.body.seqno ≡ ((load_signed_state left).body.seqno + 1) % 2 ^ 64)
unfolding load_signed_state
exchange-completes_example =
    exchange-completes keys cells (node known []) (node known ((9, meta) ∷ [])) 1 2 left right
      paying (of_meta meta) bare paid mirror (refl, refl) refl refl (omega arith) proposes processes

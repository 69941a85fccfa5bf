-- ===== src/Exchange/Process.antt =====
-- tonpayments/process.go: `ProcessAction`, which applies a proposed action to the accepting party's
-- copy of the channel.
use ton_payment_network.Base.{
  ℕ, not, Option, none, some, Result, ok, err, ◌>>=◌, ◌>>◌, raise_if, or_raise, ◌==◌, if◌then◌else◌,
}
use ton_payment_network.Base.Dict.{lookup, insert, erase}
use ton_payment_network.Conditionals.{Action}
use ton_payment_network.Conditionals.Resolvable.Settle.{build_linked}
use ton_payment_network.Db.Metas.{Meta}
use ton_payment_network.Exchange.{
  Agreed, ExchangeError, bad_conditional, not_allowed, no_state, key_used, not_initiator,
  failed_link,
}
use ton_payment_network.Exchange.Conds.{
  Conditional, virtual, resolvable, CondEnv, Moment, key_of, action_of, found, serialize,
  code_to_conditional, find_conditional, validate_on_add, add_known_resolve, commit,
}
use ton_payment_network.Exchange.Propose.{
  ProposedAction, increment_states, add_conditional, commit_virtual, remove_conditional,
  execute_conditional, Node, check_deadline, check_removable, meta_of, link_of, conditional_hash,
  ensure_conditional, ensure_action_state, find_linked, drop, settle, settle_linked,
}

-- `tmpFullResolver`: a new action is known besides the stored ones.
abbrev pub with_action : Action → Moment → Moment
with_action act m = record m {
  actions = λ id. elim (m.actions id) [
    | some known ↦ some known
    | none ↦ if id == act.id then some act else none
  ];
}

module _ {Cell : Type 0} where
  abbrev pub unused : Node Cell → ℕ → Result ExchangeError Unit
  unused node key = elim (lookup key node.metas) [ some old ↦ err key_used | none ↦ ok tt ]

  abbrev pub accepts_kind : Node Cell → Conditional → Result ExchangeError Unit
  accepts_kind node (virtual c) = ok tt
  accepts_kind node (resolvable c) = raise_if (not node.accepting_derivatives) not_allowed

module _ {Cell : Type 0} (env : CondEnv Cell) where
  -- `addActionToChannel`, and the resolver that goes on: an action that is there is nothing new.
  unfoldable pub add_action :
      Node Cell → Option Action → Agreed Cell → Result ExchangeError (Agreed Cell × Moment)
  add_action node none their = ok (their, node.moment)
  add_action node (some act) their = elim (lookup act.id their.action_states) [
    | some old ↦ ok (their, node.moment)
    | none ↦
        (raise_if (not (node.new_action_allowed act)) not_allowed
          >> (ensure_action_state env act their >>= λ added.
              ok (added, with_action act node.moment)))
  ]

  -- The other half of a derivative's pair, whose key must be new too.
  unfoldable pub accept_linked :
      Node Cell → Conditional → Agreed Cell → Result ExchangeError (Agreed Cell)
  accept_linked node (virtual c) our = ok our
  accept_linked node (resolvable c) our = do
    raise_if (not c.is_initiator) not_initiator
    linked ← or_raise (build_linked env.linked_key env.reverse c) failed_link
    unused node linked.key
    with_cond ← ensure_conditional env (resolvable linked) our
    ensure_action_state env linked.action with_cond

  -- A new conditional, which the proposer has not got.
  unfoldable pub accept_new :
      Node Cell
      → Conditional
      → Cell
      → Agreed Cell
      → Agreed Cell
      → Result ExchangeError (Agreed Cell × Agreed Cell)
  accept_new node cond cell our their = do
    validate_on_add env node.moment cond
    accepts_kind node cond
    raise_if (not (node.incoming_allowed (action_of cond))) not_allowed
    unused node (key_of cond)
    let their' = record their { conditionals = insert (env.hash cell) cell their.conditionals }
    raise_if (not (node.instruction_allowed cond our their')) not_allowed
    our' ← accept_linked node cond our
    ok (our', their')

  unfoldable pub process_add :
      Node Cell
      → ℕ
      → Option Action
      → Cell
      → Agreed Cell
      → Agreed Cell
      → Result ExchangeError (Agreed Cell × Agreed Cell)
  process_add node period new proposed our their = do
    added ← add_action node new their
    cond ← code_to_conditional env added.1 proposed
    cell ← serialize env cond
    raise_if (not (env.hash proposed == env.hash cell)) bad_conditional
    check_deadline node period cond
    old ← found (find_conditional env added.1 added.0.conditionals (env.hash cell))
    elim old [ some same ↦ ok (our, added.0) | none ↦ accept_new node cond cell our added.0 ]

  unfoldable pub process_commit :
      Node Cell
      → ℕ
      → Cell
      → Agreed Cell
      → Agreed Cell
      → Result ExchangeError (Agreed Cell × Agreed Cell)
  process_commit node id updated our their = do
    cond ← find_conditional env node.moment their.conditionals id
    upd ← code_to_conditional env node.moment updated
    state ← or_raise (lookup (action_of cond).id their.action_states) no_state
    r ← commit env cond upd state
    new ← serialize env r.1
    ok (
      our,
      record their {
        conditionals = insert id new their.conditionals;
        action_states = insert (action_of cond).id r.0 their.action_states;
      },
    )

  -- The linked conditional as the outgoing side's record says it; a record that is named must be there.
  unfoldable pub outgoing_link : Node Cell → Meta → Result ExchangeError (Option ℕ)
  outgoing_link node meta = elim (link_of meta.outgoing) [
    | none ↦ ok none
    | some k ↦ (meta_of node k >>= λ l. ok (conditional_hash env l.incoming))
  ]

  unfoldable pub process_remove :
      Node Cell → ℕ → Agreed Cell → Agreed Cell → Result ExchangeError (Agreed Cell × Agreed Cell)
  process_remove node id our their = do
    known ← found (find_conditional env node.moment our.conditionals id)
    elim known [
      | none ↦ ok (our, their)
      | some cond ↦
          (meta_of node (key_of cond) >>= λ meta.
          check_removable node cond
          >> (outgoing_link node meta >>= λ link.
              find_linked env node.moment link their.conditionals >>= λ linked.
              ok (record our { conditionals = erase id our.conditionals }, drop env linked their)))
    ]

  abbrev pub known_resolve : Meta → Option Cell
  known_resolve meta = elim meta.last_known_resolve [
    | none ↦ none
    | some n ↦ some (env.stored_cell n)
  ]

  -- The action's state is written a second time after both sides are settled.
  unfoldable pub process_execute :
      Node Cell
      → ℕ
      → Cell
      → Agreed Cell
      → Agreed Cell
      → Result ExchangeError (Agreed Cell × Agreed Cell)
  process_execute node id resolve our their = do
    known ← found (find_conditional env node.moment our.conditionals id)
    elim known [
      | none ↦ ok (our, their)
      | some cond ↦
          (meta_of node (key_of cond) >>= λ meta.
          add_known_resolve env node.moment cond (known_resolve meta) resolve >>= λ _.
          outgoing_link node meta >>= λ link.
          find_linked env node.moment link their.conditionals >>= λ linked.
          settle env cond resolve our >>= λ r.
          settle_linked env node.moment linked resolve their >>= λ their'. ok (
            record r.1 {
              conditionals = erase id r.1.conditionals;
              action_states = insert (action_of cond).id r.0 r.1.action_states;
            },
            their',
          ))
    ]

  -- The switch of `ProcessAction`: our and their side with the action applied.
  unfoldable pub process :
      Node Cell
      → ℕ
      → ProposedAction Cell
      → Agreed Cell
      → Agreed Cell
      → Result ExchangeError (Agreed Cell × Agreed Cell)
  process node period (increment_states want) our their = ok (our, their)
  process node period (add_conditional new cell) our their =
      process_add node period new cell our their
  process node period (commit_virtual id updated) our their =
      process_commit node id updated our their
  process node period (remove_conditional id) our their = process_remove node id our their
  process node period (execute_conditional id resolve) our their =
      process_execute node id resolve our their

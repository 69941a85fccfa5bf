-- ===== src/Exchange/Propose.antt =====
-- tonpayments/state.go: `updateOurStateWithAction`, which applies an action to the proposer's copy of
-- the channel and signs the result. Of the actions here, those that rent capacity, swap or commit
-- are not.
use ton_payment_network.Base.{
  ℕ, ◌+◌, Bool, not, Option, none, some, Result, ok, err, ◌>>=◌, ◌>>◌, raise_if, or_raise, ◌==◌,
  if◌then◌else◌,
}
use ton_payment_network.Base.Int.{pos, ◌-ℤ◌, ltb_ℤ}
use ton_payment_network.Base.Dict.{Dict, lookup, insert, erase}
use ton_payment_network.Actions.{empty_send_state}
use ton_payment_network.Conditionals.{Action}
use ton_payment_network.Conditionals.Resolvable.Settle.{build_linked}
use ton_payment_network.Db.Metas.{Meta, MetaSide, linked_key_of}
use ton_payment_network.Exchange.{
  Agreed, ExchangeError, missing_details, deadline_too_close, no_action_code, no_state, failed_link,
  unknown_meta, not_removable, expired,
}
use ton_payment_network.Exchange.Conds.{
  Conditional, virtual, resolvable, CondEnv, Moment, key_of, action_of, deadline_of, found,
  serialize, code_to_conditional, find_conditional, validate_on_add, validate_state, commit,
  execute_settlement, run_action, execute_linked,
}

-- The transport's actions: `add_conditional` has the action whose code it brings, if any, and the
-- conditional's cell.
pub data ProposedAction (Cell : Type 0) : Type 0 where
  increment_states : Bool → ProposedAction Cell
  add_conditional : Option Action → Cell → ProposedAction Cell
  commit_virtual : ℕ → Cell → ProposedAction Cell
  remove_conditional : ℕ → ProposedAction Cell
  execute_conditional : ℕ → Cell → ProposedAction Cell

-- `details any`
pub data Details : Type 0 where
  no_details : Details
  of_conditional : Conditional → Details
  of_meta : Meta → Details

-- The agreed parts of our and of their side after an action; `same` is the flag `idempotency`.
pub data Update (Cell : Type 0) : Type 0 where
  same : Update Cell
  changed : Agreed Cell → Agreed Cell → Update Cell

-- A node at the moment of a call: what it knows of the conditionals, `ensureDerivativeRemovable` by
-- the key, how near a deadline may be, and the tests of the accepting party: its configuration
-- (`AcceptingDerivatives`), `validateIncomingAction`, the checks of `addActionToChannel` on a new
-- action, and those on the instruction of a new conditional over the sides with it (`CalcBalance`,
-- `DecryptOurInstruction`, `CheckInstruction`, and for a relay the choice of the next channel).
pub record Node (Cell : Type 0) : Type 0 where
  pub moment : Moment
  pub metas : Dict Meta
  pub removable : ℕ → Bool
  pub min_safe_timeout : ℕ
  pub accepting_derivatives : Bool
  pub incoming_allowed : Action → Bool
  pub new_action_allowed : Action → Bool
  pub instruction_allowed : Conditional → Agreed Cell → Agreed Cell → Bool

abbrev pub link_of : Option MetaSide → Option ℕ
link_of none = none
link_of (some side) = side.linked_key

module _ {Cell : Type 0} where
  -- The check on `safe`, the seconds that are left when the channel is closed without cooperation.
  abbrev pub check_deadline : Node Cell → ℕ → Conditional → Result ExchangeError Unit
  check_deadline node period cond =
      raise_if
        (ltb_ℤ (deadline_of cond -ℤ pos (node.moment.now + period)) (pos node.min_safe_timeout))
        deadline_too_close

  abbrev pub check_removable : Node Cell → Conditional → Result ExchangeError Unit
  check_removable node (virtual c) = ok tt
  check_removable node (resolvable c) = raise_if (not (node.removable c.key)) not_removable

  abbrev pub meta_of : Node Cell → ℕ → Result ExchangeError Meta
  meta_of node key = or_raise (lookup key node.metas) unknown_meta

module _ {Cell : Type 0} (env : CondEnv Cell) where
  abbrev pub conditional_hash : Option MetaSide → Option ℕ
  conditional_hash none = none
  conditional_hash (some side) = some (env.hash (env.stored_cell side.conditional))

  -- `ensureConditionalOnSide`
  unfoldable pub ensure_conditional : Conditional → Agreed Cell → Result ExchangeError (Agreed Cell)
  ensure_conditional cond side = do
    cell ← serialize env cond
    ok (elim (lookup (env.hash cell) side.conditionals) [
      | some old ↦ side
      | none ↦ record side { conditionals = insert (env.hash cell) cell side.conditionals }
    ])

  -- `ensureActionStateOnSide`
  unfoldable pub ensure_action_state : Action → Agreed Cell → Result ExchangeError (Agreed Cell)
  ensure_action_state act side = elim (lookup act.id side.action_states) [
    | some old ↦ ok side
    | none ↦
        (or_raise (empty_send_state env.virtual_env.action_codec) no_state >>= λ cell.
        ok (record side { action_states = insert act.id cell side.action_states }))
  ]

  -- The other party's side of a new conditional: a derivative comes with its linked one.
  unfoldable pub add_linked : Conditional → Agreed Cell → Result ExchangeError (Agreed Cell)
  add_linked (virtual c) side = ok side
  add_linked (resolvable c) side = do
    linked ← or_raise (build_linked env.linked_key env.reverse c) failed_link
    with_cond ← ensure_conditional (resolvable linked) side
    ensure_action_state linked.action with_cond

  -- The action's state must be there, or its code must come with the action.
  unfoldable pub init_state :
      Option Action → Action → Agreed Cell → Result ExchangeError (Agreed Cell)
  init_state new act our = elim (lookup act.id our.action_states) [
    | some old ↦ ok our
    | none ↦ (or_raise new no_action_code >>= λ _. ensure_action_state act our)
  ]

  unfoldable pub propose_add :
      Node Cell
      → ℕ
      → Option Action
      → Conditional
      → Agreed Cell
      → Agreed Cell
      → Result ExchangeError (Update Cell)
  propose_add node period new cond our their = do
    validate_on_add env node.moment cond
    check_deadline node period cond
    cell ← serialize env cond
    elim (lookup (env.hash cell) our.conditionals) [
      | some old ↦ ok same
      | none ↦
          (init_state new (action_of cond) our >>= λ our'. add_linked cond their >>= λ their'. ok (
            changed (record our' { conditionals = insert (env.hash cell) cell our'.conditionals })
              their'))
    ]

  unfoldable pub propose_commit :
      Node Cell → ℕ → Cell → Agreed Cell → Agreed Cell → Result ExchangeError (Update Cell)
  propose_commit node id updated our their = do
    upd ← code_to_conditional env node.moment updated
    cond ← find_conditional env node.moment our.conditionals id
    state ← or_raise (lookup (action_of cond).id our.action_states) no_state
    old ← serialize env cond
    if env.hash updated == env.hash old
        then ok same
        else (commit env cond upd state >>= λ r. serialize env r.1 >>= λ new. ok (
            changed
              (record our {
                conditionals = insert id new our.conditionals;
                action_states = insert (action_of cond).id r.0 our.action_states;
              })
              their))

  abbrev first : Option ℕ → Option ℕ → Option ℕ
  first none b = b
  first (some a) b = some a

  -- The linked conditional of one that is removed: its hash, where the records say it.
  unfoldable pub removed_link : Node Cell → Meta → Option ℕ
  removed_link node meta = elim (linked_key_of meta) [
    | none ↦ none
    | some k ↦ elim (lookup k node.metas) [
      | none ↦ none
      | some l ↦ first (conditional_hash l.outgoing) (conditional_hash l.incoming)
    ]
  ]

  -- The linked conditional of one that is executed.
  unfoldable pub executed_link : Node Cell → Meta → Option ℕ
  executed_link node meta = elim (link_of meta.incoming) [
    | none ↦ none
    | some k ↦ elim (lookup k node.metas) [ none ↦ none | some l ↦ conditional_hash l.outgoing ]
  ]

  -- A linked conditional that is not there is passed over.
  unfoldable pub find_linked :
      Moment → Option ℕ → Dict Cell → Result ExchangeError (Option (ℕ × Conditional))
  find_linked m none conditionals = ok none
  find_linked m (some id) conditionals = do
    c ← found (find_conditional env m conditionals id)
    ok (elim c [ none ↦ none | some cond ↦ some (id, cond) ])

  unfoldable pub drop : Option (ℕ × Conditional) → Agreed Cell → Agreed Cell
  drop none side = side
  drop (some (id, cond)) side = record side { conditionals = erase id side.conditionals }

  unfoldable pub propose_remove :
      Node Cell → ℕ → Agreed Cell → Agreed Cell → Result ExchangeError (Update Cell)
  propose_remove node id our their = do
    known ← found (find_conditional env node.moment their.conditionals id)
    elim known [
      | none ↦ ok same
      | some cond ↦
          (meta_of node (key_of cond) >>= λ meta.
          check_removable node cond
          >> (find_linked node.moment (removed_link node meta) our.conditionals >>= λ linked. ok (
              changed (drop linked our)
                (record their { conditionals = erase id their.conditionals }))))
    ]

  unfoldable pub settle_linked :
      Moment → Option (ℕ × Conditional) → Cell → Agreed Cell → Result ExchangeError (Agreed Cell)
  settle_linked m none resolve side = ok side
  settle_linked m (some (id, cond)) resolve side = do
    s ← execute_linked env m cond resolve side
    ok (record s { conditionals = erase id s.conditionals })

  unfoldable pub settle :
      Conditional → Cell → Agreed Cell → Result ExchangeError (Cell × Agreed Cell)
  settle cond resolve side =
      run_action env (action_of cond).id (λ s d. execute_settlement env cond s resolve d) side

  unfoldable pub propose_execute :
      Node Cell → ℕ → Cell → Meta → Agreed Cell → Agreed Cell → Result ExchangeError (Update Cell)
  propose_execute node id resolve meta our their = do
    known ← found (find_conditional env node.moment their.conditionals id)
    elim known [
      | none ↦ ok same
      | some cond ↦
          (validate_state env node.moment cond none resolve
            >> (raise_if (ltb_ℤ (deadline_of cond) (pos node.moment.now)) expired
                >> (find_linked node.moment (executed_link node meta) our.conditionals >>= λ linked.
                    settle cond resolve their >>= λ r.
                    settle_linked node.moment linked resolve our >>= λ our'.
                    ok (changed our' (record r.1 { conditionals = erase id r.1.conditionals })))))
    ]

  -- The switch of `updateOurStateWithAction`; `details` of another type is a panic.
  unfoldable pub propose :
      Node Cell
      → ℕ
      → ProposedAction Cell
      → Details
      → Agreed Cell
      → Agreed Cell
      → Result ExchangeError (Update Cell)
  propose node period (increment_states want) info our their = ok (changed our their)
  propose node period (add_conditional new cell) (of_conditional cond) our their =
      propose_add node period new cond our their
  propose node period (commit_virtual id updated) info our their =
      propose_commit node id updated our their
  propose node period (remove_conditional id) info our their = propose_remove node id our their
  propose node period (execute_conditional id resolve) (of_meta meta) our their =
      propose_execute node id resolve meta our their
  propose node period _ _ our their = err missing_details

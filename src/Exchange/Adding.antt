-- ===== src/Exchange/Adding.antt =====
-- A new conditional on both copies of a channel: what the proposer adds is what the other party adds,
-- where its tests let it.
use ton_payment_network.Base.{
  ℕ, ◌≡◌, refl, true, Option, none, some, ok, ◌⊎◌, inl, inr, Result-cases, Option-cases, ==_self,
  arith,
}
use ton_payment_network.Base.Dict.{lookup, insert}
use ton_payment_network.Conditionals.{Action}
use ton_payment_network.Conditionals.Resolvable.Settle.{build_linked}
use ton_payment_network.Exchange.{Agreed}
use ton_payment_network.Exchange.Conds.{
  Conditional, virtual, resolvable, CondEnv, Moment, key_of, action_of, serialize,
  code_to_conditional, find_conditional, validate_on_add,
}
use ton_payment_network.Exchange.Propose.{
  Node, changed, check_deadline, init_state, ensure_action_state, add_linked, propose_add,
}
use ton_payment_network.Exchange.Process.{
  add_action, accept_linked, accept_new, process_add, accepts_kind, unused,
}

module _ {Cell : Type 0} (env : CondEnv Cell) where
  -- What the tests on a derivative's pair ask for.
  abbrev pub AllowsPair : Node Cell → Conditional → Type 0
  AllowsPair node (virtual c) = Unit
  AllowsPair node (resolvable c) =
      (c.is_initiator ≡ true) × (unused node (env.linked_key c.key) ≡ ok tt)

  -- The tests of a party that accepts the conditional in `cell`, with `ours` the proposer's side after
  -- a new action's state was put there, and `m` what the party can resolve then.
  pub record Allows (node : Node Cell) (period : ℕ) (new : Option Action) (cell : Cell)
      (cond : Conditional) (our their ours : Agreed Cell) (m : Moment) : Type 0 where
    pub brings : (new ≡ none) ⊎ (new ≡ some (action_of cond))
    pub resolves : add_action env node new our ≡ ok (ours, m)
    pub reads : code_to_conditional env m cell ≡ ok cond
    pub near : check_deadline node period cond ≡ ok tt
    pub addable : validate_on_add env node.moment cond ≡ ok tt
    pub kind : accepts_kind node cond ≡ ok tt
    pub action_allowed : node.incoming_allowed (action_of cond) ≡ true
    pub new_key : unused node (key_of cond) ≡ ok tt
    pub instruction :
        node.instruction_allowed cond their
          (record ours { conditionals = insert (env.hash cell) cell ours.conditionals })
        ≡ true
    pub pair : AllowsPair node cond

  linked_alike :
      (node : Node Cell) (cond : Conditional) (side : Agreed Cell)
      → AllowsPair node cond
      → accept_linked env node cond side ≡ add_linked env cond side
  unfolding accept_linked add_linked build_linked
  linked_alike node (virtual c) side w = refl
  linked_alike node (resolvable c) side w = elim (Option-cases (env.reverse c.action)) [
    | inl e ↦ ground arith
    | inr (a, e) ↦ ground arith
  ]

  -- The state of the conditional's action is the same on both copies.
  state_alike :
      (node : Node Cell) (new : Option Action) (act : Action) (side mine ours : Agreed Cell)
      (m : Moment)
      → (new ≡ none) ⊎ (new ≡ some act)
      → add_action env node new side ≡ ok (ours, m)
      → init_state env new act side ≡ ok mine
      → (ours ≡ mine) × (mine.conditionals ≡ side.conditionals)
  unfolding add_action init_state ensure_action_state
  state_alike node none act side mine ours m brings h g = (ground arith, ground arith)
  state_alike node (some a) act side mine ours m (inl e) h g = absurd (cc)
  state_alike node (some a) act side mine ours m (inr e) h g = (ground arith, ground arith)

  -- What an update that adds a conditional consists of.
  added_parts :
      (node : Node Cell) (period : ℕ) (new : Option Action) (cell : Cell) (cond : Conditional)
      (our their our' their' : Agreed Cell)
      → serialize env cond ≡ ok cell
      → propose_add env node period new cond our their ≡ ok (changed our' their')
      → (mine : Agreed Cell) × (init_state env new (action_of cond) our ≡ ok mine)
        × (lookup (env.hash cell) our.conditionals ≡ none)
        × (add_linked env cond their ≡ ok their')
        × (our' ≡ record mine { conditionals = insert (env.hash cell) cell mine.conditionals })
  unfolding propose_add
  added_parts node period new cell cond our their our' their' written h =
      elim (Result-cases (init_state env new (action_of cond) our)) [
        | inl (mine, e) ↦ (mine, e, ground arith, ground arith, ground arith)
        | inr (e, bad) ↦ absurd (ground arith)
      ]

  accepted_new :
      (node : Node Cell) (period : ℕ) (new : Option Action) (cell : Cell) (cond : Conditional)
      (our their ours their' : Agreed Cell) (m : Moment)
      → Allows node period new cell cond our their ours m
      → add_linked env cond their ≡ ok their'
      → accept_new env node cond cell their ours
        ≡ ok (their', record ours { conditionals = insert (env.hash cell) cell ours.conditionals })
  unfolding accept_new
  accepted_new node period new cell cond our their ours their' m w linked = rw (
    w.addable,
    w.kind,
    w.action_allowed,
    w.new_key,
    w.instruction,
    linked_alike node cond their w.pair,
    linked,
  )

  -- Where the accepting party's tests let it, a new conditional and its derivative's pair are added to
  -- both copies alike: the proposer's update is what the other party computes for itself.
  pub process_add-propose_add :
      (pnode rnode : Node Cell) (pperiod rperiod : ℕ) (new : Option Action) (cell : Cell)
      (cond : Conditional) (our their ours our' their' : Agreed Cell) (m : Moment)
      → serialize env cond ≡ ok cell
      → Allows rnode rperiod new cell cond our their ours m
      → propose_add env pnode pperiod new cond our their ≡ ok (changed our' their')
      → process_add env rnode rperiod new cell their our ≡ ok (their', our')
  unfolding process_add find_conditional
  process_add-propose_add pnode rnode pperiod rperiod new cell cond our their ours our' their' m
        written w h =
      let (mine, state, absent, linked, result) =
        added_parts pnode pperiod new cell cond our their our' their' written h in
      let alike =
        state_alike rnode new (action_of cond) our mine ours m w.brings w.resolves state in
      let absent' : lookup (env.hash cell) ours.conditionals ≡ none =
        rw (alike.0, alike.1) absent in
      let accepted = accepted_new rnode rperiod new cell cond our their ours their' m w linked in
      let same_side : our'
          ≡ record ours { conditionals = insert (env.hash cell) cell ours.conditionals } =
        rw alike.0 result in
      rw (w.resolves, w.reads, written, ==_self (env.hash cell), w.near, absent')
        (rw same_side accepted)

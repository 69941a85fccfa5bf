-- ===== src/Exchange/Mirror.antt =====
-- Both parties' code does the same to a side: what the proposer makes of an action is what the other
-- party makes of it.
use ton_payment_network.Base.{
  ℕ, ◌≡◌, Option, none, some, ok, arith, inl, inr, Result-cases, Option-cases, refl, [], ◌∷◌,
}
use ton_payment_network.Base.Dict.{Dict, lookup, insert}
use ton_payment_network.Db.Metas.{Meta}
use ton_payment_network.Exchange.{Agreed}
use ton_payment_network.Exchange.Conds.{
  Conditional, CondEnv, Moment, key_of, find_conditional, code_to_conditional, add_known_resolve,
  run_action, action_of, execute_settlement, execute_linked, linked_settle, virtual, resolvable,
}
use ton_payment_network.Exchange.Propose.{
  Node, changed, check_removable, meta_of, executed_link, removed_link, find_linked, settle,
  settle_linked, propose_commit, propose_remove, propose_execute,
}
use ton_payment_network.Exchange.Process.{
  outgoing_link, known_resolve, process_commit, process_remove, process_execute,
}

insert-insert_same :
    {V : Type 0} (k : ℕ) (v : V) (d : Dict V) → insert k v (insert k v d) ≡ insert k v d
unfolding insert
insert-insert_same k v [] = ground arith
insert-insert_same k v ((j, w) ∷ d) = ground (arith, insert-insert_same k v d)

module _ {Cell : Type 0} (env : CondEnv Cell) where
  -- The second write of an executed action's state changes nothing.
  settle-again :
      (cond : Conditional) (resolve : Cell) (side : Agreed Cell) (r : Cell × Agreed Cell)
      → settle env cond resolve side ≡ ok r
      → insert (action_of cond).id r.0 r.1.action_states ≡ r.1.action_states
  unfolding settle run_action
  settle-again cond resolve side r h =
      elim (Option-cases (lookup (action_of cond).id side.action_states)) [
        | inl missing ↦ absurd (ground arith)
        | inr (s, there) ↦
            elim (Result-cases (execute_settlement env cond s resolve side.locked_deposits)) [
              | inl (x, done) ↦
                  let e : r ≡ (
                    x.0,
                    record side {
                      action_states = insert (action_of cond).id x.0 side.action_states;
                      locked_deposits = x.1;
                    },
                  ) =
                    ground arith in
                  rw e (insert-insert_same (action_of cond).id x.0 side.action_states)
              | inr (e, failed) ↦ absurd (ground arith)
            ]
      ]

  -- What a node reads of a conditional depends only on the actions that it can resolve.
  module _ (m n : Moment) (actions : m.actions ≡ n.actions) where
    code_same : (c : Cell) → code_to_conditional env m c ≡ code_to_conditional env n c
    unfolding code_to_conditional
    code_same c = rw actions

    find_same : (d : Dict Cell) (id : ℕ) → find_conditional env m d id ≡ find_conditional env n d id
    unfolding find_conditional
    find_same d id = simp code_same

    linked_same :
        (link : Option ℕ) (d : Dict Cell) → find_linked env m link d ≡ find_linked env n link d
    unfolding find_linked
    linked_same none d = refl
    linked_same (some id) d = rw (find_same d id)

  settle_linked_same :
      (m n : Moment) (linked : Option (ℕ × Conditional)) (resolve : Cell) (side : Agreed Cell)
      → m.prices ≡ n.prices
      → settle_linked env m linked resolve side ≡ settle_linked env n linked resolve side
  unfolding settle_linked execute_linked linked_settle
  settle_linked_same m n none resolve side prices = refl
  settle_linked_same m n (some (id, virtual c)) resolve side prices = refl
  settle_linked_same m n (some (id, resolvable c)) resolve side prices = rw prices

  -- Executing a conditional of the proposer's other side: the other party, which knows the same
  -- conditional, gets the same two sides from the same action, if the resolve is not refused by what
  -- it knows already, its own record names the same linked conditional, and both nodes resolve
  -- actions and prices alike.
  pub process_execute-propose_execute :
      (pnode rnode : Node Cell) (id : ℕ) (resolve : Cell) (meta rmeta : Meta) (cond : Conditional)
      (known : Option Cell) (our their our' their' : Agreed Cell)
      → pnode.moment.actions ≡ rnode.moment.actions
      → pnode.moment.prices ≡ rnode.moment.prices
      → find_conditional env rnode.moment their.conditionals id ≡ ok cond
      → meta_of rnode (key_of cond) ≡ ok rmeta
      → add_known_resolve env rnode.moment cond (known_resolve env rmeta) resolve ≡ ok known
      → outgoing_link env rnode rmeta ≡ ok (executed_link env pnode meta)
      → propose_execute env pnode id resolve meta our their ≡ ok (changed our' their')
      → process_execute env rnode id resolve their our ≡ ok (their', our')
  unfolding propose_execute process_execute
  process_execute-propose_execute pnode rnode id resolve meta rmeta cond known our their our' their'
        actions prices there rmeta_there fresh link h =
      let find = find_same pnode.moment rnode.moment actions their.conditionals id in
      let linked_find =
        linked_same pnode.moment rnode.moment actions (executed_link env pnode meta)
          our.conditionals in
      elim (Result-cases (settle env cond resolve their)) [
        | inl (r, done) ↦
            let again = settle-again cond resolve their r done in
            elim (Result-cases
              (find_linked env rnode.moment (executed_link env pnode meta) our.conditionals)) [
                | inl (l, found_it) ↦
                    let way = settle_linked_same pnode.moment rnode.moment l resolve our prices in
                    ground arith
                | inr (e, bad) ↦ absurd (ground arith)
              ]
        | inr (e, failed) ↦ absurd (ground arith)
      ]

  -- Removing a conditional of the proposer's other side, and the linked one with it: the other party,
  -- which knows the same conditional and may remove it too, gets the same two sides, if its own
  -- record names the same linked conditional and both nodes resolve actions alike.
  pub process_remove-propose_remove :
      (pnode rnode : Node Cell) (id : ℕ) (rmeta meta : Meta) (cond : Conditional)
      (our their our' their' : Agreed Cell)
      → pnode.moment.actions ≡ rnode.moment.actions
      → find_conditional env rnode.moment their.conditionals id ≡ ok cond
      → meta_of pnode (key_of cond) ≡ ok meta
      → meta_of rnode (key_of cond) ≡ ok rmeta
      → check_removable rnode cond ≡ ok tt
      → outgoing_link env rnode rmeta ≡ ok (removed_link env pnode meta)
      → propose_remove env pnode id our their ≡ ok (changed our' their')
      → process_remove env rnode id their our ≡ ok (their', our')
  unfolding propose_remove process_remove
  process_remove-propose_remove pnode rnode id rmeta meta cond our their our' their' actions there
        meta_there rmeta_there removable link h =
      let find = find_same pnode.moment rnode.moment actions their.conditionals id in
      let linked_find =
        linked_same pnode.moment rnode.moment actions (removed_link env pnode meta)
          our.conditionals in
      elim (Result-cases
        (find_linked env rnode.moment (removed_link env pnode meta) our.conditionals)) [
          | inl (l, found_it) ↦ ground arith
          | inr (e, bad) ↦ absurd (ground arith)
        ]

  -- A commit of a conditional that changes something: the other party gets the same two sides, if
  -- both nodes resolve actions alike.
  pub process_commit-propose_commit :
      (pnode rnode : Node Cell) (id : ℕ) (updated : Cell) (our their our' their' : Agreed Cell)
      → pnode.moment.actions ≡ rnode.moment.actions
      → propose_commit env pnode id updated our their ≡ ok (changed our' their')
      → process_commit env rnode id updated their our ≡ ok (their', our')
  unfolding propose_commit process_commit
  process_commit-propose_commit pnode rnode id updated our their our' their' actions h =
      let find = find_same pnode.moment rnode.moment actions our.conditionals id in
      let code = code_same pnode.moment rnode.moment actions updated in ground arith

-- ===== src/Exchange/Steps.antt =====
-- Any sequence of exchanges of one party.
use ton_payment_network.Base.{
  ℕ, ◌≡◌, refl, ◌∙◌, ap, ok, inl, inr, Bool-cases, Result-cases, arith, ◌==◌,
}
use ton_payment_network.Exchange.{StateBodySigned, Channel, Crypto, load_signed_state}
use ton_payment_network.Exchange.Conds.{CondEnv}
use ton_payment_network.Exchange.Propose.{
  ProposedAction, Details, Node, Update, changed, same, propose,
}
use ton_payment_network.Exchange.Signed.{
  sign_update, verify_theirs, process_action, update_our_state, finish_proposal,
}
use ton_payment_network.Exchange.Sound.{
  IsConsistent, unmoved, finished, answered, process_action-IsConsistent,
  finish_proposal-IsConsistent,
}

module _ {Cell : Type 0} (crypto : Crypto Cell) (env : CondEnv Cell) where
  process_action_key :
      (node : Node Cell) (pk key : ℕ) (ch stored : Channel Cell) (proposed answer : StateBodySigned)
      (action : ProposedAction Cell)
      → process_action crypto env node pk key ch proposed action ≡ ok (stored, answer)
      → stored.our.key ≡ ch.our.key
  unfolding process_action
  process_action_key node pk key ch stored proposed answer action h =
      elim (Result-cases (verify_theirs crypto ch proposed)) [
        | inl (u, theirs) ↦
            elim (Bool-cases (proposed.body.seqno == (load_signed_state ch).body.seqno)) [
              | inl old ↦ rw (unmoved crypto ch stored proposed answer (ground arith)) refl
              | inr new ↦
                  let r =
                    answered crypto env node pk ch stored proposed answer action (ground arith) in
                  ap (λ (c : Channel Cell). c.our.key) r.5
            ]
        | inr (e, bad) ↦ absurd (ground arith)
      ]

  update_key :
      (pk : ℕ) (ch new : Channel Cell) (state : StateBodySigned) (u : Update Cell)
      → sign_update crypto pk ch u ≡ ok (new, state)
      → new.our.key ≡ ch.our.key
  update_key pk ch new state same h = ground arith
  update_key pk ch new state (changed our their) h = ground arith

  finish_proposal_key :
      (node : Node Cell) (pk : ℕ) (ch new done : Channel Cell) (state answer : StateBodySigned)
      (action : ProposedAction Cell) (info : Details)
      → update_our_state crypto env node pk ch action info ≡ ok (new, state)
      → finish_proposal crypto new state answer ≡ ok done
      → done.our.key ≡ ch.our.key
  unfolding update_our_state
  finish_proposal_key node pk ch new done state answer action info h g =
      let r = finished crypto new done state answer g in
      elim (Result-cases
        (propose env node ch.safe_onchain_close_period action info ch.our.agreed ch.their.agreed)) [
          | inl (u, e) ↦
              ap (λ (c : Channel Cell). c.our.key) r.2 ∙ update_key pk ch new state u (ground arith)
          | inr (x, bad) ↦ absurd (ground arith)
        ]

  -- What happens to one party's copy: it answers a proposal, or its own is answered, by whatever the
  -- other party sent, in any order and with whatever the node knows at that moment.
  pub data Step (pk : ℕ) (ch stored : Channel Cell) : Type 0 where
    answers :
        (node : Node Cell) (key : ℕ) (proposed answer : StateBodySigned)
        (action : ProposedAction Cell)
        → process_action crypto env node pk key ch proposed action ≡ ok (stored, answer)
        → Step pk ch stored
    proposes :
        (node : Node Cell) (new : Channel Cell) (state answer : StateBodySigned)
        (action : ProposedAction Cell) (info : Details)
        → update_our_state crypto env node pk ch action info ≡ ok (new, state)
        → finish_proposal crypto new state answer ≡ ok stored
        → Step pk ch stored

  pub data Steps (pk : ℕ) (ch : Channel Cell) : Channel Cell → Type 0 where
    here : Steps pk ch ch
    next : {mid last : Channel Cell} → Steps pk ch mid → Step pk mid last → Steps pk ch last

  abbrev Holds : ℕ → Channel Cell → Type 0
  Holds pk ch = IsConsistent crypto ch × (ch.our.key ≡ crypto.pub_of pk)

  Step-Holds :
      (pk : ℕ) (ch stored : Channel Cell) → Step pk ch stored → Holds pk ch → Holds pk stored
  Step-Holds pk ch stored (answers node key proposed answer action h) w = (
    process_action-IsConsistent crypto env node pk key ch stored proposed answer action w.1 w.0 h,
    process_action_key node pk key ch stored proposed answer action h ∙ w.1,
  )
  Step-Holds pk ch stored (proposes node new state answer action info h g) w = (
    finish_proposal-IsConsistent crypto env node pk ch new stored state answer action info w.1 w.0 h
        g,
    finish_proposal_key node pk ch new stored state answer action info h g ∙ w.1,
  )

  Steps-Holds : (pk : ℕ) {ch last : Channel Cell} → Steps pk ch last → Holds pk ch → Holds pk last
  Steps-Holds pk here w = w
  Steps-Holds pk (next {mid} {last} before step) w =
      Step-Holds pk mid last step (Steps-Holds pk before w)

  -- A party never keeps anything but what it has signed and been given the other party's signature
  -- for: from a consistent copy, through any sequence of answered and answering exchanges, whatever
  -- the other party sends, the stored sides are those of the stored state, and both signatures on
  -- it verify.
  pub Steps-IsConsistent :
      (pk : ℕ) (ch last : Channel Cell)
      → ch.our.key ≡ crypto.pub_of pk
      → IsConsistent crypto ch
      → Steps pk ch last
      → IsConsistent crypto last
  Steps-IsConsistent pk ch last k w steps = (Steps-Holds pk steps (w, k)).0

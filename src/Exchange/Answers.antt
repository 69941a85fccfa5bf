-- ===== src/Exchange/Answers.antt =====
-- What an answer to a proposal is, and what it does not depend on.
use ton_payment_network.Base.{
  ℕ, ◌+◌, ◌%◌, ◌^◌, ◌≡◌, refl, sym, Bool, true, false, not, some, ok, inl, inr, Result-cases, arith,
  ◌==◌,
}
use ton_payment_network.Exchange.{
  StateBody, StateBodySigned, Channel, Crypto, load_signed_state, side_of,
}
use ton_payment_network.Exchange.Conds.{CondEnv}
use ton_payment_network.Exchange.Propose.{ProposedAction, Node}
use ton_payment_network.Exchange.Process.{process}
use ton_payment_network.Exchange.Signed.{
  with_agreed, our_part, their_part, with_ours, sign_ours, verify_theirs, verify_both, check_hashes,
  answer_new, process_action,
}
use ton_payment_network.Exchange.Agree.{accepts, proposal_verifies}
use ton_payment_network.Exchange.Sound.{answered, hashes_equal, signed_by_both}

module _ {Cell : Type 0} (crypto : Crypto Cell) where
  hashes_of :
      (ch : Channel Cell) (body : StateBody) (other : ℕ)
      → check_hashes crypto ch body ≡ ok tt
      → check_hashes crypto ch (record body { channel_id = other }) ≡ ok tt
  unfolding check_hashes
  hashes_of ch body other h = h

module _ {Cell : Type 0} (crypto : Crypto Cell) (env : CondEnv Cell) where
  fresh_parts :
      (node : Node Cell) (pk key : ℕ) (ch stored : Channel Cell) (proposed answer : StateBodySigned)
      (action : ProposedAction Cell)
      → process_action crypto env node pk key ch proposed action ≡ ok (stored, answer)
      → (proposed.body.seqno == (load_signed_state ch).body.seqno) ≡ false
      → (ch.is_active ≡ true)
        × (ch.accepting_actions ≡ true)
        × (key ≡ ch.their.key)
        × (verify_theirs crypto ch proposed ≡ ok tt)
        × (proposed.body.seqno ≡ ((load_signed_state ch).body.seqno + 1) % 2 ^ 64)
        × (answer_new crypto env node pk ch proposed action ≡ ok (stored, answer))
  unfolding process_action
  fresh_parts node pk key ch stored proposed answer action h new =
      elim (Result-cases (verify_theirs crypto ch proposed)) [
        | inl (u, theirs) ↦
            (ground arith, ground arith, ground arith, theirs, ground arith, ground arith)
        | inr (e, bad) ↦ absurd (ground arith)
      ]

  -- An answer to a proposal that is no repetition: the other party itself asked, for the next seqno and
  -- with its signature; what is stored is our own application of the action, the signed body
  -- has the hashes of exactly those sides, and it is the proposed body with both signatures.
  pub process_action-stores_own :
      (node : Node Cell) (pk key : ℕ) (ch stored : Channel Cell) (proposed answer : StateBodySigned)
      (action : ProposedAction Cell)
      → ch.our.key ≡ crypto.pub_of pk
      → (proposed.body.seqno == (load_signed_state ch).body.seqno) ≡ false
      → process_action crypto env node pk key ch proposed action ≡ ok (stored, answer)
      → (key ≡ ch.their.key)
        × (proposed.body.seqno ≡ ((load_signed_state ch).body.seqno + 1) % 2 ^ 64)
        × (process env node ch.safe_onchain_close_period action ch.our.agreed ch.their.agreed
            ≡ ok (stored.our.agreed, stored.their.agreed))
        × (our_part ch.we_left answer.body ≡ side_of crypto stored.our.agreed)
        × (their_part ch.we_left answer.body ≡ side_of crypto stored.their.agreed)
        × (answer.body ≡ proposed.body)
        × (stored.signed_state ≡ some answer)
        × (verify_both crypto ch answer ≡ ok tt)
  process_action-stores_own node pk key ch stored proposed answer action k new h =
      let (active, accepting, same_key, theirs, seqno, done) =
        fresh_parts node pk key ch stored proposed answer action h new in
      let (our, their, applied, hashes, ans, sto) =
        answered crypto env node pk ch stored proposed answer action done in
      let sides = hashes_equal crypto (with_agreed ch our their) proposed.body hashes in
      (
        same_key,
        seqno,
        rw sto applied,
        rw (sto, ans) (sym sides.0),
        rw (sto, ans) (sym sides.1),
        rw ans refl,
        rw sto refl,
        rw ans (signed_by_both crypto pk ch proposed k theirs),
      )

  not-not : (b : Bool) → b ≡ not (not b)
  not-not true = refl
  not-not false = refl

  -- `ProcessAction` never compares the body's channel id with the channel's: whenever it accepts a
  -- new proposal, it also accepts the same one under any other channel id that the other party
  -- signs, and answers with our signature on a body of that other channel, which then has both.
  pub process_action-any_channel_id :
      (node : Node Cell) (pk tk key : ℕ) (ch stored : Channel Cell)
      (proposed answer : StateBodySigned) (action : ProposedAction Cell)
      → ch.our.key ≡ crypto.pub_of pk
      → ch.their.key ≡ crypto.pub_of tk
      → (proposed.body.seqno == (load_signed_state ch).body.seqno) ≡ false
      → process_action crypto env node pk key ch proposed action ≡ ok (stored, answer)
      → (other : ℕ)
      → (stored' : Channel Cell) × (answer' : StateBodySigned) × (process_action crypto env node pk
            key ch
            (sign_ours crypto tk (not ch.we_left) (record proposed.body { channel_id = other }))
            action
          ≡ ok (stored', answer'))
        × (answer'.body ≡ record proposed.body { channel_id = other })
        × (verify_both crypto ch answer' ≡ ok tt)
  process_action-any_channel_id node pk tk key ch stored proposed answer action k t new h other =
      let (active, accepting, same_key, theirs, seqno, done) =
        fresh_parts node pk key ch stored proposed answer action h new in
      let (our, their, applied, hashes, ans, sto) =
        answered crypto env node pk ch stored proposed answer action done in
      let body = record proposed.body { channel_id = other } in
      let forged = sign_ours crypto tk (not ch.we_left) body in
      let turned = not-not ch.we_left in
      let verifies =
        proposal_verifies crypto tk (record ch { we_left = not ch.we_left }) ch body turned t in
      (
        record (with_agreed ch our their) {
          signed_state =
              some (with_ours ch.we_left (crypto.sign pk (crypto.body_hash body)) forged);
        },
        with_ours ch.we_left (crypto.sign pk (crypto.body_hash body)) forged,
        accepts crypto env node pk key ch forged action their our (active, accepting) same_key
            verifies new seqno applied
            (hashes_of crypto (with_agreed ch our their) proposed.body other hashes),
        refl,
        signed_by_both crypto pk ch forged k verifies,
      )

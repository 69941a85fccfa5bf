-- ===== src/Exchange/Agree.antt =====
-- One whole exchange: the proposer's request, the other party's answer and what the proposer makes of
-- it, on two copies of one channel.
use ton_payment_network.Base.{
  ℕ, ◌+◌, ◌%◌, ◌^◌, ◌<◌, ◌≡◌, refl, sym, ◌∙◌, ◌==◌, true, false, not, some, ok, inl, inr,
  Bool-cases, ==_self, arith,
}
use ton_payment_network.Exchange.{
  StateBody, StateBodySigned, Agreed, Channel, Crypto, load_signed_state, verify,
}
use ton_payment_network.Exchange.Conds.{CondEnv}
use ton_payment_network.Exchange.Propose.{ProposedAction, Details, Node, changed, propose}
use ton_payment_network.Exchange.Process.{process}
use ton_payment_network.Exchange.Signed.{
  with_agreed, with_ours, next_body, sign_ours, process_action, answer_new, finish_proposal,
  update_our_state, with_theirs, verify_theirs, verify_both, check_hashes,
}

-- Two copies of a channel that agree: the sides are exchanged, and the last state is the same.
pub record IsMirror {Cell : Type 0} (p r : Channel Cell) : Type 0 where
  pub turned : r.we_left ≡ not p.we_left
  pub ours : p.our.agreed ≡ r.their.agreed
  pub theirs : p.their.agreed ≡ r.our.agreed
  pub our_keys : p.our.key ≡ r.their.key
  pub their_keys : p.their.key ≡ r.our.key
  pub bodies : (load_signed_state p).body ≡ (load_signed_state r).body

pub load_signed_state-with_agreed :
    {Cell : Type 0} (ch : Channel Cell) (our their : Agreed Cell)
    → load_signed_state (with_agreed ch our their) ≡ load_signed_state ch
unfolding load_signed_state
load_signed_state-with_agreed ch our their = refl

pub load_signed_state-some :
    {Cell : Type 0} (ch : Channel Cell) (s : StateBodySigned)
    → load_signed_state (record ch { signed_state = some s }) ≡ s
unfolding load_signed_state
load_signed_state-some ch s = refl

module _ {Cell : Type 0} (crypto : Crypto Cell) where
  pub proposal_verifies :
      (pk : ℕ) (p r : Channel Cell) (body : StateBody)
      → r.we_left ≡ not p.we_left
      → r.their.key ≡ crypto.pub_of pk
      → verify_theirs crypto r (sign_ours crypto pk p.we_left body) ≡ ok tt
  unfolding verify
  proposal_verifies pk p r body turned k =
      let sound = crypto.verify-sign pk (crypto.body_hash body) in
      elim (Bool-cases p.we_left) [ inl left ↦ ground arith | inr right ↦ ground arith ]

  hashes_match :
      (p r : Channel Cell) (our their : Agreed Cell)
      → r.we_left ≡ not p.we_left
      → check_hashes crypto (with_agreed r their our) (next_body crypto (with_agreed p our their))
        ≡ ok tt
  unfolding check_hashes
  hashes_match p r our their turned = elim (Bool-cases p.we_left) [
    | inl left ↦ ground arith
    | inr right ↦ ground arith
  ]

  answer_verifies :
      (pk rk : ℕ) (p r q : Channel Cell) (body : StateBody)
      → r.we_left ≡ not p.we_left
      → q.we_left ≡ p.we_left
      → q.our.key ≡ crypto.pub_of pk
      → q.their.key ≡ crypto.pub_of rk
      → verify_both crypto q (
          with_ours r.we_left
            (crypto.sign rk (crypto.body_hash body))
            (sign_ours crypto pk p.we_left body))
        ≡ ok tt
  unfolding verify
  answer_verifies pk rk p r q body turned same_way ours theirs =
      let sound = crypto.verify-sign pk (crypto.body_hash body) in
      let answered = crypto.verify-sign rk (crypto.body_hash body) in
      elim (Bool-cases p.we_left) [ inl left ↦ ground arith | inr right ↦ ground arith ]

  answer_verifies_back :
      (pk rk : ℕ) (p r q : Channel Cell) (body : StateBody)
      → r.we_left ≡ not p.we_left
      → q.we_left ≡ r.we_left
      → q.their.key ≡ crypto.pub_of pk
      → q.our.key ≡ crypto.pub_of rk
      → verify_both crypto q (
          with_ours r.we_left
            (crypto.sign rk (crypto.body_hash body))
            (sign_ours crypto pk p.we_left body))
        ≡ ok tt
  unfolding verify
  answer_verifies_back pk rk p r q body turned same_way theirs ours =
      let sound = crypto.verify-sign pk (crypto.body_hash body) in
      let answered = crypto.verify-sign rk (crypto.body_hash body) in
      elim (Bool-cases p.we_left) [ inl left ↦ ground arith | inr right ↦ ground arith ]

with_theirs-with_ours :
    {Cell : Type 0} (p r : Channel Cell) (state : StateBodySigned) (signature : ℕ)
    → r.we_left ≡ not p.we_left
    → with_theirs p.we_left state (with_ours r.we_left signature state)
      ≡ with_ours r.we_left signature state
with_theirs-with_ours p r state signature turned = elim (Bool-cases p.we_left) [
  | inl left ↦ ground arith
  | inr right ↦ ground arith
]

module _ {Cell : Type 0} (crypto : Crypto Cell) (env : CondEnv Cell) where
  pub accepts :
      (node : Node Cell) (rk key : ℕ) (r : Channel Cell) (state : StateBodySigned)
      (action : ProposedAction Cell) (our their : Agreed Cell)
      → (r.is_active ≡ true) × (r.accepting_actions ≡ true)
      → key ≡ r.their.key
      → verify_theirs crypto r state ≡ ok tt
      → (state.body.seqno == (load_signed_state r).body.seqno) ≡ false
      → state.body.seqno ≡ ((load_signed_state r).body.seqno + 1) % 2 ^ 64
      → process env node r.safe_onchain_close_period action r.our.agreed r.their.agreed
        ≡ ok (their, our)
      → check_hashes crypto (with_agreed r their our) state.body ≡ ok tt
      → process_action crypto env node rk key r state action
        ≡ ok (
          record (with_agreed r their our) {
            signed_state =
                some (with_ours r.we_left (crypto.sign rk (crypto.body_hash state.body)) state);
          },
          with_ours r.we_left (crypto.sign rk (crypto.body_hash state.body)) state,
        )
  unfolding process_action answer_new
  accepts node rk key r state action our their on k sound moved fresh h hashes = ground arith

  -- One exchange, from the proposal to what both parties store: if they have the same channel and
  -- keys, and the accepting party's own application of the action gives the sides that the proposer
  -- got, then the proposal is accepted, its answer is accepted, and both store one and the same
  -- state, signed by both, over copies that are each other's mirror again.
  pub exchange-completes :
      (pnode rnode : Node Cell) (pk rk : ℕ) (p r : Channel Cell) (action : ProposedAction Cell)
      (info : Details) (our their : Agreed Cell)
      → IsMirror p r
      → (r.is_active ≡ true) × (r.accepting_actions ≡ true)
      → p.our.key ≡ crypto.pub_of pk
      → p.their.key ≡ crypto.pub_of rk
      → (load_signed_state p).body.seqno < 2 ^ 64
      → propose env pnode p.safe_onchain_close_period action info p.our.agreed p.their.agreed
        ≡ ok (changed our their)
      → process env rnode r.safe_onchain_close_period action r.our.agreed r.their.agreed
        ≡ ok (their, our)
      → (new stored done : Channel Cell) × (state answer : StateBodySigned) × (update_our_state
            crypto env pnode pk p action info
          ≡ ok (new, state))
        × (process_action crypto env rnode rk p.our.key r state action ≡ ok (stored, answer))
        × (finish_proposal crypto new state answer ≡ ok done)
        × IsMirror done stored
        × (done.signed_state ≡ some answer)
        × (stored.signed_state ≡ some answer)
        × (verify_both crypto stored answer ≡ ok tt)
        × (answer.body.seqno ≡ ((load_signed_state p).body.seqno + 1) % 2 ^ 64)
  unfolding update_our_state finish_proposal
  exchange-completes pnode rnode pk rk p r action info our their m on pkey rkey small h g =
      let new = with_agreed p our their in
      let body = next_body crypto new in
      let state = sign_ours crypto pk p.we_left body in
      let answer = with_ours r.we_left (crypto.sign rk (crypto.body_hash body)) state in
      let stored = record (with_agreed r their our) { signed_state = some answer } in
      let done = record new { signed_state = some answer } in
      let kept = load_signed_state-with_agreed p our their in
      let fresh : body.seqno ≡ ((load_signed_state p).body.seqno + 1) % 2 ^ 64 = rw kept in
      let same_answer =
        with_theirs-with_ours p r state (crypto.sign rk (crypto.body_hash body)) m.turned in
      let both = answer_verifies crypto pk rk p r new body m.turned refl pkey rkey in
      let finish : finish_proposal crypto new state answer ≡ ok done =
        rw (both, ==_self (crypto.body_hash body), same_answer) refl in
      (
        new,
        stored,
        done,
        state,
        answer,
        rw h,
        accepts rnode rk p.our.key r state action our their on m.our_keys
            (proposal_verifies crypto pk p r body m.turned (sym m.our_keys ∙ pkey))
            (rw (← m.bodies) (rw kept (ground arith))) (rw (← m.bodies) fresh) g
            (hashes_match crypto p r our their m.turned),
        finish,
        record {
          turned = m.turned;
          ours = refl;
          theirs = refl;
          our_keys = m.our_keys;
          their_keys = m.their_keys;
          bodies =
              rw
                (
                  load_signed_state-some new answer,
                  load_signed_state-some (with_agreed r their our) answer,
                )
                refl;
        },
        refl,
        refl,
        answer_verifies_back crypto pk rk p r stored body m.turned refl (sym m.our_keys ∙ pkey)
            (sym m.their_keys ∙ rkey),
        fresh,
      )

-- ===== src/Exchange/Sound.antt =====
-- What a party has signed is what it keeps: through every answer and every proposal, the last state
-- is that of the stored sides and both parties' signatures on it verify.
use ton_payment_network.Base.{
  ℕ, ◌≡◌, refl, ◌∙◌, ap, some, ok, inl, inr, Bool-cases, Result-cases, arith, ◌==◌,
}
use ton_payment_network.Exchange.{
  StateBody, StateBodySigned, Agreed, Channel, Crypto, load_signed_state, verify, side_of,
}
use ton_payment_network.Exchange.Conds.{CondEnv}
use ton_payment_network.Exchange.Propose.{
  ProposedAction, Details, Node, Update, changed, same, propose,
}
use ton_payment_network.Exchange.Process.{process}
use ton_payment_network.Exchange.Signed.{
  with_agreed, our_part, their_part, with_ours, with_theirs, next_body, sign_ours, sign_update,
  verify_theirs, verify_both, check_hashes, answer_again, answer_new, process_action,
  update_our_state, finish_proposal,
}

module _ {Cell : Type 0} (crypto : Crypto Cell) where
  -- The sides that are stored are those of the last state, and that state, once there is one, has
  -- both signatures.
  pub record IsConsistent (ch : Channel Cell) : Type 0 where
    pub our_side : side_of crypto ch.our.agreed ≡ our_part ch.we_left (load_signed_state ch).body
    pub their_side :
        side_of crypto ch.their.agreed ≡ their_part ch.we_left (load_signed_state ch).body
    pub signed : (s : StateBodySigned) → ch.signed_state ≡ some s → verify_both crypto ch s ≡ ok tt

  pub hashes_equal :
      (ch : Channel Cell) (body : StateBody)
      → check_hashes crypto ch body ≡ ok tt
      → (side_of crypto ch.our.agreed ≡ our_part ch.we_left body)
        × (side_of crypto ch.their.agreed ≡ their_part ch.we_left body)
  unfolding check_hashes
  hashes_equal ch body h = (ground arith, ground arith)

  pub signed_by_both :
      (pk : ℕ) (ch : Channel Cell) (s : StateBodySigned)
      → ch.our.key ≡ crypto.pub_of pk
      → verify_theirs crypto ch s ≡ ok tt
      → verify_both crypto ch (with_ours ch.we_left (crypto.sign pk (crypto.body_hash s.body)) s)
        ≡ ok tt
  unfolding verify
  signed_by_both pk ch s k h =
      let sound = crypto.verify-sign pk (crypto.body_hash s.body) in
      elim (Bool-cases ch.we_left) [ inl left ↦ ground arith | inr right ↦ ground arith ]

  joined_by_both :
      (pk : ℕ) (ch : Channel Cell) (body : StateBody) (answer : StateBodySigned)
      → ch.our.key ≡ crypto.pub_of pk
      → verify_both crypto ch answer ≡ ok tt
      → crypto.body_hash body ≡ crypto.body_hash answer.body
      → verify_both crypto ch (with_theirs ch.we_left (sign_ours crypto pk ch.we_left body) answer)
        ≡ ok tt
  unfolding verify
  joined_by_both pk ch body answer k h e =
      let sound = crypto.verify-sign pk (crypto.body_hash body) in
      elim (Bool-cases ch.we_left) [ inl left ↦ ground arith | inr right ↦ ground arith ]

  pub unmoved :
      (ch stored : Channel Cell) (proposed answer : StateBodySigned)
      → answer_again crypto ch proposed ≡ ok (stored, answer)
      → stored ≡ ch
  unfolding answer_again
  unmoved ch stored proposed answer h =
      elim (Result-cases
        (verify_both crypto ch (with_theirs ch.we_left (load_signed_state ch) proposed))) [
          | inl (u, e) ↦ ground arith
          | inr (e, bad) ↦ absurd (ground arith)
        ]

  next_sides :
      (ch : Channel Cell)
      → (side_of crypto ch.our.agreed ≡ our_part ch.we_left (next_body crypto ch))
        × (side_of crypto ch.their.agreed ≡ their_part ch.we_left (next_body crypto ch))
  next_sides ch = elim (Bool-cases ch.we_left) [
    | inl left ↦ (rw left refl, rw left refl)
    | inr right ↦ (rw right refl, rw right refl)
  ]

  pub finished :
      (new done : Channel Cell) (state answer : StateBodySigned)
      → finish_proposal crypto new state answer ≡ ok done
      → (verify_both crypto new answer ≡ ok tt)
        × (crypto.body_hash state.body ≡ crypto.body_hash answer.body)
        × (done ≡ record new { signed_state = some (with_theirs new.we_left state answer) })
  unfolding finish_proposal
  finished new done state answer h = elim (Result-cases (verify_both crypto new answer)) [
    | inl (u, e) ↦ (e, ground arith, ground arith)
    | inr (e, bad) ↦ absurd (ground arith)
  ]

  stored_state-IsConsistent :
      (ch : Channel Cell) (s : StateBodySigned)
      → side_of crypto ch.our.agreed ≡ our_part ch.we_left s.body
      → side_of crypto ch.their.agreed ≡ their_part ch.we_left s.body
      → verify_both crypto ch s ≡ ok tt
      → IsConsistent (record ch { signed_state = some s })
  unfolding load_signed_state
  stored_state-IsConsistent ch s ours theirs both = record {
    our_side = ours;
    their_side = theirs;
    signed = λ t e. let same_state : s ≡ t = cc e in rw (← same_state) both;
  }

  joined-IsConsistent :
      (pk : ℕ) (ch : Channel Cell) (body : StateBody) (answer : StateBodySigned)
      → ch.our.key ≡ crypto.pub_of pk
      → side_of crypto ch.our.agreed ≡ our_part ch.we_left body
      → side_of crypto ch.their.agreed ≡ their_part ch.we_left body
      → verify_both crypto ch answer ≡ ok tt
      → crypto.body_hash body ≡ crypto.body_hash answer.body
      → IsConsistent (record ch {
        signed_state = some (with_theirs ch.we_left (sign_ours crypto pk ch.we_left body) answer);
      })
  joined-IsConsistent pk ch body answer k ours theirs both hashes =
      stored_state-IsConsistent ch
        (with_theirs ch.we_left (sign_ours crypto pk ch.we_left body) answer) ours theirs
        (joined_by_both pk ch body answer k both hashes)

  update-IsConsistent :
      (pk : ℕ) (ch new done : Channel Cell) (state answer : StateBodySigned) (u : Update Cell)
      → ch.our.key ≡ crypto.pub_of pk
      → IsConsistent ch
      → sign_update crypto pk ch u ≡ ok (new, state)
      → finish_proposal crypto new state answer ≡ ok done
      → IsConsistent done
  update-IsConsistent pk ch new done state answer same k w h g =
      let (agreed, hashes, result) = finished new done state answer g in
      let kept : ch ≡ new = ground arith in
      let signed : sign_ours crypto pk ch.we_left (load_signed_state ch).body ≡ state =
        ground arith in
      rw (result, ← kept, ← signed)
        (joined-IsConsistent pk ch (load_signed_state ch).body answer k w.our_side w.their_side
          (ap (λ (c : Channel Cell). verify_both crypto c answer) kept ∙ agreed)
          (ap (λ (s : StateBodySigned). crypto.body_hash s.body) signed ∙ hashes))
  update-IsConsistent pk ch new done state answer (changed our their) k w h g =
      let (agreed, hashes, result) = finished new done state answer g in
      let next = with_agreed ch our their in
      let kept : next ≡ new = ground arith in
      let signed : sign_ours crypto pk ch.we_left (next_body crypto next) ≡ state = ground arith in
      let sides = next_sides next in
      rw (result, ← kept, ← signed)
        (joined-IsConsistent pk next (next_body crypto next) answer k sides.0 sides.1
          (ap (λ (c : Channel Cell). verify_both crypto c answer) kept ∙ agreed)
          (ap (λ (s : StateBodySigned). crypto.body_hash s.body) signed ∙ hashes))

module _ {Cell : Type 0} (crypto : Crypto Cell) (env : CondEnv Cell) where
  -- What an accepted new state is.
  pub answered :
      (node : Node Cell) (pk : ℕ) (ch stored : Channel Cell) (proposed answer : StateBodySigned)
      (action : ProposedAction Cell)
      → answer_new crypto env node pk ch proposed action ≡ ok (stored, answer)
      → (our their : Agreed Cell) × (process env node ch.safe_onchain_close_period action
            ch.our.agreed ch.their.agreed
          ≡ ok (our, their))
        × (check_hashes crypto (with_agreed ch our their) proposed.body ≡ ok tt)
        × (answer ≡ with_ours ch.we_left (crypto.sign pk (crypto.body_hash proposed.body)) proposed)
        × (stored ≡ record (with_agreed ch our their) { signed_state = some answer })
  unfolding answer_new
  answered node pk ch stored proposed answer action h =
      elim (Result-cases
        (process env node ch.safe_onchain_close_period action ch.our.agreed ch.their.agreed)) [
          | inl ((our, their), e) ↦ (our, their, e, ground arith, ground arith, ground arith)
          | inr (e, bad) ↦ absurd (ground arith)
        ]

  pub answer_new-IsConsistent :
      (node : Node Cell) (pk : ℕ) (ch stored : Channel Cell) (proposed answer : StateBodySigned)
      (action : ProposedAction Cell)
      → ch.our.key ≡ crypto.pub_of pk
      → verify_theirs crypto ch proposed ≡ ok tt
      → answer_new crypto env node pk ch proposed action ≡ ok (stored, answer)
      → IsConsistent crypto stored
  answer_new-IsConsistent node pk ch stored proposed answer action k theirs h =
      let (our, their, applied, hashes, ans, sto) =
        answered node pk ch stored proposed answer action h in
      let sides = hashes_equal crypto (with_agreed ch our their) proposed.body hashes in
      let both = signed_by_both crypto pk (with_agreed ch our their) proposed k theirs in
      rw (sto, ans)
        (stored_state-IsConsistent crypto (with_agreed ch our their)
          (with_ours ch.we_left (crypto.sign pk (crypto.body_hash proposed.body)) proposed) sides.0
          sides.1 both)

  pub process_action-IsConsistent :
      (node : Node Cell) (pk key : ℕ) (ch stored : Channel Cell) (proposed answer : StateBodySigned)
      (action : ProposedAction Cell)
      → ch.our.key ≡ crypto.pub_of pk
      → IsConsistent crypto ch
      → process_action crypto env node pk key ch proposed action ≡ ok (stored, answer)
      → IsConsistent crypto stored
  unfolding process_action
  process_action-IsConsistent node pk key ch stored proposed answer action k w h =
      elim (Result-cases (verify_theirs crypto ch proposed)) [
        | inl (u, theirs) ↦
            elim (Bool-cases (proposed.body.seqno == (load_signed_state ch).body.seqno)) [
              | inl old ↦
                  let same_channel : stored ≡ ch =
                    unmoved crypto ch stored proposed answer (ground arith) in
                  rw same_channel w
              | inr new ↦
                  answer_new-IsConsistent node pk ch stored proposed answer action k theirs
                    (ground arith)
            ]
        | inr (e, bad) ↦ absurd (ground arith)
      ]

  pub finish_proposal-IsConsistent :
      (node : Node Cell) (pk : ℕ) (ch new done : Channel Cell) (state answer : StateBodySigned)
      (action : ProposedAction Cell) (info : Details)
      → ch.our.key ≡ crypto.pub_of pk
      → IsConsistent crypto ch
      → update_our_state crypto env node pk ch action info ≡ ok (new, state)
      → finish_proposal crypto new state answer ≡ ok done
      → IsConsistent crypto done
  unfolding update_our_state
  finish_proposal-IsConsistent node pk ch new done state answer action info k w h g =
      elim (Result-cases
        (propose env node ch.safe_onchain_close_period action info ch.our.agreed ch.their.agreed)) [
          | inl (u, e) ↦
              update-IsConsistent crypto pk ch new done state answer u k w (ground arith) g
          | inr (x, bad) ↦ absurd (ground arith)
        ]

-- ===== src/Tests/Answers.antt =====
-- Runs of the answers to a proposal.
use ton_payment_network.Base.{ℕ, ◌+◌, ◌%◌, ◌^◌, ◌≡◌, refl, true, false, some, [], ◌∷◌, ok}
use ton_payment_network.Exchange.{StateBodySigned, Channel, load_signed_state, verify, side_of}
use ton_payment_network.Exchange.Process.{process}
use ton_payment_network.Exchange.Signed.{
  our_part, their_part, sign_ours, verify_both, check_hashes, process_action, answer_new,
}
use ton_payment_network.Exchange.Sound.{IsConsistent}
use ton_payment_network.Exchange.Steps.{answers, here, next, Steps-IsConsistent}
use ton_payment_network.Exchange.Answers.{process_action-stores_own, process_action-any_channel_id}
use ton_payment_network.Tests.Fixtures.{Slip}
use ton_payment_network.Tests.Parties.{
  keys, cells, known, node, meta, promised, paid, bare, agreed_state, right,
}
use ton_payment_network.Tests.Exchanges.{paying, proposal, answer, paid_right, processes}

consistent : IsConsistent keys right
unfolding load_signed_state verify
consistent = record {
  our_side = refl;
  their_side = refl;
  signed = λ s e. let same_state : agreed_state ≡ s = cc e in rw (← same_state) refl;
}

answered :
    process_action keys cells (node known ((9, meta) ∷ [])) 2 1 right proposal paying
    ≡ ok (paid_right, answer)
unfolding process_action answer_new verify check_hashes load_signed_state
answered = rw processes refl

Steps-IsConsistent_example : IsConsistent keys paid_right
Steps-IsConsistent_example =
    Steps-IsConsistent keys cells 2 right paid_right refl consistent
      (next here (answers (node known ((9, meta) ∷ [])) 1 proposal answer paying answered))

process_action-stores_own_example :
    (◌≡◌ {A = ℕ} 1 1)
    × (proposal.body.seqno ≡ ((load_signed_state right).body.seqno + 1) % 2 ^ 64)
    × (process cells (node known ((9, meta) ∷ [])) 5 paying promised bare ≡ ok (paid, bare))
    × (our_part false answer.body ≡ side_of keys paid)
    × (their_part false answer.body ≡ side_of keys bare)
    × (answer.body ≡ proposal.body)
    × (paid_right.signed_state ≡ some answer)
    × (verify_both keys right answer ≡ ok tt)
unfolding load_signed_state
process_action-stores_own_example =
    process_action-stores_own keys cells (node known ((9, meta) ∷ [])) 2 1 right paid_right proposal
      answer paying refl refl answered

process_action-any_channel_id_example :
    (stored' : Channel Slip) × (answer' : StateBodySigned) × (process_action keys cells
        (node known ((9, meta) ∷ []))
        2
        1
        right
        (sign_ours keys 1 true (record proposal.body { channel_id = 41 }))
        paying
      ≡ ok (stored', answer'))
    × (answer'.body ≡ record proposal.body { channel_id = 41 })
    × (verify_both keys right answer' ≡ ok tt)
unfolding load_signed_state
process_action-any_channel_id_example =
    process_action-any_channel_id keys cells (node known ((9, meta) ∷ [])) 2 1 1 right paid_right
      proposal answer paying refl refl refl answered 41

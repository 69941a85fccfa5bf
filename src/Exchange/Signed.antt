-- ===== src/Exchange/Signed.antt =====
-- tonpayments/state.go, process.go and service.go: one exchange of a state. `update_our_state` makes
-- and signs the proposal, `process_action` is the other party's answer, and `finish_proposal` is
-- what `proposeAction` does with it. Each returns the channel as it is stored.
use ton_payment_network.Base.{
  ℕ, ◌+◌, ◌%◌, ◌^◌, Bool, not, none, some, Result, ok, err, ◌>>=◌, ◌>>◌, raise_if, ◌==◌,
  if◌then◌else◌,
}
use ton_payment_network.Exchange.{
  StateSide, StateBody, StateBodySigned, Agreed, Channel, ExchangeError, not_active, not_accepting,
  incorrect_key, inconsistent_state, incorrect_seqno, hash_mismatch, different_body, Crypto,
  load_signed_state, side_a, side_b, side_of, same_side, verify,
}
use ton_payment_network.Exchange.Conds.{CondEnv}
use ton_payment_network.Exchange.Propose.{
  ProposedAction, Details, Update, same, changed, Node, propose,
}
use ton_payment_network.Exchange.Process.{process}

module _ {Cell : Type 0} where
  abbrev pub with_agreed : Channel Cell → Agreed Cell → Agreed Cell → Channel Cell
  with_agreed ch our their = record ch {
    our = record ch.our { agreed = our };
    their = record ch.their { agreed = their };
  }

-- The state of our side in a body, and of theirs.
abbrev pub our_part : Bool → StateBody → StateSide
our_part we_left body = if we_left then body.a else body.b

abbrev pub their_part : Bool → StateBody → StateSide
their_part we_left body = if we_left then body.b else body.a

-- Our signature and an empty one, and a state with the other party's signature.
abbrev pub only_ours : Bool → ℕ → StateBody → StateBodySigned
only_ours we_left signature body = record {
  signature_a = if we_left then signature else 0;
  signature_b = if we_left then 0 else signature;
  body = body;
}

abbrev pub with_ours : Bool → ℕ → StateBodySigned → StateBodySigned
with_ours we_left signature s = record {
  signature_a = if we_left then signature else s.signature_a;
  signature_b = if we_left then s.signature_b else signature;
  body = s.body;
}

abbrev pub with_theirs : Bool → StateBodySigned → StateBodySigned → StateBodySigned
with_theirs we_left s theirs = record {
  signature_a = if we_left then s.signature_a else theirs.signature_a;
  signature_b = if we_left then theirs.signature_b else s.signature_b;
  body = s.body;
}

module _ {Cell : Type 0} (crypto : Crypto Cell) where
  -- The body that a proposal is about: the next seqno, as the 64 bits that it has.
  abbrev pub next_body : Channel Cell → StateBody
  next_body ch =
      let body = (load_signed_state ch).body in
      let our = side_of crypto ch.our.agreed in
      let their = side_of crypto ch.their.agreed in
      record body {
        seqno = (body.seqno + 1) % 2 ^ 64;
        a = if ch.we_left then our else their;
        b = if ch.we_left then their else our;
      }

  abbrev pub sign_ours : ℕ → Bool → StateBody → StateBodySigned
  sign_ours private_key we_left body =
      only_ours we_left (crypto.sign private_key (crypto.body_hash body)) body

  -- The end of `updateOurStateWithAction`
  abbrev pub sign_update :
      ℕ → Channel Cell → Update Cell → Result ExchangeError (Channel Cell × StateBodySigned)
  sign_update private_key ch same =
      ok (ch, sign_ours private_key ch.we_left (load_signed_state ch).body)
  sign_update private_key ch (changed our their) =
      let new = with_agreed ch our their in
      ok (new, sign_ours private_key ch.we_left (next_body new))

  -- "verify their side signature": the key of our own side is nil.
  abbrev pub verify_theirs : Channel Cell → StateBodySigned → Result ExchangeError Unit
  verify_theirs ch s =
      verify crypto (if ch.we_left then none else some ch.their.key)
        (if ch.we_left then some ch.their.key else none) s

  abbrev pub verify_both : Channel Cell → StateBodySigned → Result ExchangeError Unit
  verify_both ch s = verify crypto (some (side_a ch).key) (some (side_b ch).key) s

  abbrev pub or_inconsistent : Result ExchangeError Unit → Result ExchangeError Unit
  or_inconsistent (ok x) = ok x
  or_inconsistent (err e) = err inconsistent_state

  -- "idempotency check, set his signature to our state and verify"
  unfoldable pub answer_again :
      Channel Cell → StateBodySigned → Result ExchangeError (Channel Cell × StateBodySigned)
  answer_again ch proposed = do
    let current = with_theirs ch.we_left (load_signed_state ch) proposed
    or_inconsistent (verify_both ch current)
    ok (ch, current)

  -- The four comparisons of the resulting hashes with the proposal's.
  unfoldable pub check_hashes : Channel Cell → StateBody → Result ExchangeError Unit
  check_hashes ch body = do
    raise_if (not (same_side (side_of crypto ch.their.agreed) (their_part ch.we_left body)))
        hash_mismatch
    raise_if (not (same_side (side_of crypto ch.our.agreed) (our_part ch.we_left body)))
        hash_mismatch

  -- `proposeAction` when the other party agreed and sent `answer`: the channel as it is stored.
  unfoldable pub finish_proposal :
      Channel Cell → StateBodySigned → StateBodySigned → Result ExchangeError (Channel Cell)
  finish_proposal ch state answer = do
    verify_both ch answer
    raise_if (not (crypto.body_hash state.body == crypto.body_hash answer.body)) different_body
    ok (record ch { signed_state = some (with_theirs ch.we_left state answer) })

module _ {Cell : Type 0} (crypto : Crypto Cell) (env : CondEnv Cell) where
  -- `updateOurStateWithAction`: the channel with the action applied, and the signed proposal.
  unfoldable pub update_our_state :
      Node Cell
      → ℕ
      → Channel Cell
      → ProposedAction Cell
      → Details
      → Result ExchangeError (Channel Cell × StateBodySigned)
  update_our_state node private_key ch action info = do
    u ← propose env node ch.safe_onchain_close_period action info ch.our.agreed ch.their.agreed
    sign_update crypto private_key ch u

  unfoldable pub answer_new :
      Node Cell
      → ℕ
      → Channel Cell
      → StateBodySigned
      → ProposedAction Cell
      → Result ExchangeError (Channel Cell × StateBodySigned)
  answer_new node private_key ch proposed action = do
    r ← process env node ch.safe_onchain_close_period action ch.our.agreed ch.their.agreed
    let new = with_agreed ch r.0 r.1
    check_hashes crypto new proposed.body
    let signed =
        with_ours ch.we_left (crypto.sign private_key (crypto.body_hash proposed.body)) proposed
    ok (record new { signed_state = some signed }, signed)

  -- `ProcessAction`, once the channel's lock is taken: the channel as it is stored, and the answer.
  -- `key` is the key of the party that asks.
  unfoldable pub process_action :
      Node Cell
      → ℕ
      → ℕ
      → Channel Cell
      → StateBodySigned
      → ProposedAction Cell
      → Result ExchangeError (Channel Cell × StateBodySigned)
  process_action node private_key key ch proposed action = do
    raise_if (not ch.is_active) not_active
    raise_if (not ch.accepting_actions) not_accepting
    raise_if (not (key == ch.their.key)) incorrect_key
    verify_theirs crypto ch proposed
    let seqno = (load_signed_state ch).body.seqno
    if proposed.body.seqno == seqno
        then answer_again crypto ch proposed
        else (raise_if (not (proposed.body.seqno == (seqno + 1) % 2 ^ 64)) incorrect_seqno
            >> answer_new node private_key ch proposed action)

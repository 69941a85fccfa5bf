-- ===== src/Exchange/Commits.antt =====
-- tonpayments/api.go, `getCommitRequest`, and `CooperativeCommitAction` in state.go and process.go: the
-- parties agree on a message that pays out what an action's states say.
pub mod Flip
pub mod Same
pub mod Fees
use ton_payment_network.Base.{
  ℕ, ◌+◌, ◌%◌, ◌^◌, Bool, true, false, not, ◌&&◌, Option, none, some, [], ◌∷◌, Result, ok, ◌>>=◌,
  ◌>>◌, raise_if, or_raise, if◌then◌else◌,
}
use ton_payment_network.Base.Dict.{Dict, lookup, insert}
use ton_payment_network.Balance.{CoinConfig, BalanceInfo}
use ton_payment_network.Actions.{
  SendAction, ton_insured, jetton_insured, ec_insured, ton_vault, jetton_vault, ec_vault,
  PendingMessageInfo, prepare_execute_send_state,
}
use ton_payment_network.Exchange.{
  Agreed, Side, Channel, Crypto, ExchangeError, load_signed_state, unknown_action, failed_action,
  commit_pending, transfers_pending, not_onchain, nothing_to_commit, wrong_signature,
}
use ton_payment_network.Exchange.Conds.{CondEnv, or_fail}
use ton_payment_network.Exchange.Balances.{Resolver, calc_balance}

-- `payments.CooperativeCommitAction`, with the action's code by its hash, and the `Signed` part of
-- `payments.CooperativeCommit`.
pub record CommitAction (Cell : Type 0) : Type 0 where
  pub state_a : Option Cell
  pub state_b : Option Cell
  pub code : ℕ

pub record Signed (Cell : Type 0) : Type 0 where
  pub channel_id : ℕ
  pub seqno : ℕ
  pub from_a : Bool
  pub action : Option (CommitAction Cell)

-- What is signed, and what our and their contract are to get from it.
pub record CommitRequest (Cell : Type 0) : Type 0 where
  pub signed : Signed Cell
  pub our_tx : Option PendingMessageInfo
  pub their_tx : Option PendingMessageInfo

-- The prefix of the message that ends a payment, as a number of four bytes.
abbrev pub completion_op : SendAction → ℕ
completion_op ton_insured = 0
completion_op (jetton_insured root) = 2630902387
completion_op (ec_insured ec) = 0
completion_op ton_vault = 0
completion_op (jetton_vault root) = 2630902387
completion_op (ec_vault ec) = 0

-- What `CooperativeCommitAction` brings: the action's id, the proposer's signature on the message, and
-- whether the proposer pays the other party to send it.
pub record CommitProposal : Type 0 where
  pub action_id : ℕ
  pub msg_signature : ℕ
  pub with_fee : Bool

-- `feeFromUs` where the flag is set, and who is charged.
abbrev pub from_us : Option Bool → Bool
from_us none = false
from_us (some us) = us

abbrev pub from_them : Option Bool → Bool
from_them none = false
from_them (some us) = not us

abbrev pub are_none : Dict PendingMessageInfo → Dict PendingMessageInfo → Bool
are_none [] [] = true
are_none _ _ = false

module _ {Cell : Type 0} where
  abbrev pub state_of : ℕ → Agreed Cell → Option Cell
  state_of id side = lookup id side.action_states

  abbrev pub is_pending : Option (ℕ × Cell) → Bool
  is_pending none = false
  is_pending (some c) = true

  abbrev pub no_transfers : Channel Cell → Bool
  no_transfers ch = are_none ch.our.pending_onchain_transfers ch.their.pending_onchain_transfers

  -- The guards of both handlers.
  abbrev pub check_pending : Channel Cell → Result ExchangeError Unit
  check_pending ch = do
    raise_if (is_pending ch.pending_commit) commit_pending
    raise_if (not (no_transfers ch)) transfers_pending

  abbrev pub nothing : Option Cell → Option Cell → Bool
  nothing none none = true
  nothing _ _ = false

module _ {Cell : Type 0} (env : CondEnv Cell) where
  -- The state of one side that is paid out, to the other party at `party`.
  unfoldable pub prepare_side :
      SendAction × CoinConfig
      → ℕ
      → ℕ
      → Bool
      → Result ExchangeError (Dict BalanceInfo)
      → Option Cell
      → Result ExchangeError (Option Cell × Option PendingMessageInfo)
  prepare_side act party seqno fee balances none = ok (none, none)
  prepare_side act party seqno fee balances (some state) = do
    bs ← balances
    r ←
        or_fail
          (prepare_execute_send_state env.virtual_env.action_codec state seqno act.1 fee bs party
            (completion_op act.0))
          failed_action
    ok (some r.0, some r.1)

module _ {Cell : Type 0} (env : CondEnv Cell) (resolver : Resolver) where
  -- `getCommitRequest` for an action, but for the signature.
  unfoldable pub get_commit_request :
      Channel Cell → ℕ → Bool → Option Bool → Result ExchangeError (CommitRequest Cell)
  get_commit_request ch id by_us fee_from_us = do
    raise_if (not (ch.our.active_onchain && ch.their.active_onchain)) not_onchain
    let seqno = ((load_signed_state ch).body.seqno + 1) % 2 ^ 64
    act ← or_raise (resolver.send_actions id) unknown_action
    raise_if (nothing (state_of id ch.our.agreed) (state_of id ch.their.agreed)) nothing_to_commit
    ours ←
        prepare_side env act ch.their.address seqno (from_us fee_from_us)
          (calc_balance env resolver ch false) (state_of id ch.our.agreed)
    theirs ←
        prepare_side env act ch.our.address seqno (from_them fee_from_us)
          (calc_balance env resolver ch true) (state_of id ch.their.agreed)
    ok (record {
      signed = record {
        channel_id = ch.id;
        seqno = seqno;
        from_a = if by_us then ch.we_left else not ch.we_left;
        action = some (record {
          state_a = if ch.we_left then ours.0 else theirs.0;
          state_b = if ch.we_left then theirs.0 else ours.0;
          code = id;
        });
      };
      our_tx = ours.1;
      their_tx = theirs.1;
    })

-- A state that is not nil is set, and a transfer is kept by the seqno that it is paid with
-- (`pendingIDCommit`).
abbrev put_state : {Cell : Type 0} → ℕ → Option Cell → Dict Cell → Dict Cell
put_state id none states = states
put_state id (some s) states = insert id s states

abbrev put_transfer :
    ℕ → Option PendingMessageInfo → Dict PendingMessageInfo → Dict PendingMessageInfo
put_transfer seqno none transfers = transfers
put_transfer seqno (some t) transfers = insert seqno t transfers

abbrev pub commit_side :
    {Cell : Type 0} → ℕ → ℕ → Option Cell → Option PendingMessageInfo → Side Cell → Side Cell
commit_side id seqno state tx s = record s {
  agreed = record s.agreed { action_states = put_state id state s.agreed.action_states };
  pending_onchain_transfers = put_transfer seqno tx s.pending_onchain_transfers;
}

-- Our and their state in the message.
abbrev pub states_for :
    {Cell : Type 0} → Bool → Option (CommitAction Cell) → Option Cell × Option Cell
states_for we_left none = (none, none)
states_for we_left (some a) = if we_left then (a.state_a, a.state_b) else (a.state_b, a.state_a)

module _ {Cell : Type 0} (to_cell : Signed Cell → Cell) where
  -- The channel after both handlers' last steps.
  unfoldable pub with_commit : ℕ → Channel Cell → CommitRequest Cell → Channel Cell
  with_commit id ch req =
      let states = states_for ch.we_left req.signed.action in
      record ch {
        our = commit_side id req.signed.seqno states.0 req.our_tx ch.our;
        their = commit_side id req.signed.seqno states.1 req.their_tx ch.their;
        pending_commit = some (req.signed.seqno, to_cell req.signed);
      }

module _ {Cell : Type 0} (crypto : Crypto Cell) (env : CondEnv Cell) (resolver : Resolver)
    (to_cell : Signed Cell → Cell) (hash : Cell → ℕ) where
  -- `updateOurStateWithAction`: the proposer's own signature came with the action.
  unfoldable pub propose_coop_commit :
      CommitProposal → Channel Cell → Result ExchangeError (Channel Cell)
  propose_coop_commit act ch = do
    check_pending ch
    req ←
        get_commit_request env resolver ch act.action_id (not act.with_fee)
          (if act.with_fee then some ch.we_left else none)
    raise_if (not (crypto.verify ch.our.key (hash (to_cell req.signed)) act.msg_signature))
        wrong_signature
    ok (with_commit to_cell act.action_id ch req)

  -- `ProcessAction`; the message with both signatures is a task's.
  unfoldable pub process_coop_commit :
      CommitProposal → Channel Cell → Result ExchangeError (Channel Cell)
  process_coop_commit act ch = do
    check_pending ch
    req ←
        get_commit_request env resolver ch act.action_id act.with_fee
          (if act.with_fee then some false else none)
    raise_if (not (crypto.verify ch.their.key (hash (to_cell req.signed)) act.msg_signature))
        wrong_signature
    ok (with_commit to_cell act.action_id ch req)

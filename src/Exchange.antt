-- ===== src/Exchange.antt =====
-- tonpayments/state.go and process.go: how the two parties of a channel agree on a new state. The
-- proposer applies an action to its copy of the channel, signs the result and sends both; the other
-- party applies the action to its own copy and signs only what it gets itself. What both keep of a
-- side is `Agreed`.
pub mod Signed
pub mod Conds
pub mod Propose
pub mod Process
pub mod Agree
pub mod Mirror
pub mod Adding
pub mod Sound
pub mod Steps
pub mod Answers
pub mod Balances
pub mod Swaps
pub mod Commits
pub mod Rents
use ton_payment_network.Base.{
  ℕ, ◌≡◌, Bool, true, false, Option, none, some, List, [], ◌∷◌, Result, ok, or_raise, not, ◌&&◌,
  ◌==◌, ◌>>=◌, ◌>>◌, raise_if, if◌then◌else◌,
}
use ton_payment_network.Base.Int.{ℤ}
use ton_payment_network.Base.Dict.{Dict}
use ton_payment_network.Balance.{LockedDepositInfo}
use ton_payment_network.Actions.{PendingMessageInfo}

-- `StateSide`: two hashes of 32 bytes, zero for an empty dictionary.
pub record StateSide : Type 0 where
  pub conditionals_hash : ℕ
  pub action_states_hash : ℕ

pub record StateBody : Type 0 where
  pub channel_id : ℕ
  pub seqno : ℕ
  pub a : StateSide
  pub b : StateSide

-- A signature is the number that its 64 bytes spell; zero is the empty one.
pub record StateBodySigned : Type 0 where
  pub signature_a : ℕ
  pub signature_b : ℕ
  pub body : StateBody

-- A `Side`'s `Data` and `LockedDeposits`
pub record Agreed (Cell : Type 0) : Type 0 where
  pub conditionals : Dict Cell
  pub action_states : Dict Cell
  pub locked_deposits : Dict LockedDepositInfo

pub record Side (Cell : Type 0) : Type 0 where
  pub address : ℕ
  pub key : ℕ
  pub latest_commited_seqno : ℕ
  pub active_onchain : Bool
  pub onchain_balances : Dict ℤ
  pub pending_onchain_transfers : Dict PendingMessageInfo
  pub agreed : Agreed Cell

-- `Channel`, as far as the exchange of states reads it; `signed_state` is there when it is not nil,
-- and a pending commit is its seqno and its message.
pub record Channel (Cell : Type 0) : Type 0 where
  pub id : ℕ
  pub is_active : Bool
  pub we_left : Bool
  pub accepting_actions : Bool
  pub safe_onchain_close_period : ℕ
  pub signed_state : Option StateBodySigned
  pub pending_commit : Option (ℕ × Cell)
  pub our : Side Cell
  pub their : Side Cell

pub data ExchangeError : Type 0 where
  not_active not_accepting incorrect_key keys_are_nil invalid_signature_a invalid_signature_b :
      ExchangeError
  a_not_empty b_not_empty inconsistent_state incorrect_seqno hash_mismatch : ExchangeError
  different_body : ExchangeError
  bad_conditional missing_details not_addable deadline_too_close no_action_code no_state :
      ExchangeError
  unknown_conditional failed_commit failed_execute bad_resolve newer_known : ExchangeError
  expired failed_link : ExchangeError
  unknown_meta not_removable key_used not_initiator not_allowed : ExchangeError
  unknown_action nil_balance failed_balance : ExchangeError
  not_whitelisted failed_action not_enough_funds swaps_disabled swap_refused : ExchangeError
  commit_pending transfers_pending not_onchain nothing_to_commit wrong_signature : ExchangeError
  no_rate amount_not_increased till_decreased too_long too_big_to_rent no_payment : ExchangeError

-- ed25519 and the hashes of cells. `sign` takes a private key, whose public key is `pub_of`; a
-- body is signed by its cell's hash, and a dictionary that is not empty has a cell. A signature
-- is never 64 zero bytes, and what is signed with a key verifies with it.
pub record Crypto (Cell : Type 0) : Type 0 where
  pub body_hash : StateBody → ℕ
  pub dict_hash : Dict Cell → ℕ
  pub sign : ℕ → ℕ → ℕ
  pub pub_of : ℕ → ℕ
  pub verify : ℕ → ℕ → ℕ → Bool
  pub verify-sign : (k h : ℕ) → verify (pub_of k) h (sign k h) ≡ true

abbrev pub empty_side : StateSide
empty_side = record { conditionals_hash = 0; action_states_hash = 0 }

abbrev is_empty_side : StateSide → Bool
is_empty_side s = s.conditionals_hash == 0 && s.action_states_hash == 0

-- `StateBodySigned.IsEmpty`
unfoldable pub is_empty : StateBodySigned → Bool
is_empty s =
    s.signature_a == 0 && s.signature_b == 0 && is_empty_side s.body.a && is_empty_side s.body.b

-- `StateSide.Equals`
abbrev pub same_side : StateSide → StateSide → Bool
same_side s t =
    s.conditionals_hash == t.conditionals_hash && s.action_states_hash == t.action_states_hash

module _ {Cell : Type 0} where
  -- `LoadSignedState`
  unfoldable pub load_signed_state : Channel Cell → StateBodySigned
  load_signed_state ch = elim ch.signed_state [
    | some s ↦ s
    | none ↦ record {
      signature_a = 0;
      signature_b = 0;
      body = record {
        channel_id = ch.id;
        seqno = ch.our.latest_commited_seqno;
        a = empty_side;
        b = empty_side;
      };
    }
  ]

  -- `SideA` and `SideB`
  abbrev pub side_a : Channel Cell → Side Cell
  side_a ch = if ch.we_left then ch.our else ch.their

  abbrev pub side_b : Channel Cell → Side Cell
  side_b ch = if ch.we_left then ch.their else ch.our

module _ {Cell : Type 0} (crypto : Crypto Cell) where
  abbrev dict_hash_or_zero : Dict Cell → ℕ
  dict_hash_or_zero [] = 0
  dict_hash_or_zero (e ∷ d) = crypto.dict_hash (e ∷ d)

  -- The hashes of a side's dictionaries, 32 zero bytes for an empty one.
  abbrev pub side_of : Agreed Cell → StateSide
  side_of s = record {
    conditionals_hash = dict_hash_or_zero s.conditionals;
    action_states_hash = dict_hash_or_zero s.action_states;
  }

  abbrev check_signature :
      Option ℕ → ℕ → ℕ → ExchangeError → ExchangeError → Result ExchangeError Unit
  check_signature none hash signature wrong not_empty = raise_if (not (signature == 0)) not_empty
  check_signature (some key) hash signature wrong not_empty =
      raise_if (not (crypto.verify key hash signature)) wrong

  abbrev no_keys : Option ℕ → Option ℕ → Bool
  no_keys none none = true
  no_keys _ _ = false

  -- `StateBodySigned.Verify`, of the keys that are not nil
  unfoldable pub verify : Option ℕ → Option ℕ → StateBodySigned → Result ExchangeError Unit
  verify key_a key_b s = do
    raise_if (no_keys key_a key_b) keys_are_nil
    check_signature key_a (crypto.body_hash s.body) s.signature_a invalid_signature_a a_not_empty
    check_signature key_b (crypto.body_hash s.body) s.signature_b invalid_signature_b b_not_empty

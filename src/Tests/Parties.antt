-- ===== src/Tests/Parties.antt =====
-- Two parties of a channel for the runs: their keys, their copies and what they know.
use ton_payment_network.Base.{
  ℕ, ◌+◌, true, false, Option, some, none, [], ◌∷◌, ==_self, ◌==◌, if◌then◌else◌,
}
use ton_payment_network.Base.Int.{pos, abs}
use ton_payment_network.Base.Dict.{Dict}
use ton_payment_network.Balance.{CoinConfig}
use ton_payment_network.Actions.{SendAction, ton_insured}
use ton_payment_network.Exchange.Balances.{Resolver}
use ton_payment_network.Conditionals.{push_int, Code, Action}
use ton_payment_network.Conditionals.Virtual.Defs.{ConditionalVirtualChannel, serialize}
use ton_payment_network.Db.Metas.{active, MetaSide, Meta}
use ton_payment_network.Exchange.{StateBodySigned, Agreed, Side, Channel, Crypto}
use ton_payment_network.Exchange.Conds.{ConditionalCode, virtual_code, CondEnv, Moment}
use ton_payment_network.Exchange.Propose.{Node}
use ton_payment_network.Tests.Fixtures.{
  Slip, sends, signs, coded, resolve_codec, env, action, coin, sent, deposits, channel,
}

-- A key signs by adding itself; a body's hash is its seqno and its channel.
abbrev pub keys : Crypto Slip
keys = record {
  body_hash = λ b. b.seqno + b.channel_id;
  dict_hash = λ d. 7;
  sign = λ k h. k + h + 1;
  pub_of = λ k. k;
  verify = λ k h s. k + h + 1 == s;
  verify-sign = λ k h. ==_self (k + h + 1);
}

abbrev hash_of_code : Code → ℕ
hash_of_code (push_int id ∷ push_int fee ∷ push_int capacity ∷ push_int prepay ∷ rest) =
    50 + abs prepay
hash_of_code _ = 1

abbrev hash_of : Slip → ℕ
hash_of (coded (virtual_code code)) = hash_of_code code
hash_of _ = 2

abbrev decoded : Slip → Option ConditionalCode
decoded (coded c) = some c
decoded _ = none

abbrev pub cells : CondEnv Slip
cells = record {
  virtual_env = env;
  resolve_codec = resolve_codec;
  encode = coded;
  decode = decoded;
  hash = hash_of;
  stored_cell = λ n. sends sent;
  resolvable_static_code = 78;
  details_cells = record {
    store = λ d. none;
    load = λ h. none;
    load-store = λ d h e. absurd (cc e);
  };
  linked_key = λ k. k + 100;
  reverse = λ a. some a;
}

abbrev pub known : ℕ → Option Action
known id = if id == 5 then some action else none

abbrev pub moment : (ℕ → Option Action) → Moment
moment actions = record { now = 10; prices = λ asset. none; actions = actions }

abbrev pub receipt : MetaSide
receipt = record {
  channel_address = 1;
  conditional = 2;
  uncooperative_deadline = 30;
  safe_deadline = 20;
  sender_key = 5;
  linked_key = none;
}

abbrev pub meta : Meta
meta = record {
  key = 9;
  status = active;
  incoming = some receipt;
  outgoing = some receipt;
  last_known_resolve = none;
  final_destination = 1;
  special_details = none;
  created_at = 1;
  updated_at = 1;
}

abbrev pub node : (ℕ → Option Action) → Dict Meta → Node Slip
node actions metas = record {
  moment = moment actions;
  metas = metas;
  removable = λ key. true;
  min_safe_timeout = 3;
  accepting_derivatives = false;
  incoming_allowed = λ a. true;
  new_action_allowed = λ a. true;
  instruction_allowed = λ c our their. true;
}

abbrev pub with_prepay : ℕ → ConditionalVirtualChannel
with_prepay amount = record channel { prepay = pos amount }

abbrev pub cell_of : ConditionalVirtualChannel → Slip
cell_of c = coded (virtual_code (serialize 77 c))

abbrev pub state : ℕ → Slip
state amount = signs (record { signature = 1; amount = pos amount })

abbrev pub sent_of : ℕ → Slip
sent_of amount = sends (record sent { amount = pos amount })

-- A side that has promised a virtual channel, and one that has nothing.
abbrev pub promised : Agreed Slip
promised = record {
  conditionals = (50, cell_of channel) ∷ [];
  action_states = (5, sent_of 20) ∷ [];
  locked_deposits = deposits;
}

abbrev pub paid : Agreed Slip
paid = record {
  conditionals = [];
  action_states = (5, sent_of 54) ∷ [];
  locked_deposits = (0, record { amount = pos 50; till = 9; used = pos 44 }) ∷ [];
}

abbrev pub bare : Agreed Slip
bare = record { conditionals = []; action_states = []; locked_deposits = [] }

abbrev side : ℕ → Agreed Slip → Side Slip
side key agreed = record {
  address = key + 30;
  key = key;
  latest_commited_seqno = 3;
  active_onchain = true;
  onchain_balances = (0, pos 100) ∷ (12884901888, pos 50) ∷ [];
  pending_onchain_transfers = [];
  agreed = agreed;
}

-- The last state, of the seqno 3, with both signatures.
abbrev pub agreed_state : StateBodySigned
agreed_state = record {
  signature_a = 45;
  signature_b = 46;
  body = record {
    channel_id = 40;
    seqno = 3;
    a = record { conditionals_hash = 0; action_states_hash = 0 };
    b = record { conditionals_hash = 7; action_states_hash = 7 };
  };
}

-- The party 1 on the left, to whom the party 2 has promised a payment.
abbrev pub left : Channel Slip
left = record {
  id = 40;
  is_active = true;
  we_left = true;
  accepting_actions = true;
  safe_onchain_close_period = 5;
  signed_state = some agreed_state;
  pending_commit = none;
  our = side 1 bare;
  their = side 2 promised;
}

abbrev pub right : Channel Slip
right = record left { we_left = false; our = side 2 promised; their = side 1 bare }

-- A second coin, an extra currency.
abbrev pub other_coin : CoinConfig
other_coin = record coin { balance_id = 12884901888 }

abbrev sender : ℕ → Option (SendAction × CoinConfig)
sender id = if id == 5 then some (ton_insured, coin) else none

abbrev pub resolver : Resolver
resolver = record {
  moment = moment known;
  known_balance_types = coin ∷ other_coin ∷ [];
  send_actions = sender;
}

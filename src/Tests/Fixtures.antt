-- ===== src/Tests/Fixtures.antt =====
-- Data for the runs: one type of cells that holds each kind of state, and small configurations.
use ton_payment_network.Base.{ℕ, true, Option, none, some, [], ◌∷◌, arith}
use ton_payment_network.Base.Int.{pos}
use ton_payment_network.Base.Dict.{Dict}
use ton_payment_network.Cells.{Codec}
use ton_payment_network.Balance.{finite, CoinConfig, BalanceInfo, LockedDepositInfo}
use ton_payment_network.Actions.{StateActionSend}
use ton_payment_network.Conditionals.{Action}
use ton_payment_network.Conditionals.Virtual.Defs.{ConditionalVirtualChannel}
use ton_payment_network.Conditionals.Virtual.Ops.{
  InstructionDetails, VirtualChannelState, VirtualEnv,
}
use ton_payment_network.Conditionals.Resolvable.Defs.{ConditionalResolvable, ResolvableState}
use ton_payment_network.Exchange.Conds.{ConditionalCode}

pub data Slip : Type 0 where
  sends : StateActionSend → Slip
  signs : VirtualChannelState → Slip
  details : InstructionDetails → Slip
  resolves : ResolvableState → Slip
  coded : ConditionalCode → Slip

abbrev parse_sends : Slip → Option (StateActionSend × ℕ × ℕ)
parse_sends (sends a) = some (a, 0, 0)
parse_sends _ = none

abbrev parse_signs : Slip → Option (VirtualChannelState × ℕ × ℕ)
parse_signs (signs a) = some (a, 0, 0)
parse_signs _ = none

abbrev parse_details : Slip → Option (InstructionDetails × ℕ × ℕ)
parse_details (details a) = some (a, 0, 0)
parse_details _ = none

abbrev parse_resolves : Slip → Option (ResolvableState × ℕ × ℕ)
parse_resolves (resolves a) = some (a, 0, 0)
parse_resolves _ = none

abbrev pub send_codec : Codec Slip StateActionSend
send_codec = record {
  parse = parse_sends;
  store = λ a. some (sends a);
  parse-store = λ a c e. ground arith;
}

abbrev pub sign_codec : Codec Slip VirtualChannelState
sign_codec = record {
  parse = parse_signs;
  store = λ a. some (signs a);
  parse-store = λ a c e. ground arith;
}

abbrev pub details_codec : Codec Slip InstructionDetails
details_codec = record {
  parse = parse_details;
  store = λ a. some (details a);
  parse-store = λ a c e. ground arith;
}

abbrev pub resolve_codec : Codec Slip ResolvableState
resolve_codec = record {
  parse = parse_resolves;
  store = λ a. some (resolves a);
  parse-store = λ a c e. ground arith;
}

-- A signature is the signed amount, and every code has one hash.
abbrev pub env : VirtualEnv Slip
env = record {
  state_codec = sign_codec;
  action_codec = send_codec;
  details_codec = details_codec;
  verify = λ key amount signature. true;
  hash = λ code. 0;
  static_code = 77;
  percent_of = λ p x. pos 2;
}

abbrev pub coin : CoinConfig
coin = record {
  balance_id = 0;
  fee_per_withdraw_propose = 3;
  virtual_tunnel_config = record {
    max_capacity_to_rent_per_tx = 1000;
    capacity_deposit_fee = 2;
    capacity_fee_percent_per_30_days = finite (pos 100) 0;
    proxy_max_capacity = 1000;
    proxy_min_fee = 1;
    proxy_fee_percent = finite (pos 1) 0;
    derivative_fee_percent = finite (pos 1) 1;
    allow_tunneling = true;
  };
}

abbrev pub action : Action
action = record { id = 5; affected_coins = coin ∷ [] }

abbrev pub balance : BalanceInfo
balance = record {
  onchain = pos 100;
  action = pos 10;
  on_hold = pos 0;
  conditional_locked = pos 0;
  conditional_pending = pos 0;
  coin_config = coin;
}

abbrev pub balances : Dict BalanceInfo
balances = (0, balance) ∷ []

-- A state that has sent 20 coins, of which 5 were paid out at the seqno 2
abbrev pub sent : StateActionSend
sent = record { amount = pos 20; commited = pos 5; commited_seqno = 2 }

abbrev pub deposits : Dict LockedDepositInfo
deposits = (0, record { amount = pos 50; till = 9; used = pos 10 }) ∷ []

abbrev pub channel : ConditionalVirtualChannel
channel = record {
  key = 9;
  capacity = pos 40;
  fee = pos 4;
  prepay = pos 0;
  deadline = pos 30;
  action = action;
}

abbrev pub position : ConditionalResolvable
position = record {
  key = 11;
  amount = pos 50;
  fee = pos 2;
  is_initiator = true;
  resolver_addr = some 1;
  details = record { asset_id = 1; is_long = true; leverage = 3; entry_price = 100 };
  action = action;
}

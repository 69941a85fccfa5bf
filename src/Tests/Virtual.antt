-- ===== src/Tests/Virtual.antt =====
-- Runs of the virtual channel's conditional.
use ton_payment_network.Base.{ℕ, ◌^◌, ◌-◌, ◌≡◌, inl, refl, Option, none, some, [], ok, arith}
use ton_payment_network.Base.Int.{pos, ◌≤ℤ◌, ◌+ℤ◌, ◌-ℤ◌}
use ton_payment_network.Base.Dict.{lookup}
use ton_payment_network.Cells.{load_state}
use ton_payment_network.Balance.{available, resolve_action_balance}
use ton_payment_network.Conditionals.{Action, Code}
use ton_payment_network.Conditionals.Virtual.Defs.{ConditionalVirtualChannel, serialize, parse}
use ton_payment_network.Conditionals.Virtual.Ops.{
  locked_amount, max_ℤ, commit, prepare_commit, validate_state, execute,
}
use ton_payment_network.Conditionals.Virtual.Relay.{
  check_instruction, prepare_next, check_instruction-covers_next,
}
use ton_payment_network.Conditionals.Virtual.Codes.{IsSound}
use ton_payment_network.Conditionals.Virtual.Cells.{
  serialize_cell, code_bits, push_int_bits, parse-serialize_cell,
}
use ton_payment_network.Vm.{bits, length_field}
use ton_payment_network.Conditionals.Virtual.Payments.{commit-execute, execute-le-locked}
use ton_payment_network.Tests.Fixtures.{
  Slip, sends, signs, details, env, coin, action, balance, balances, sent, channel,
}

abbrev known : ℕ → Option Action
known id = some action

sound : IsSound channel
sound = record {
  fee = (omega arith, omega arith);
  capacity = (omega arith, omega arith);
  prepay = (omega arith, omega arith);
  deadline = (omega arith, omega arith);
  key = omega arith;
}

parse-serialize_cell_example :
    (code : Code) × (serialize_cell 77 channel ≡ some code) × (parse 77 known code ≡ ok channel)
parse-serialize_cell_example =
    parse-serialize_cell 77 known channel coin sound (inl (omega arith)) (omega arith) refl refl

-- Sound numbers of 123 bits, with a hash and a key of 256 bits and a deadline of 31 bits: the code
-- has 1024 bits.
abbrev too_long : ConditionalVirtualChannel
too_long = record {
  key = 2 ^ 256 - 1;
  capacity = pos (2 ^ 122);
  fee = pos (2 ^ 122);
  prepay = pos (2 ^ 122);
  deadline = pos (2 ^ 30);
  action = record action { id = 2 ^ 256 - 1 };
}

too_long-IsSound : IsSound too_long
too_long-IsSound = record {
  fee = (omega arith, omega arith);
  capacity = (omega arith, omega arith);
  prepay = (omega arith, omega arith);
  deadline = (omega arith, omega arith);
  key = omega arith;
}

too_long_panics : serialize_cell 77 too_long ≡ none
unfolding serialize_cell serialize code_bits push_int_bits length_field bits
too_long_panics = refl

written : parse 77 known (serialize 77 channel) ≡ ok channel
unfolding parse serialize
written = refl

abbrev state : ℕ → Slip
state amount = signs (record { signature = 1; amount = pos amount })

abbrev sent_of : ℕ → Slip
sent_of amount = sends (record sent { amount = pos amount })

abbrev with_prepay : ℕ → ConditionalVirtualChannel
with_prepay amount = record channel { prepay = pos amount }

commit-execute_example :
    load_state env.action_codec (sent_of 54) ≡ load_state env.action_codec (sent_of 54)
unfolding commit prepare_commit execute lookup load_state ◌+ℤ◌ ◌-ℤ◌
commit-execute_example =
    commit-execute env channel (with_prepay 14) (with_prepay 14) (state 10) (state 30) (sent_of 20)
      (sent_of 34) (sent_of 54) (sent_of 54) [] [] [] (record { signature = 1; amount = pos 10 })
      (record { signature = 1; amount = pos 30 }) sent refl refl refl (omega arith) refl refl refl
      refl

execute-le-locked_example :
    (pos 20 ≤ℤ pos 54) × (pos 54 ≤ℤ pos 20 +ℤ max_ℤ (locked_amount channel) (pos 0))
unfolding validate_state execute lookup load_state ◌+ℤ◌ ◌-ℤ◌
execute-le-locked_example =
    execute-le-locked env channel (some (state 10)) (sent_of 20) (state 30) (sent_of 54) [] [] sent
      (record sent { amount = pos 54 }) (omega arith) refl refl refl refl

abbrev instruction : Slip
instruction =
    details (record { expected_fee = 4; expected_capacity = 40; next_fee = 1; next_capacity = 38 })

abbrev next : ConditionalVirtualChannel
next = record channel { capacity = pos 38; fee = pos 1; deadline = pos 20 }

check_instruction-covers_next_example :
    (next.key ≡ channel.key)
    × (next.prepay ≡ pos 0)
    × (pos 38 ≤ℤ pos 40)
    × (pos 1 +ℤ pos 1 ≤ℤ pos 4)
    × (pos 38 +ℤ pos 1 ≤ℤ pos 40 +ℤ pos 4)
unfolding check_instruction prepare_next lookup resolve_action_balance available load_state ◌+ℤ◌
    ◌-ℤ◌
check_instruction-covers_next_example =
    check_instruction-covers_next env channel next instruction balances none action (pos 20) balance
      refl refl refl

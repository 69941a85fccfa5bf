-- ===== src/Conditionals.antt =====
-- pkg/payments/conditionals: what both kinds of conditionals share. A conditional is written as
-- TVM code: numbers, cells and addresses pushed in order, then a reference to the static code of its kind,
-- which is known by its hash. The bits of each instruction are vm/ops.go's.
pub mod Virtual
pub mod Resolvable
use ton_payment_network.Base.{ℕ, ◌^◌, ◌≤◌, ◌<◌, Bool, Option, List, [], ◌∷◌, Result, ok, err, leb}
use ton_payment_network.Base.Int.{ℤ, abs}
use ton_payment_network.Balance.{CoinConfig}

pub data Instr : Type 0 where
  push_int : ℤ → Instr
  push_ref : ℕ → Instr
  push_addr : Option ℕ → Instr
  code_ref : ℕ → Instr

abbrev pub Code : Type 0
Code = List Instr

-- A resolved `payments.Action`: the hash of its code, and the coins that it moves.
pub record Action : Type 0 where
  pub id : ℕ
  pub affected_coins : List CoinConfig

-- `newer_state_known` is `payments.ErrNewerConditionalStateIsKnown`.
pub data CondError : Type 0 where
  not_positive incorrect_value bad_details : CondError
  bad_code incorrect_bits_len negative too_big_key incorrect_code : CondError
  unexpected_data unknown_action unexpected_coins : CondError
  missing_balance something_changed prepay_decreased bad_state not_serialized : CondError
  invalid_capacity invalid_fee prepay_not_zero expired_deadline : CondError
  missing_details incorrect_values bad_signature not_full_capacity too_big_to_rent : CondError
  not_enough_balance capacity_increased tunneling_not_allowed too_big_next fee_too_low : CondError
  amount_over_capacity prepay_above_required newer_state_known : CondError

-- `x.BitLen() > k`
abbrev pub longer_than : ℕ → ℤ → Bool
longer_than k x = leb (2 ^ k) (abs x)

-- `vm.ReadIntOP`, at the level of instructions
pub read_int : Code → Result CondError (ℤ × Code)
read_int (push_int v ∷ rest) = ok (v, rest)
read_int _ = err bad_code

-- `LoadRefCell` on what is left, known by its hash
pub read_code_ref : Code → Result CondError (ℕ × Code)
read_code_ref (code_ref h ∷ rest) = ok (h, rest)
read_code_ref _ = err bad_code

-- `vm.ReadCellOP`, with the cell by its hash
pub read_ref : Code → Result CondError (ℕ × Code)
read_ref (push_ref h ∷ rest) = ok (h, rest)
read_ref _ = err bad_code

-- `vm.ReadSliceOP` and `LoadAddr`
pub read_addr : Code → Result CondError (Option ℕ × Code)
read_addr (push_addr a ∷ rest) = ok (a, rest)
read_addr _ = err bad_code

-- ===== src/Conditionals/Virtual/Defs.antt =====
-- pkg/payments/conditionals/channel.go: the data, the code and its parser.
use ton_payment_network.Base.{
  ℕ, not, Option, List, [], ◌∷◌, Result, ok, err, ◌>>=◌, ◌>>◌, raise_if, or_raise, ◌==◌,
}
use ton_payment_network.Base.Int.{ℤ, pos, abs, ltb_ℤ, leb_ℤ}
use ton_payment_network.Balance.{CoinConfig}
use ton_payment_network.Conditionals.{
  push_int, code_ref, Code, Action, CondError, incorrect_bits_len, negative, too_big_key,
  incorrect_code, unexpected_data, unknown_action, unexpected_coins, longer_than, read_int,
  read_code_ref,
}

-- The key is 32 bytes: the number that they spell.
pub record ConditionalVirtualChannel : Type 0 where
  pub key : ℕ
  pub capacity : ℤ
  pub fee : ℤ
  pub prepay : ℤ
  pub deadline : ℤ
  pub action : Action

-- The instructions of `Serialize`, over the hash of `virtualChannelUniversalStaticCode`; Cells says when
-- they fit in a cell.
unfoldable pub serialize : ℕ → ConditionalVirtualChannel → Code
serialize static_code c =
    push_int (pos c.action.id)
    ∷ push_int c.fee
    ∷ push_int c.capacity
    ∷ push_int c.prepay
    ∷ push_int c.deadline
    ∷ push_int (pos c.key)
    ∷ code_ref static_code
    ∷ []

-- "incorrect bits len", "cannot be negative"
abbrev pub read_coins : Code → Result CondError (ℤ × Code)
read_coins code = do
  p ← read_int code
  raise_if (longer_than 127 p.0) incorrect_bits_len
  raise_if (ltb_ℤ p.0 (pos 0)) negative
  ok p

abbrev pub no_more : Code → Result CondError Unit
no_more [] = ok tt
no_more (i ∷ rest) = err unexpected_data

abbrev pub one_coin : List CoinConfig → Result CondError Unit
one_coin (cc ∷ []) = ok tt
one_coin _ = err unexpected_coins

-- `parse`, with the action resolver as a function of the action's hash
unfoldable pub parse : ℕ → (ℕ → Option Action) → Code → Result CondError ConditionalVirtualChannel
unfolding read_int read_code_ref
parse static_code resolve code = do
  act_hash ← read_int code
  fee ← read_coins act_hash.1
  capacity ← read_coins fee.1
  prepay ← read_coins capacity.1
  deadline ← read_int prepay.1
  raise_if (longer_than 32 deadline.0) incorrect_bits_len
  raise_if (leb_ℤ deadline.0 (pos 0)) negative
  key ← read_int deadline.1
  raise_if (longer_than 256 key.0) too_big_key
  raise_if (longer_than 256 act_hash.0) too_big_key
  static ← read_code_ref key.1
  raise_if (not (static.0 == static_code)) incorrect_code
  no_more static.1
  a ← or_raise (resolve (abs act_hash.0)) unknown_action
  one_coin a.affected_coins
  ok (record {
    key = abs key.0;
    capacity = capacity.0;
    fee = fee.0;
    prepay = prepay.0;
    deadline = deadline.0;
    action = a;
  })

-- ===== src/Conditionals/Virtual/Cells.antt =====
-- pkg/payments/conditionals/channel.go: when the code of a virtual channel's conditional fits in one
-- cell. A builder takes 1023 bits, and `MustStoreBuilder` panics on more.
use ton_payment_network.Base.{
  ℕ, ◌+◌, ◌*◌, ◌^◌, ◌≤◌, ◌<◌, ◌≡◌, ◌⊎◌, Option, none, some, [], ◌∷◌, ok, arith, leb, inl, inr,
  if◌then◌else◌,
}
use ton_payment_network.Base.Int.{ℤ, pos, abs}
use ton_payment_network.Balance.{CoinConfig}
use ton_payment_network.Vm.{bit_len, length_field}
use ton_payment_network.Vm.Ints.{bits-le}
use ton_payment_network.Conditionals.{Instr, push_int, push_ref, push_addr, code_ref, Code, Action}
use ton_payment_network.Conditionals.Virtual.Defs.{ConditionalVirtualChannel, serialize, parse}
use ton_payment_network.Conditionals.Virtual.Codes.{IsSound, parse-serialize}

-- The bits of what `PushIntOP` writes
unfoldable pub push_int_bits : ℤ → ℕ
push_int_bits v =
    let bits_sz = bit_len v + 1 in
    if leb bits_sz 8 then 16 else (if leb bits_sz 16 then 24 else 32 + length_field bits_sz * 8)

-- A reference takes no bits of the cell.
abbrev pub instr_bits : Instr → ℕ
instr_bits (push_int v) = push_int_bits v
instr_bits (push_ref h) = 8
instr_bits (push_addr a) = 8
instr_bits (code_ref h) = 0

unfoldable pub code_bits : Code → ℕ
code_bits [] = 0
code_bits (i ∷ more) = instr_bits i + code_bits more

-- `Serialize`, as a cell: `none` is the panic.
unfoldable pub serialize_cell : ℕ → ConditionalVirtualChannel → Option Code
serialize_cell static_code c =
    let code = serialize static_code c in if leb (code_bits code) 1023 then some code else none

push_int_bits-le : (v : ℤ) (k l : ℕ) → k ≤ 18 + 8 * l → abs v < 2 ^ k → push_int_bits v ≤ 32 + 8 * l
unfolding push_int_bits length_field
push_int_bits-le v k l h w = let b = bits-le k (abs v) (abs v) w in ground arith

code_bits-le :
    (static_code : ℕ) (c : ConditionalVirtualChannel)
    → IsSound c
    → c.action.id < 2 ^ 256
    → (abs c.fee < 2 ^ 122) ⊎ (abs c.capacity < 2 ^ 122) ⊎ (abs c.prepay < 2 ^ 122)
    → code_bits (serialize static_code c) ≤ 1023
unfolding code_bits serialize
code_bits-le static_code c s a short =
    let hash = push_int_bits-le (pos c.action.id) 256 30 (omega arith) a in
    let key = push_int_bits-le (pos c.key) 256 30 (omega arith) s.key in
    let deadline = push_int_bits-le c.deadline 32 2 (omega arith) s.deadline.1 in
    let fee = push_int_bits-le c.fee 127 14 (omega arith) s.fee.1 in
    let capacity = push_int_bits-le c.capacity 127 14 (omega arith) s.capacity.1 in
    let prepay = push_int_bits-le c.prepay 127 14 (omega arith) s.prepay.1 in
    let less = λ (v : ℤ). push_int_bits-le v 122 13 (omega arith) in
    elim short [
      | inl f ↦ let fee' = less c.fee f in omega arith
      | inr (inl f) ↦ let capacity' = less c.capacity f in omega arith
      | inr (inr f) ↦ let prepay' = less c.prepay f in omega arith
    ]

-- A conditional of a known action over one coin, with sound numbers, at least one of whose fee,
-- capacity and prepay has no more than 122 bits, is written into a cell and read back from it.
pub parse-serialize_cell :
    (static_code : ℕ) (resolve : ℕ → Option Action) (c : ConditionalVirtualChannel)
    (cc : CoinConfig)
    → IsSound c
    → (abs c.fee < 2 ^ 122) ⊎ (abs c.capacity < 2 ^ 122) ⊎ (abs c.prepay < 2 ^ 122)
    → c.action.id < 2 ^ 256
    → c.action.affected_coins ≡ cc ∷ []
    → resolve c.action.id ≡ some c.action
    → (code : Code) × (serialize_cell static_code c ≡ some code)
      × (parse static_code resolve code ≡ ok c)
unfolding serialize_cell
parse-serialize_cell static_code resolve c cc s short a one known = (
  serialize static_code c,
  ground (arith, code_bits-le static_code c s a short),
  parse-serialize static_code resolve c cc s a one known,
)

-- ===== src/Conditionals/Virtual/Codes.antt =====
-- The code of a virtual channel's conditional: what is written is read back, and only sound values
-- are read.
use ton_payment_network.Base.{ℕ, ◌^◌, ◌<◌, ◌≡◌, refl, Option, some, List, [], ◌∷◌, ok, arith}
use ton_payment_network.Base.Int.{ℤ, pos, abs, ◌≤ℤ◌}
use ton_payment_network.Balance.{CoinConfig}
use ton_payment_network.Conditionals.{push_int, code_ref, Code, Action}
use ton_payment_network.Conditionals.Virtual.Defs.{
  ConditionalVirtualChannel, serialize, parse, one_coin,
}

-- An amount that fits the contract's coins: at most 127 bits, and not negative.
abbrev pub IsCoins : ℤ → Type 0
IsCoins x = (pos 0 ≤ℤ x) × (abs x < 2 ^ 127)

pub record IsSound (c : ConditionalVirtualChannel) : Type 0 where
  pub fee : IsCoins c.fee
  pub capacity : IsCoins c.capacity
  pub prepay : IsCoins c.prepay
  pub deadline : (pos 1 ≤ℤ c.deadline) × (abs c.deadline < 2 ^ 32)
  pub key : c.key < 2 ^ 256

-- A conditional of a known action over one coin, with sound numbers, is read back from its code.
pub parse-serialize :
    (static_code : ℕ) (resolve : ℕ → Option Action) (c : ConditionalVirtualChannel)
    (cc : CoinConfig)
    → IsSound c
    → c.action.id < 2 ^ 256
    → c.action.affected_coins ≡ cc ∷ []
    → resolve c.action.id ≡ some c.action
    → parse static_code resolve (serialize static_code c) ≡ ok c
unfolding parse serialize
parse-serialize static_code resolve c cc s a one known = ground arith

parse_ints :
    (static_code : ℕ) (resolve : ℕ → Option Action) (code : Code) (c : ConditionalVirtualChannel)
    → parse static_code resolve code ≡ ok c
    → IsSound c
unfolding parse
parse_ints static_code resolve
      (push_int h
        ∷ push_int f
        ∷ push_int cap
        ∷ push_int p
        ∷ push_int d
        ∷ push_int k
        ∷ code_ref r
        ∷ rest)
      c e =
    ground arith
parse_ints static_code resolve code c e = absurd (ground arith)

one_coin_inv : (ccs : List CoinConfig) → one_coin ccs ≡ ok tt → (cc : CoinConfig) × (ccs ≡ cc ∷ [])
one_coin_inv [] e = cc
one_coin_inv (c ∷ []) e = (c, refl)
one_coin_inv (c ∷ d ∷ r) e = cc

parse_action :
    (static_code : ℕ) (resolve : ℕ → Option Action) (code : Code) (c : ConditionalVirtualChannel)
    → parse static_code resolve code ≡ ok c
    → (id : ℕ) × (resolve id ≡ some c.action) × (one_coin c.action.affected_coins ≡ ok tt)
unfolding parse
parse_action static_code resolve
      (push_int h
        ∷ push_int f
        ∷ push_int cap
        ∷ push_int p
        ∷ push_int d
        ∷ push_int k
        ∷ code_ref r
        ∷ rest)
      c e =
    (abs h, ground arith, ground arith)
parse_action static_code resolve code c e = absurd (ground arith)

-- Whatever the code, a conditional that is read from it has sound numbers, and its action is what
-- the resolver knows under some hash, over exactly one coin.
parse-IsSound :
    (static_code : ℕ) (resolve : ℕ → Option Action) (code : Code) (c : ConditionalVirtualChannel)
    → parse static_code resolve code ≡ ok c
    → IsSound c
      × ((cc : CoinConfig) × (c.action.affected_coins ≡ cc ∷ []))
      × ((id : ℕ) × (resolve id ≡ some c.action))
parse-IsSound static_code resolve code c h =
    let (id, known, one) = parse_action static_code resolve code c h in
    (parse_ints static_code resolve code c h, one_coin_inv c.action.affected_coins one, (id, known))

-- ===== src/Conditionals/Resolvable/Instr.antt =====
-- pkg/payments/conditionals/resolvable.go: `CheckInstruction`, the tests on the instruction that comes
-- with a derivative's conditional, over the balances with that conditional in them.
use ton_payment_network.Base.{
  ℕ, ◌≡◌, ap, Bool, true, false, not, Option, none, some, List, [], ◌∷◌, Result, ok, err, ◌>>=◌,
  ◌>>◌, raise_if, or_raise, ◌==◌, arith, bind-ok,
}
use ton_payment_network.Base.Int.{ℤ, pos, ◌+ℤ◌, ◌≤ℤ◌, ◌<ℤ◌, pos_part, neg_part, ltb_ℤ, int_laws}
use ton_payment_network.Base.Dict.{Dict, lookup, lookup-insert}
use ton_payment_network.Cells.{Codec, load_state}
use ton_payment_network.Balance.{CoinConfig, BalanceInfo, available, resolve_action_balance}
use ton_payment_network.Conditionals.Resolvable.Defs.{
  ConditionalResolvable, PriceResolver, roi, locked_at, lock, best_effort_price, emulate_balance,
}

pub data InstrError : Type 0 where
  missing_details final_state_given tunneling no_coins not_enough_balance bad_details : InstrError
  no_state_init incorrect_code_hash resolver_mismatch : InstrError

-- What the details' cell holds, a hash of 32 bytes and the contract's data by its hash.
pub record InstructionDetails : Type 0 where
  pub resolver_contract_code_hash : ℕ
  pub resolver_contract_data : ℕ

-- The cells of the details, and the resolver contract that the data gives: the hash of its code, and
-- its address. The two are made of cells alone.
pub record ResolverEnv (Cell : Type 0) : Type 0 where
  pub details_codec : Codec Cell InstructionDetails
  pub state_init : ℕ → Option (ℕ × ℕ)

abbrev is_given : {Cell : Type 0} → Option Cell → Bool
is_given none = false
is_given (some s) = true

abbrev covers : Option BalanceInfo → ℤ → Bool
covers none amount = false
covers (some b) amount = not (ltb_ℤ (available (some b)) amount)

abbrev is_at : Option ℕ → ℕ → Bool
is_at none addr = false
is_at (some a) addr = a == addr

abbrev first_coin : List CoinConfig → Result InstrError CoinConfig
first_coin [] = err no_coins
first_coin (cc ∷ ccs) = ok cc

module _ {Cell : Type 0} (env : ResolverEnv Cell) where
  -- `CheckInstruction`
  unfoldable pub check_instruction :
      ConditionalResolvable
      → Option Cell
      → Bool
      → Dict BalanceInfo
      → Option Cell
      → Result InstrError Unit
  check_instruction c details_cell is_final balances final_state = do
    cell ← or_raise details_cell missing_details
    raise_if (is_given final_state) final_state_given
    raise_if (not is_final) tunneling
    cc ← first_coin c.action.affected_coins
    raise_if (not (covers (lookup cc.balance_id balances) c.amount)) not_enough_balance
    details ← or_raise (load_state env.details_codec cell) bad_details
    contract ← or_raise (env.state_init details.resolver_contract_data) no_state_init
    raise_if (not (contract.0 == details.resolver_contract_code_hash)) incorrect_code_hash
    raise_if (not (is_at c.resolver_addr contract.1)) resolver_mismatch

-- What is locked more is not available.
available-lock :
    (b : BalanceInfo) (x : ℤ)
    → pos 0 ≤ℤ b.conditional_locked
    → pos 0 <ℤ x
    → available (some (lock b x)) +ℤ x ≡ available (some b)
unfolding available
available-lock b x h p = grind int_laws

locks_placed :
    (c : ConditionalResolvable) (r : PriceResolver) (now price : ℤ)
    (balances after : Dict BalanceInfo) (cc : CoinConfig) (b : BalanceInfo)
    → c.action.affected_coins ≡ cc ∷ []
    → lookup cc.balance_id balances ≡ some b
    → best_effort_price r now ≡ ok price
    → emulate_balance c (some r) now balances true ≡ ok after
    → lookup cc.balance_id after ≡ some (lock b (locked_at c (roi c price)))
unfolding emulate_balance resolve_action_balance
locks_placed c r now price balances after cc b one there best e =
    ground (
      arith,
      lookup-insert cc.balance_id cc.balance_id (lock b (locked_at c (roi c price))) balances,
    )

enough :
    (amount : ℤ) (balances : Dict BalanceInfo) (ccs : List CoinConfig) (coin cc : CoinConfig)
    (b : BalanceInfo) {u : Unit}
    → ccs ≡ cc ∷ []
    → lookup cc.balance_id balances ≡ some b
    → first_coin ccs ≡ ok coin
    → raise_if (not (covers (lookup coin.balance_id balances) amount)) not_enough_balance ≡ ok u
    → amount ≤ℤ available (some b)
enough amount balances ccs coin cc b one there first h =
    let same : coin ≡ cc = ground arith in ground arith

module _ {Cell : Type 0} (env : ResolverEnv Cell) where
  covered :
      (c : ConditionalResolvable) (details : Option Cell) (is_final : Bool)
      (balances : Dict BalanceInfo) (final_state : Option Cell) (cc : CoinConfig) (b : BalanceInfo)
      → c.action.affected_coins ≡ cc ∷ []
      → lookup cc.balance_id balances ≡ some b
      → check_instruction env c details is_final balances final_state ≡ ok tt
      → c.amount ≤ℤ available (some b)
  unfolding check_instruction
  covered c details is_final balances final_state cc b one there h =
      let (cell, e1, h1) = bind-ok (or_raise details missing_details) h in
      let (unset, e2, h2) = bind-ok (raise_if (is_given final_state) final_state_given) h1 in
      let (direct, e3, h3) = bind-ok (raise_if (not is_final) tunneling) h2 in
      let (coin, e4, h4) = bind-ok (first_coin c.action.affected_coins) h3 in
      let (covering, e5, h5) =
        bind-ok
          (raise_if (not (covers (lookup coin.balance_id balances) c.amount)) not_enough_balance)
          h4 in
      enough c.amount balances c.action.affected_coins coin cc b one there e4 e5

  -- `ProcessAction` puts a derivative's conditional into the proposer's balances before its
  -- `CheckInstruction` asks for the collateral: so where it accepts, the balance without the
  -- conditional covers the collateral on top of all that the conditional locks, the collateral and the
  -- fee, and not only once.
  pub check_instruction-covers_twice :
      (c : ConditionalResolvable) (r : PriceResolver) (now price : ℤ)
      (balances after : Dict BalanceInfo) (cc : CoinConfig) (b : BalanceInfo)
      (details final_state : Option Cell) (is_final : Bool)
      → c.action.affected_coins ≡ cc ∷ []
      → lookup cc.balance_id balances ≡ some b
      → pos 0 ≤ℤ b.conditional_locked
      → pos 0 <ℤ locked_at c (roi c price)
      → best_effort_price r now ≡ ok price
      → emulate_balance c (some r) now balances true ≡ ok after
      → check_instruction env c details is_final after final_state ≡ ok tt
      → locked_at c (roi c price) +ℤ c.amount ≤ℤ available (some b)
  unfolding emulate_balance check_instruction
  check_instruction-covers_twice c r now price balances after cc b details final_state is_final one
        there some_locked locks best e h =
      let x = locked_at c (roi c price) in
      let placed = locks_placed c r now price balances after cc b one there best e in
      let collateral = covered c details is_final after final_state cc (lock b x) one placed h in
      let rest = available-lock b x some_locked locks in
      omega (int_laws, collateral, ap pos_part rest, ap neg_part rest)

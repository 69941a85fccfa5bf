-- ===== src/Tests/Positions.antt =====
-- Runs of a derivative position: a long one over 50 coins, entered at 100 with leverage 3.
use ton_payment_network.Base.{
  Bool, true, if◌then◌else◌, ◌==◌, ◌&&◌, ◌++◌, ap, ℕ, suc, ◌≡◌, ◌⊎◌, refl, false, Option, none,
  some, List, [], ◌∷◌, ok, arith,
}
use ton_payment_network.Base.Int.{ℤ, pos, abs, ◌≤ℤ◌, ◌<ℤ◌, ◌+ℤ◌, ◌*ℤ◌, ◌-ℤ◌}
use ton_payment_network.Base.Dict.{lookup, insert}
use ton_payment_network.Balance.{available, resolve_action_balance}
use ton_payment_network.Conditionals.{Action, Code, push_int, push_ref, push_addr, code_ref}
use ton_payment_network.Conditionals.Resolvable.Defs.{
  execute, locked_at, Details, ConditionalResolvable, ResolvableState, PriceResolver, roi,
  expected_amount, validate_state, best_effort_price, emulate_balance,
}
use ton_payment_network.Conditionals.Resolvable.Settle.{
  build_linked, pnl, build_resolve_for_price, build_incoming_resolve,
}
use ton_payment_network.Conditionals.Resolvable.Pairs.{
  build_linked-one_payer, build_resolve_for_price-accepted, build_incoming_resolve-accepted,
}
use ton_payment_network.Conditionals.Resolvable.Pending.{emulate_balance-pending_sign}
use ton_payment_network.Conditionals.Resolvable.Codes.{
  TwoCells, DetailsCell, serialize, parse, parse-serialize_more,
}
use ton_payment_network.Conditionals.Resolvable.Payments.{execute-le-locked_at}
use ton_payment_network.Actions.{send_add_coins}
use ton_payment_network.Cells.{Codec, load_state}
use ton_payment_network.Conditionals.Resolvable.Instr.{
  InstructionDetails, check_instruction, check_instruction-covers_twice,
}
use ton_payment_network.Monitor.{
  fresh, apply_samples, calc_derivative_roi, apply_price_sample, liquidate, liquidates, cross,
  widen,
}
use ton_payment_network.Monitor.Liquidation.{IsAmong, IsSame, apply_samples-liquidated}
use ton_payment_network.Tests.Fixtures.{
  send_codec, sends, sent, resolves, resolve_codec, coin, action, balance, balances, position,
}

abbrev key_of : ℕ → ℕ
key_of k = suc k

abbrev reversed : Action → Option Action
reversed a = some (record a { id = 6 })

abbrev linked : ConditionalResolvable
linked = record position {
  key = 12;
  is_initiator = false;
  details = record position.details { is_long = false };
  action = record action { id = 6 };
}

-- An oracle with one price for the second 1000
abbrev oracle : ℕ → PriceResolver
oracle price = record { price_at = λ at. ok (pos price); last_price = ok (pos 1000, pos price) }

build_linked-one_payer_example :
    (expected_amount position (pos 97) ≡ pos 0) ⊎ (expected_amount linked (pos 97) ≡ pos 0)
unfolding build_linked
build_linked-one_payer_example =
    build_linked-one_payer key_of reversed position linked (pos 97) refl (omega arith) (omega arith)

abbrev lost : ResolvableState
lost = record { key = 11; amount = pos 5; at = pos 1000 }

build_resolve_for_price-accepted_example :
    validate_state resolve_codec position (some (oracle 97)) none (resolves lost) ≡ ok tt
unfolding build_resolve_for_price pnl ◌*ℤ◌ ◌-ℤ◌ ◌+ℤ◌
build_resolve_for_price-accepted_example =
    build_resolve_for_price-accepted resolve_codec position (oracle 97) (resolves lost) lost
      (pos 1000) (pos 97) (pos 1000) (pos 97) refl refl refl refl (omega arith) (omega arith)
      (omega arith)

-- The long side gains 4 at 103 (450 / 100), and the short side owes 5 there.
abbrev won : ResolvableState
won = record { key = 12; amount = pos 4; at = pos 1000 }

build_incoming_resolve-accepted_example :
    validate_state resolve_codec linked (some (oracle 103)) none (resolves won) ≡ ok tt
unfolding build_incoming_resolve pnl build_linked ◌*ℤ◌ ◌-ℤ◌
build_incoming_resolve-accepted_example =
    build_incoming_resolve-accepted resolve_codec key_of reversed position linked (oracle 103)
      (resolves won) won (pos 1000) (pos 103) refl (omega arith) refl refl refl refl (omega arith)

abbrev settled : ResolvableState
settled = record { key = 12; amount = pos 5; at = pos 1000 }

emulate_balance-pending_sign_example :
    (pos 0 <ℤ roi position (pos 103)
      → (expected_amount position (pos 103) ≡ pos 0)
        × (lookup 0 ((0, record balance { conditional_pending = pos 6 }) ∷ [])
            ≡ some (record balance {
              conditional_pending = pos 0 +ℤ (roi position (pos 103) +ℤ pos 2);
            })))
    × (roi position (pos 103) +ℤ pos 2 ≤ℤ pos 0
        → ((expected_amount position (pos 103) ≡ pos (abs (roi position (pos 103))))
            ⊎ (expected_amount position (pos 103) ≡ pos 50)
              × (pos 50 ≤ℤ pos (abs (roi position (pos 103)))))
          × (lookup 0 ((0, record balance { conditional_pending = pos 6 }) ∷ []) ≡ some balance))
unfolding best_effort_price emulate_balance roi lookup insert resolve_action_balance ◌+ℤ◌ ◌*ℤ◌ ◌-ℤ◌
emulate_balance-pending_sign_example =
    emulate_balance-pending_sign position (oracle 103) (pos 1000) (pos 103) balances
      ((0, record balance { conditional_pending = pos 6 }) ∷ []) coin balance refl (omega arith)
      refl refl refl refl

abbrev samples : List (ℕ × ℤ)
samples = (1, pos 99) ∷ (2, pos 104) ∷ (3, pos 140) ∷ (4, pos 90) ∷ []

apply_samples-liquidated_example :
    (at : ℕ) × (price : ℤ) × IsAmong (at, price) samples
    × ((apply_samples position samples (fresh 0)).liquidated_at ≡ at)
    × ((apply_samples position samples (fresh 0)).liquidated_price ≡ some price)
    × ((apply_samples position samples (fresh 0)).liquidation_payout
        ≡ some (expected_amount linked price))
    × (pos 50 ≤ℤ calc_derivative_roi position price)
    × ((later : List (ℕ × ℤ))
        → IsSame
            (apply_samples position later (apply_samples position samples (fresh 0)))
            (apply_samples position samples (fresh 0)))
unfolding build_linked apply_samples apply_price_sample liquidate liquidates cross widen
    calc_derivative_roi ◌-ℤ◌ ◌*ℤ◌
apply_samples-liquidated_example =
    apply_samples-liquidated key_of reversed position linked samples (fresh 0) refl refl refl

-- Cells for the details of the position only
abbrev is_known : Details → Bool
is_known d = d.asset_id == 1 && d.is_long && d.leverage == 3 && d.entry_price == 100

known_is : (d : Details) → is_known d ≡ true → position.details ≡ d
known_is d h = ground arith

abbrev one_cell : DetailsCell
one_cell = record {
  store = λ d. if is_known d then some 4 else none;
  load = λ h. some position.details;
  load-store = λ d h e. ap some (known_is d (ground arith));
}

abbrev code : TwoCells
code = record {
  outer =
      push_int (pos 5)
      ∷ push_int (pos 11)
      ∷ push_int (pos 50)
      ∷ push_int (pos 2)
      ∷ push_int (pos 1)
      ∷ push_ref 4
      ∷ [];
  inner = push_addr (some 1) ∷ code_ref 77 ∷ [];
}

abbrev known_action : ℕ → Option Action
known_action id = some action

parse-serialize_more_example :
    (parse 77 one_cell known_action code ≡ ok position)
    × ((more : Code)
        → parse 77 one_cell known_action (record code { outer = code.outer ++ more }) ≡ ok position)
unfolding serialize
parse-serialize_more_example =
    parse-serialize_more 77 one_cell known_action position coin code refl
      (omega arith, (omega arith, omega arith)) (omega arith, omega arith) (omega arith)
      (omega arith) refl refl

execute-le-locked_at_example : (pos 20 ≤ℤ pos 27) × (pos 27 ≤ℤ pos 20 +ℤ locked_at position (pos 9))
unfolding execute send_add_coins load_state lookup ◌+ℤ◌
execute-le-locked_at_example =
    execute-le-locked_at resolve_codec send_codec position (sends sent) (resolves lost)
      (sends (record sent { amount = pos 27 })) [] [] sent (record sent { amount = pos 27 }) (pos 9)
      (omega arith) (omega arith) refl refl refl

-- A cell of details is the details.
abbrev own_cells : Codec InstructionDetails InstructionDetails
own_cells = record {
  parse = λ a. some (a, 0, 0);
  store = λ a. some a;
  parse-store = λ a c e. ground arith;
}

check_instruction-covers_twice_example : pos 52 +ℤ pos 50 ≤ℤ pos 110
unfolding check_instruction emulate_balance best_effort_price roi load_state available lookup insert
    resolve_action_balance ◌+ℤ◌ ◌*ℤ◌ ◌-ℤ◌
check_instruction-covers_twice_example =
    check_instruction-covers_twice
      (record { details_codec = own_cells; state_init = λ d. some (4, 1) }) position (oracle 103)
      (pos 1000) (pos 103) balances ((0, record balance { conditional_locked = pos 52 }) ∷ []) coin
      balance (some (record { resolver_contract_code_hash = 4; resolver_contract_data = 5 })) none
      true refl refl (omega arith) (omega arith) refl refl refl

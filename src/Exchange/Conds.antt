-- ===== src/Exchange/Conds.antt =====
-- pkg/payments: a conditional of either kind, as the exchange of states uses it (the interface
-- `Conditional`), the search for one by its id, and tonpayments/conditional_settlement.go.
use ton_payment_network.Base.{
  ℕ, ◌≡◌, arith, Option, none, some, Result, ok, err, ◌>>=◌, ◌>>◌, raise_if, or_raise,
  if◌then◌else◌,
}
use ton_payment_network.Base.Int.{ℤ, pos, ltb_ℤ, eqb_ℤ}
use ton_payment_network.Base.Dict.{Dict, lookup, insert}
use ton_payment_network.Cells.{Codec, load_state}
use ton_payment_network.Balance.{LockedDepositInfo}
use ton_payment_network.Conditionals.{Code, Action, CondError, newer_state_known}
use ton_payment_network.Conditionals.Virtual.Defs.{ConditionalVirtualChannel}
use ton_payment_network.Conditionals.Virtual.Defs as VirtualDefs
use ton_payment_network.Conditionals.Virtual.Ops.{VirtualEnv}
use ton_payment_network.Conditionals.Virtual.Ops as VirtualOps
use ton_payment_network.Conditionals.Resolvable.Defs.{
  ConditionalResolvable, ResolvableState, PriceResolver,
}
use ton_payment_network.Conditionals.Resolvable.Defs as ResolvableDefs
use ton_payment_network.Conditionals.Resolvable.Codes.{TwoCells, DetailsCell}
use ton_payment_network.Conditionals.Resolvable.Codes as ResolvableCodes
use ton_payment_network.Conditionals.Resolvable.Settle.{compute_linked_settle}
use ton_payment_network.Exchange.{
  Agreed, ExchangeError, bad_conditional, unknown_conditional, no_state, bad_resolve, newer_known,
  failed_execute, failed_commit, failed_link, not_addable, expired,
}

pub data Conditional : Type 0 where
  virtual : ConditionalVirtualChannel → Conditional
  resolvable : ConditionalResolvable → Conditional

-- The code in a conditional's cell, by the static code that its references hold.
pub data ConditionalCode : Type 0 where
  virtual_code : Code → ConditionalCode
  resolvable_code : TwoCells → ConditionalCode

-- What the operations call: the codecs of the states, the cell of a code (`encode`) and the code in
-- a cell (`decode`, where `DetectConditionalType` finds a known static code), the hash of a cell,
-- the stored cells by the numbers that their bytes spell, and for derivatives the hash that gives
-- the linked key, the reversed action, the static code and the details' cells.
pub record CondEnv (Cell : Type 0) : Type 0 where
  pub virtual_env : VirtualEnv Cell
  pub resolve_codec : Codec Cell ResolvableState
  pub encode : ConditionalCode → Cell
  pub decode : Cell → Option ConditionalCode
  pub hash : Cell → ℕ
  pub stored_cell : ℕ → Cell
  pub resolvable_static_code : ℕ
  pub details_cells : DetailsCell
  pub linked_key : ℕ → ℕ
  pub reverse : Action → Option Action

-- What a node knows at the moment of a call: its clock, its price feeds by asset, and the actions
-- that it can resolve.
pub record Moment : Type 0 where
  pub now : ℕ
  pub prices : ℕ → Option PriceResolver
  pub actions : ℕ → Option Action

abbrev pub or_fail : {E A : Type 0} → Result E A → ExchangeError → Result ExchangeError A
or_fail (ok a) e = ok a
or_fail (err x) e = err e

pub or_fail-ok :
    {E A : Type 0} (r : Result E A) (e : ExchangeError) {a : A} → or_fail r e ≡ ok a → r ≡ ok a
or_fail-ok (ok x) e h = ground arith
or_fail-ok (err x) e h = absurd (ground arith)

-- `GetKey` and `GetAction`
abbrev pub key_of : Conditional → ℕ
key_of (virtual c) = c.key
key_of (resolvable c) = c.key

abbrev pub action_of : Conditional → Action
action_of (virtual c) = c.action
action_of (resolvable c) = c.action

-- `payments.ErrNewerConditionalStateIsKnown` is told apart.
abbrev or_newer : Result CondError Unit → Result ExchangeError Unit
or_newer (ok x) = ok x
or_newer (err newer_state_known) = err newer_known
or_newer (err e) = err bad_resolve

-- A derivative's deadline: the first second of the year 3000.
abbrev pub far_deadline : ℤ
far_deadline = pos 32503680000

-- `GetDeadline`
abbrev pub deadline_of : Conditional → ℤ
deadline_of (virtual c) = c.deadline
deadline_of (resolvable c) = far_deadline

abbrev pub prices_of : Moment → ConditionalResolvable → Option PriceResolver
prices_of m c = m.prices c.details.asset_id

-- "if not found we consider it already closed"
abbrev pub found : Result ExchangeError Conditional → Result ExchangeError (Option Conditional)
found (ok c) = ok (some c)
found (err unknown_conditional) = ok none
found (err e) = err e

module _ {Cell : Type 0} (env : CondEnv Cell) where
  -- `Serialize`
  unfoldable pub serialize : Conditional → Result ExchangeError Cell
  serialize (virtual c) =
      ok (env.encode (virtual_code (VirtualDefs.serialize env.virtual_env.static_code c)))
  serialize (resolvable c) = do
    code ←
        or_raise (ResolvableCodes.serialize env.resolvable_static_code env.details_cells c)
          bad_conditional
    ok (env.encode (resolvable_code code))

  abbrev parse_code : (ℕ → Option Action) → ConditionalCode → Result ExchangeError Conditional
  parse_code actions (virtual_code code) = do
    c ← or_fail (VirtualDefs.parse env.virtual_env.static_code actions code) bad_conditional
    ok (virtual c)
  parse_code actions (resolvable_code code) = do
    c ←
        or_fail (ResolvableCodes.parse env.resolvable_static_code env.details_cells actions code)
          bad_conditional
    ok (resolvable c)

  -- `CodeToConditional`. With no known static code in the cell the type is nil, and its `Parse` panics:
  -- an error here.
  unfoldable pub code_to_conditional : Moment → Cell → Result ExchangeError Conditional
  code_to_conditional m cell = do
    code ← or_raise (env.decode cell) bad_conditional
    parse_code m.actions code

  -- `FindConditional`, with no proof to build: `unknown_conditional` is `payments.ErrNotFound`.
  unfoldable pub find_conditional : Moment → Dict Cell → ℕ → Result ExchangeError Conditional
  find_conditional m conditionals id = do
    cell ← or_raise (lookup id conditionals) unknown_conditional
    code_to_conditional m cell

  -- `ValidateOnAdd`
  abbrev pub validate_on_add : Moment → Conditional → Result ExchangeError Unit
  validate_on_add m (virtual c) = or_fail (VirtualOps.validate_on_add m.now c) not_addable
  validate_on_add m (resolvable c) = or_fail (ResolvableDefs.validate_on_add c) not_addable

  -- `ValidateState`
  abbrev pub validate_state : Moment → Conditional → Option Cell → Cell → Result ExchangeError Unit
  validate_state m (virtual c) old new =
      or_newer (VirtualOps.validate_state env.virtual_env c old new)
  validate_state m (resolvable c) old new =
      or_fail (ResolvableDefs.validate_state env.resolve_codec c (prices_of m c) old new)
        bad_resolve

  abbrev keep_older :
      Option Cell → Result ExchangeError Unit → Cell → Result ExchangeError (Option Cell)
  keep_older last (ok x) state = ok (some state)
  keep_older last (err newer_known) state = ok last
  keep_older last (err e) state = err e

  -- `AddKnownResolve` that is not to complain of an older state: what is known after it.
  unfoldable pub add_known_resolve :
      Moment → Conditional → Option Cell → Cell → Result ExchangeError (Option Cell)
  add_known_resolve m cond last state = do
    raise_if (ltb_ℤ (deadline_of cond) (pos m.now)) expired
    keep_older last (validate_state m cond last state) state

  -- `Commit`; a derivative refuses it.
  abbrev pub commit : Conditional → Conditional → Cell → Result ExchangeError (Cell × Conditional)
  commit (virtual c) (virtual u) state = do
    r ← or_fail (VirtualOps.commit env.virtual_env c u state) failed_commit
    ok (r.0, virtual r.1)
  commit _ _ state = err failed_commit

  -- `Execute`
  abbrev pub execute :
      Conditional
      → Cell
      → Cell
      → Dict LockedDepositInfo
      → Result ExchangeError (Cell × Dict LockedDepositInfo)
  execute (virtual c) state resolve locked =
      or_fail (VirtualOps.execute env.virtual_env c state resolve locked) failed_execute
  execute (resolvable c) state resolve locked =
      or_fail
        (ResolvableDefs.execute env.resolve_codec c env.virtual_env.action_codec state resolve
          locked)
        failed_execute

  -- `executeConditionalSettlement`: a derivative that pays nothing leaves the action as it is.
  unfoldable pub execute_settlement :
      Conditional
      → Cell
      → Cell
      → Dict LockedDepositInfo
      → Result ExchangeError (Cell × Dict LockedDepositInfo)
  execute_settlement (virtual c) state resolve locked = execute (virtual c) state resolve locked
  execute_settlement (resolvable c) state resolve locked = do
    r ← or_raise (load_state env.resolve_codec resolve) bad_resolve
    if eqb_ℤ r.amount (pos 0)
        then ok (state, locked)
        else execute (resolvable c) state resolve locked

  -- The action `id` of a side is executed with `run`: its new state, and the side that has it.
  unfoldable pub run_action :
      ℕ
      → (Cell → Dict LockedDepositInfo → Result ExchangeError (Cell × Dict LockedDepositInfo))
      → Agreed Cell
      → Result ExchangeError (Cell × Agreed Cell)
  run_action id run side = do
    state ← or_raise (lookup id side.action_states) no_state
    r ← run state side.locked_deposits
    ok (
      r.0,
      record side { action_states = insert id r.0 side.action_states; locked_deposits = r.1 },
    )

  -- `computeLinkedDerivativeSettle` with the cells that it reads and writes
  unfoldable pub linked_settle :
      Moment → Cell → ConditionalResolvable → Result ExchangeError (Option Cell)
  linked_settle m resolve linked = do
    primary ← or_raise (load_state env.resolve_codec resolve) bad_resolve
    settle ← or_fail (compute_linked_settle (prices_of m linked) primary linked) failed_link
    elim settle [
      | none ↦ ok none
      | some s ↦ (or_raise (env.resolve_codec.store s) failed_link >>= λ c. ok (some c))
    ]

  abbrev run_linked :
      ConditionalResolvable → Option Cell → Agreed Cell → Result ExchangeError (Agreed Cell)
  run_linked c none side = ok side
  run_linked c (some cell) side = do
    r ← run_action c.action.id (λ s d. execute (resolvable c) s cell d) side
    ok r.1

  -- What `updateOurStateWithAction` and `ProcessAction` both do with the linked conditional: "only
  -- execute the linked side if its settle > 0", and one that is no derivative with the same state.
  unfoldable pub execute_linked :
      Moment → Conditional → Cell → Agreed Cell → Result ExchangeError (Agreed Cell)
  execute_linked m (virtual c) resolve side = do
    r ← run_action c.action.id (λ s d. execute (virtual c) s resolve d) side
    ok r.1
  execute_linked m (resolvable c) resolve side = do
    settle ← linked_settle m resolve c
    run_linked c settle side

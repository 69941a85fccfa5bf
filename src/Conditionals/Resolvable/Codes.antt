-- ===== src/Conditionals/Resolvable/Codes.antt =====
-- pkg/payments/conditionals/resolvable.go: the code of a derivative's conditional and its parser.
use ton_payment_network.Base.{
  ℕ, ◌^◌, ◌<◌, ◌≡◌, not, ◌&&◌, Option, Option-cases, inl, inr, none, some, [], ◌∷◌, ◌++◌, Result,
  ok, ◌>>=◌, ◌>>◌, raise_if, or_raise, ◌==◌, if◌then◌else◌, arith,
}
use ton_payment_network.Base.Int.{pos, abs, leb_ℤ, eqb_ℤ, ◌<ℤ◌}
use ton_payment_network.Balance.{CoinConfig}
use ton_payment_network.Conditionals.{
  push_int, push_ref, push_addr, code_ref, Code, Action, CondError, incorrect_bits_len,
  not_positive, too_big_key, incorrect_value, bad_details, incorrect_code, unknown_action,
  longer_than, read_int, read_ref, read_addr, read_code_ref,
}
use ton_payment_network.Conditionals.Virtual.Defs.{read_coins, no_more, one_coin}
use ton_payment_network.Conditionals.Virtual.Codes.{IsCoins}
use ton_payment_network.Conditionals.Resolvable.Defs.{Details, ConditionalResolvable}

-- The code's cell and its first reference, the immutable part: what each of them pushes.
pub record TwoCells : Type 0 where
  pub outer : Code
  pub inner : Code

-- tonutils' cell of the details, by its hash: what is written can be loaded.
pub record DetailsCell : Type 0 where
  pub store : Details → Option ℕ
  pub load : ℕ → Option Details
  pub load-store : (d : Details) (h : ℕ) → store d ≡ some h → load h ≡ some d

module _ (static_code : ℕ) (cells : DetailsCell) where
  -- `Serialize`; `none` is the panic on details that cannot be written.
  unfoldable pub serialize : ConditionalResolvable → Option TwoCells
  serialize c = elim (cells.store c.details) [
    | none ↦ none
    | some h ↦ some (record {
      outer =
          push_int (pos c.action.id)
          ∷ push_int (pos c.key)
          ∷ push_int c.amount
          ∷ push_int c.fee
          ∷ push_int (if c.is_initiator then pos 1 else pos 0)
          ∷ push_ref h
          ∷ [];
      inner = push_addr c.resolver_addr ∷ code_ref static_code ∷ [];
    })
  ]

  -- `Parse`, with the action resolver as a function of the action's hash; the price resolver is not a
  -- part of the conditional here.
  unfoldable pub parse : (ℕ → Option Action) → TwoCells → Result CondError ConditionalResolvable
  unfolding read_int read_ref read_addr read_code_ref
  parse resolve code = do
    act_hash ← read_int code.outer
    key ← read_int act_hash.1
    raise_if (longer_than 256 key.0) too_big_key
    amount ← read_int key.1
    raise_if (longer_than 127 amount.0) incorrect_bits_len
    raise_if (leb_ℤ amount.0 (pos 0)) not_positive
    fee ← read_coins amount.1
    is_initiator ← read_int fee.1
    raise_if (not (eqb_ℤ is_initiator.0 (pos 0)) && not (eqb_ℤ is_initiator.0 (pos 1)))
        incorrect_value
    cell ← read_ref is_initiator.1
    details ← or_raise (cells.load cell.0) bad_details
    addr ← read_addr code.inner
    raise_if (longer_than 256 act_hash.0) too_big_key
    static ← read_code_ref addr.1
    raise_if (not (static.0 == static_code)) incorrect_code
    no_more static.1
    a ← or_raise (resolve (abs act_hash.0)) unknown_action
    one_coin a.affected_coins
    ok (record {
      key = abs key.0;
      amount = amount.0;
      fee = fee.0;
      is_initiator = not (eqb_ℤ is_initiator.0 (pos 0));
      resolver_addr = addr.0;
      details = details;
      action = a;
    })

  -- A derivative's conditional with a positive amount of at most 127 bits, a sound fee and a known
  -- action over one coin is read back from its code. The same conditional is read when the code's
  -- cell goes on after the details, whatever stands there: only the inner cell must end.
  pub parse-serialize_more :
      (resolve : ℕ → Option Action) (c : ConditionalResolvable) (cc : CoinConfig) (code : TwoCells)
      → serialize c ≡ some code
      → (pos 0 <ℤ c.amount) × IsCoins c.amount
      → IsCoins c.fee
      → c.key < 2 ^ 256
      → c.action.id < 2 ^ 256
      → c.action.affected_coins ≡ cc ∷ []
      → resolve c.action.id ≡ some c.action
      → (parse resolve code ≡ ok c)
        × ((more : Code) → parse resolve (record code { outer = code.outer ++ more }) ≡ ok c)
  unfolding parse serialize
  parse-serialize_more resolve c cc code s a f k i one known =
      elim (Option-cases (cells.store c.details)) [
        | inl bad ↦ absurd (ground arith)
        | inr (h, e) ↦
            let back = cells.load-store c.details h e in
            let same : code ≡ record {
              outer =
                  push_int (pos c.action.id)
                  ∷ push_int (pos c.key)
                  ∷ push_int c.amount
                  ∷ push_int c.fee
                  ∷ push_int (if c.is_initiator then pos 1 else pos 0)
                  ∷ push_ref h
                  ∷ [];
              inner = push_addr c.resolver_addr ∷ code_ref static_code ∷ [];
            } =
              ground arith in
            rw (same) (ground arith, λ more. ground arith)
      ]

-- ===== src/Actions/Moves.antt =====
-- What a send action's state moves between the balances of a channel's parties.
use ton_payment_network.Base.{
  ℕ, ◌≡◌, Bool, true, false, Option, none, some, ok, arith, inl, inr, Option-cases, Bool-cases,
  ◌==◌, if◌then◌else◌,
}
use ton_payment_network.Base.Int.{ℤ, pos, ◌+ℤ◌, ◌-ℤ◌, int_laws}
use ton_payment_network.Base.Dict.{Dict, lookup, insert, lookup-insert}
use ton_payment_network.Cells.{Codec, load_state}
use ton_payment_network.Balance.{CoinConfig, BalanceInfo}
use ton_payment_network.Actions.{
  StateActionSend, SendAction, balance_of, is_vault, add_to, or_new, emulate_balance,
}

abbrev moved_of : Option BalanceInfo → ℤ
moved_of none = pos 0
moved_of (some b) = b.action

-- The action balance of a coin: nothing where there is no entry.
abbrev pub moved : ℕ → Dict BalanceInfo → ℤ
moved i balances = moved_of (lookup i balances)

-- What a send action's state says was sent of a coin and not yet paid out.
abbrev pub sent_by : ℕ → SendAction → Option StateActionSend → ℤ
sent_by i kind none = pos 0
sent_by i kind (some s) = if i == balance_of kind then s.amount -ℤ s.commited else pos 0

pub moved-insert :
    (i j : ℕ) (b : BalanceInfo) (balances : Dict BalanceInfo)
    → moved i (insert j b balances) ≡ (if i == j then b.action else moved i balances)
moved-insert i j b balances = ground (arith, lookup-insert i j b balances)

pub moved-insert_same :
    (i j : ℕ) (b old : BalanceInfo) (balances : Dict BalanceInfo)
    → lookup j balances ≡ some old
    → b.action ≡ old.action
    → moved i (insert j b balances) ≡ moved i balances
moved-insert_same i j b old balances e h = ground (arith, lookup-insert i j b balances)

or_new-moved :
    (j : ℕ) (coin : CoinConfig) (balances : Dict BalanceInfo)
    → (or_new (lookup j balances) coin).action ≡ moved j balances
or_new-moved j coin balances = ground arith

-- What leaves the balance of the party whose action it is, and what comes to the other's.
abbrev pub leaves : Bool → ℤ → ℤ
leaves from_us x = if from_us then x else pos 0

abbrev pub arrives : Bool → ℤ → ℤ
arrives from_us x = if from_us then pos 0 else x

less : (a b x : ℤ) → a ≡ b -ℤ x → a +ℤ x ≡ b +ℤ pos 0
less a b x h = rw h (omega int_laws)

more : (a b x : ℤ) → a ≡ b +ℤ x → a +ℤ pos 0 ≡ b +ℤ x
more a b x h = rw h (omega int_laws)

add_to-moved :
    (b : BalanceInfo) (id i : ℕ) (balances : Dict BalanceInfo) (x : ℤ) (from_us : Bool)
    → b.action ≡ moved id balances
    → moved i (insert id (add_to b from_us false x) balances)
        +ℤ leaves from_us (if i == id then x else pos 0)
      ≡ moved i balances +ℤ arrives from_us (if i == id then x else pos 0)
add_to-moved b id i balances x true h =
    let ins = moved-insert i id (add_to b true false x) balances in
    elim (Bool-cases (i == id)) [
      | inl here ↦ rw here (
          less (moved i (insert id (add_to b true false x) balances)) (moved i balances) x
            (ground arith))
      | inr other ↦ ground arith
    ]
add_to-moved b id i balances x false h =
    let ins = moved-insert i id (add_to b false false x) balances in
    elim (Bool-cases (i == id)) [
      | inl here ↦ rw here (
          more (moved i (insert id (add_to b false false x) balances)) (moved i balances) x
            (ground arith))
      | inr other ↦ ground arith
    ]

module _ {Cell : Type 0} (codec : Codec Cell StateActionSend) where
  pub emulate_balance-moved :
      (kind : SendAction) (coin : CoinConfig) (state : Cell) (balances out : Dict BalanceInfo)
      (from_us : Bool) (i : ℕ)
      → is_vault kind ≡ false
      → emulate_balance codec kind coin state balances from_us ≡ ok out
      → moved i out +ℤ leaves from_us (sent_by i kind (load_state codec state))
        ≡ moved i balances +ℤ arrives from_us (sent_by i kind (load_state codec state))
  unfolding emulate_balance
  emulate_balance-moved kind coin state balances out from_us i v h =
      elim (Option-cases (load_state codec state)) [
        | inl bad ↦ absurd (ground arith)
        | inr (s, loaded) ↦
            let id = balance_of kind in
            let b = or_new (lookup id balances) coin in
            let step =
              add_to-moved b id i balances (s.amount -ℤ s.commited) from_us
                (or_new-moved id coin balances) in
            ground arith
      ]

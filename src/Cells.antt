-- ===== src/Cells.antt =====
-- pkg/payments/actions.go, LoadState. A cell is opaque: tonutils' serialiser is an interface.
use ton_payment_network.Base.{ℕ, ◌≡◌, Option, none, some, ◌||◌, ltb, if◌then◌else◌}

-- tonutils' tlb for one type of values: `parse` is `tlb.LoadFromCell`, with the bits and the
-- references that it leaves unread, and `store` is `tlb.ToCell`; `none` is an error (or a panic).
-- What is stored is read back, with nothing left over.
pub record Codec (Cell A : Type 0) : Type 0 where
  pub parse : Cell → Option (A × ℕ × ℕ)
  pub store : A → Option Cell
  pub parse-store : (a : A) (c : Cell) → store a ≡ some c → parse c ≡ some (a, 0, 0)

abbrev whole : {A : Type 0} → Option (A × ℕ × ℕ) → Option A
whole none = none
whole (some (a, bits, refs)) = if ltb 0 bits || ltb 0 refs then none else some a

module _ {Cell A : Type 0} (codec : Codec Cell A) where
  -- `payments.LoadState`: the value, if the cell holds it and nothing else.
  unfoldable pub load_state : Cell → Option A
  load_state c = whole (codec.parse c)

  pub load_state-store : (a : A) (c : Cell) → codec.store a ≡ some c → load_state c ≡ some a
  unfolding load_state
  load_state-store a c e = rw (codec.parse-store a c e)

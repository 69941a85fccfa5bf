-- ===== src/Conditionals/Resolvable/Pairs.antt =====
-- A derivative's two conditionals at one price: which side pays, and which resolves are accepted.
use ton_payment_network.Base.{
  ℕ, ◌≤◌, ◌<◌, ◌≡◌, not, arith, if◌then◌else◌, Option, none, some, ok, ◌⊎◌, inl, inr, ◌↔◌, ap,
  Option-cases,
}
use ton_payment_network.Base.Int.{
  ℤ, pos, negsuc, abs, ◌+ℤ◌, ◌-ℤ◌, ◌≤ℤ◌, ◌<ℤ◌, ltb_ℤ, int_laws, +ℤ_parts,
}
use ton_payment_network.Cells.{Codec, load_state-store}
use ton_payment_network.Conditionals.{Action}
use ton_payment_network.Conditionals.Resolvable.Defs.{
  ConditionalResolvable, ResolvableState, PriceResolver, roi, capped, expected_amount,
  validate_state,
}
use ton_payment_network.Conditionals.Resolvable.Settle.{
  build_linked, pnl, build_resolve_for_price, build_incoming_resolve, compute_linked_settle,
}
use ton_payment_network.Conditionals.Resolvable.Rounding.{pnl-roi, roi-mirror}

-- What `buildLinkedDerivativeConditional` makes of a position.
pub linked-mirror :
    (key : ℕ → ℕ) (reverse : Action → Option Action) (c m : ConditionalResolvable) (price : ℤ)
    → build_linked key reverse c ≡ some m
    → 0 < c.details.entry_price
    → (m.amount ≡ c.amount)
      × (m.details.entry_price ≡ c.details.entry_price)
      × (roi c price +ℤ roi m price ≤ℤ pos 0)
      × (negsuc 0 ≤ℤ roi c price +ℤ roi m price)
unfolding build_linked
linked-mirror key reverse c m price h p = elim (Option-cases (reverse c.action)) [
  | inl bad ↦ absurd (ground arith)
  | inr (a, e) ↦
      let same : m ≡ record c {
        key = key c.key;
        is_initiator = not c.is_initiator;
        details = record c.details { is_long = not c.details.is_long };
        action = a;
      } =
        ground arith in
      let sides =
        roi-mirror c m price (ap (λ x. x.amount) same) (ap (λ x. x.details.leverage) same)
          (ap (λ x. x.details.entry_price) same) (ap (λ x. x.details.is_long) same) p in
      (ap (λ x. x.amount) same, ap (λ x. x.details.entry_price) same, sides.0, sides.1)
]

pub expected_lem :
    (c : ConditionalResolvable) (price : ℤ)
    → pos 0 ≤ℤ c.amount
    → ((pos 0 ≤ℤ roi c price) × (expected_amount c price ≡ pos 0))
      ⊎ ((roi c price <ℤ pos 0)
          × (expected_amount c price ≡ capped c.amount (pos (abs (roi c price)))))
unfolding expected_amount
expected_lem c price h = ground arith

-- At most one side of a linked pair pays at any price, whatever the division rounds.
pub build_linked-one_payer :
    (key : ℕ → ℕ) (reverse : Action → Option Action) (c m : ConditionalResolvable) (price : ℤ)
    → build_linked key reverse c ≡ some m
    → pos 0 ≤ℤ c.amount
    → 0 < c.details.entry_price
    → (expected_amount c price ≡ pos 0) ⊎ (expected_amount m price ≡ pos 0)
build_linked-one_payer key reverse c m price h a p =
    let pair = linked-mirror key reverse c m price h p in
    ground (
      arith,
      pair,
      expected_lem c price a,
      expected_lem m price (rw (pair.0) a),
      +ℤ_parts (roi c price) (roi m price),
    )

build_amount :
    (c : ConditionalResolvable) (at price : ℤ) (st : ResolvableState)
    → build_resolve_for_price c at price ≡ ok st
    → (st.key ≡ c.key)
      × (st.at ≡ at)
      × (0 < c.details.entry_price)
      × (pos 0 <ℤ c.amount)
      × (st.amount ≡ expected_amount c price)
unfolding build_resolve_for_price expected_amount
build_amount c at price st h =
    (ground arith, ground arith, ground arith, ground arith, ground (arith, pnl-roi c price))

-- What settles a pair once the primary side pays nothing: the linked side's state is what it owes
-- at the price of the same second, and there is none exactly when it owes nothing.
compute_linked_settle-expected :
    (r : PriceResolver) (primary : ResolvableState) (linked : ConditionalResolvable) (price : ℤ)
    (o : Option ResolvableState)
    → pos 0 <ℤ linked.amount
    → primary.amount ≤ℤ pos 0
    → r.price_at primary.at ≡ ok price
    → compute_linked_settle (some r) primary linked ≡ ok o
    → ((o ≡ none) ↔ (expected_amount linked price ≡ pos 0))
      × ((st : ResolvableState)
          → o ≡ some st
          → (st.amount ≡ expected_amount linked price) × (st.at ≡ primary.at))
unfolding compute_linked_settle expected_amount
compute_linked_settle-expected r primary linked price o a p e h =
    ground (arith, pnl-roi linked price)

capped_near :
    (cap x y : ℤ)
    → pos 0 ≤ℤ cap
    → pos 0 ≤ℤ x
    → x ≤ℤ y
    → y -ℤ x ≤ℤ pos 1
    → abs (capped cap x -ℤ capped cap y) ≤ 1
unfolding ◌-ℤ◌
capped_near cap x y c p le near = ground arith

capped_nonneg : (cap x : ℤ) → pos 0 ≤ℤ x → pos 0 ≤ℤ capped cap x
capped_nonneg cap x h = ground arith

incoming_amount :
    (r : PriceResolver) (c : ConditionalResolvable) (key : ℕ) (at price : ℤ) (st : ResolvableState)
    → r.last_price ≡ ok (at, price)
    → build_incoming_resolve (some r) c key ≡ ok st
    → (st.key ≡ key)
      × (st.at ≡ at)
      × (0 < c.details.entry_price)
      × (st.amount ≡ (if ltb_ℤ (pos 0) (pnl c price) then capped c.amount (pnl c price) else pos 0))
unfolding build_incoming_resolve
incoming_amount r c key at price st l h = ground arith

self_diff : (x : ℤ) → abs (x -ℤ x) ≡ 0
unfolding ◌-ℤ◌
self_diff x = ground arith

expected_nonneg :
    (c : ConditionalResolvable) (price : ℤ) → pos 0 ≤ℤ c.amount → pos 0 ≤ℤ expected_amount c price
expected_nonneg c price h =
    ground (arith, expected_lem c price h, capped_nonneg c.amount (pos (abs (roi c price))))

-- The winner's profit and what the loser owes differ by at most 1.
incoming_near :
    (key : ℕ → ℕ) (reverse : Action → Option Action) (c m : ConditionalResolvable) (price x : ℤ)
    → build_linked key reverse c ≡ some m
    → pos 0 ≤ℤ c.amount
    → 0 < c.details.entry_price
    → x ≡ (if ltb_ℤ (pos 0) (pnl c price) then capped c.amount (pnl c price) else pos 0)
    → (pos 0 ≤ℤ x) × (abs (x -ℤ expected_amount m price) ≤ 1)
unfolding ◌+ℤ◌ ◌-ℤ◌
incoming_near key reverse c m price x h a p e =
    let pair = linked-mirror key reverse c m price h p in
    ground (arith, e, pair, pnl-roi c price a, expected_lem m price (rw (pair.0) a))

module _ {Cell : Type 0} (codec : Codec Cell ResolvableState) where
  -- A state of the conditional's key and a second in the window is accepted when its amount is
  -- within 1 of what the conditional owes at the price of that second.
  within_one-accepted :
      (c : ConditionalResolvable) (r : PriceResolver) (cell : Cell) (st : ResolvableState)
      (latest last price : ℤ)
      → codec.store st ≡ some cell
      → st.key ≡ c.key
      → 0 < c.details.entry_price
      → r.last_price ≡ ok (latest, last)
      → pos 0 <ℤ latest
      → st.at ≤ℤ latest +ℤ pos 2
      → latest -ℤ st.at ≤ℤ pos 10
      → pos 0 ≤ℤ st.amount
      → r.price_at st.at ≡ ok price
      → abs (st.amount -ℤ expected_amount c price) ≤ 1
      → validate_state codec c (some r) none cell ≡ ok tt
  unfolding validate_state
  within_one-accepted c r cell st latest last price s k e l p f w n q d =
      ground (arith, load_state-store codec st cell s)

  -- Resolving one's own position at an oracle price is accepted by the other party, which checks it
  -- against the same oracle, for a second at most 10 behind its latest one.
  pub build_resolve_for_price-accepted :
      (c : ConditionalResolvable) (r : PriceResolver) (cell : Cell) (st : ResolvableState)
      (at price latest last : ℤ)
      → build_resolve_for_price c at price ≡ ok st
      → codec.store st ≡ some cell
      → r.price_at at ≡ ok price
      → r.last_price ≡ ok (latest, last)
      → pos 0 <ℤ latest
      → at ≤ℤ latest +ℤ pos 2
      → latest -ℤ at ≤ℤ pos 10
      → validate_state codec c (some r) none cell ≡ ok tt
  build_resolve_for_price-accepted c r cell st at price latest last b s q l p f w =
      let (key, time, entry, amount, owed) = build_amount c at price st b in
      within_one-accepted c r cell st latest last price s key entry l p (rw (time) f) (rw (time) w)
        (rw (owed) (expected_nonneg c price (ground arith))) (rw (time) q)
        (rw (owed) (ground (arith, self_diff (expected_amount c price))))

  -- Claiming one's profit from the other side of the pair is accepted by that side: the profit is
  -- computed from one's own position, and the other side's loss differs from it by at most 1, which
  -- its validation tolerates. Both read the same oracle, whose last price is its price at that time.
  pub build_incoming_resolve-accepted :
      (linked_key : ℕ → ℕ) (reverse : Action → Option Action) (c m : ConditionalResolvable)
      (r : PriceResolver) (cell : Cell) (st : ResolvableState) (latest price : ℤ)
      → build_linked linked_key reverse c ≡ some m
      → pos 0 ≤ℤ c.amount
      → build_incoming_resolve (some r) c m.key ≡ ok st
      → codec.store st ≡ some cell
      → r.last_price ≡ ok (latest, price)
      → r.price_at latest ≡ ok price
      → pos 0 <ℤ latest
      → validate_state codec m (some r) none cell ≡ ok tt
  build_incoming_resolve-accepted linked_key reverse c m r cell st latest price b a i s l q p =
      let (key, time, entry, amount) = incoming_amount r c m.key latest price st l i in
      let near = incoming_near linked_key reverse c m price st.amount b a entry amount in
      let pair = linked-mirror linked_key reverse c m price b entry in
      within_one-accepted m r cell st latest price price s key (rw (pair.1) entry) l p
        (rw (time) (omega int_laws)) (rw (time) (omega int_laws)) (near.0) (rw (time) q) (near.1)

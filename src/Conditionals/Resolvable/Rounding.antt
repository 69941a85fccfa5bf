-- ===== src/Conditionals/Resolvable/Rounding.antt =====
-- The result of a position at a price, as the two sides of the pair compute it: opposite up to the
-- rounding of the division.
use native.Mathlib.Nat.{add_comm, mul_comm, mul_assoc}
use ton_payment_network.Base.{
  ℕ, zero, suc, ◌+◌, ◌*◌, ◌/◌, ◌<◌, ◌≡◌, refl, Bool, true, false, not, arith, ◌⊎◌, ap,
}
use ton_payment_network.Base.Int.{
  ℤ, pos, negsuc, pos_part, neg_part, sub_ℕ, div_ℤ, ◌+ℤ◌, ◌-ℤ◌, ◌*ℤ◌, ◌≤ℤ◌,
}
use ton_payment_network.Conditionals.Resolvable.Defs.{ConditionalResolvable, delta, roi}
use ton_payment_network.Conditionals.Resolvable.Settle.{pnl}

abbrev pub neg : ℤ → ℤ
neg (pos zero) = pos 0
neg (pos (suc n)) = negsuc n
neg (negsuc n) = pos (suc n)

sub_ℕ_swap : (a b : ℕ) → sub_ℕ a b ≡ neg (sub_ℕ b a)
sub_ℕ_swap a b = ground arith

pos_part-neg : (a : ℤ) → pos_part (neg a) ≡ neg_part a
pos_part-neg (pos zero) = refl
pos_part-neg (pos (suc n)) = refl
pos_part-neg (negsuc n) = refl

neg_part-neg : (a : ℤ) → neg_part (neg a) ≡ pos_part a
neg_part-neg (pos zero) = refl
neg_part-neg (pos (suc n)) = refl
neg_part-neg (negsuc n) = refl

neg-delta :
    (long : Bool) (price : ℤ) (entry : ℕ)
    → delta (not long) price entry ≡ neg (delta long price entry)
unfolding ◌-ℤ◌
neg-delta true price entry = ground arith
neg-delta false price entry = ground arith

neg-mul : (a b : ℤ) → neg a *ℤ b ≡ neg (a *ℤ b)
unfolding ◌*ℤ◌
neg-mul a b =
    rw (pos_part-neg a, neg_part-neg a)
      (rw
        (
          add_comm (neg_part a * pos_part b) (pos_part a * neg_part b),
          add_comm (neg_part a * neg_part b) (pos_part a * pos_part b),
        )
        (sub_ℕ_swap _ _))

step_div : (n b : ℕ) → 0 < b → (suc n / b ≡ n / b) ⊎ (suc n / b ≡ n / b + 1)
step_div n b h = grind arith

-- Floor division of a number and of its opposite: the sum is 0 or -1.
div-neg :
    (a : ℤ) (b : ℕ)
    → 0 < b
    → (div_ℤ a b +ℤ div_ℤ (neg a) b ≤ℤ pos 0) × (negsuc 0 ≤ℤ div_ℤ a b +ℤ div_ℤ (neg a) b)
unfolding ◌+ℤ◌
div-neg (pos zero) b h = ground arith
div-neg (pos (suc n)) b h = ground (arith, step_div n b h)
div-neg (negsuc n) b h = ground (arith, step_div n b h)

mul-pos_parts :
    (x : ℤ) (m : ℕ)
    → (pos_part (x *ℤ pos m) ≡ pos_part x * m) × (neg_part (x *ℤ pos m) ≡ neg_part x * m)
unfolding ◌*ℤ◌
mul-pos_parts (pos n) m = ground arith
mul-pos_parts (negsuc n) m = ground arith

pos-mul_parts :
    (m : ℕ) (x : ℤ)
    → (pos_part (pos m *ℤ x) ≡ m * pos_part x) × (neg_part (pos m *ℤ x) ≡ m * neg_part x)
unfolding ◌*ℤ◌
pos-mul_parts m (pos n) = ground arith
pos-mul_parts m (negsuc n) = ground arith

mul_comm3 : (d : ℤ) (a l : ℕ) → pos a *ℤ pos l *ℤ d ≡ d *ℤ pos a *ℤ pos l
unfolding ◌*ℤ◌
mul_comm3 (pos n) a l = ground (arith, mul_assoc n a l, mul_comm (a * l) n)
mul_comm3 (negsuc n) a l = ground (arith, mul_assoc (suc n) a l, mul_comm (a * l) (suc n))

product_swap : (d a : ℤ) (l : ℕ) → pos 0 ≤ℤ a → a *ℤ pos l *ℤ d ≡ d *ℤ a *ℤ pos l
product_swap d (pos a) l h = mul_comm3 d a l
product_swap d (negsuc a) l h = absurd (ground arith)

-- Both spellings of the result are one number, for amounts that are not negative.
pub pnl-roi :
    (c : ConditionalResolvable) (price : ℤ) → pos 0 ≤ℤ c.amount → pnl c price ≡ roi c price
unfolding pnl roi
pnl-roi c price h =
    ap (λ x. div_ℤ x c.details.entry_price)
      (product_swap (delta c.details.is_long price c.details.entry_price) c.amount
        c.details.leverage h)

-- The two sides of a pair: their results at one price add up to 0, or to -1 where the division
-- rounds.
pub roi-mirror :
    (c m : ConditionalResolvable) (price : ℤ)
    → m.amount ≡ c.amount
    → m.details.leverage ≡ c.details.leverage
    → m.details.entry_price ≡ c.details.entry_price
    → m.details.is_long ≡ not c.details.is_long
    → 0 < c.details.entry_price
    → (roi c price +ℤ roi m price ≤ℤ pos 0) × (negsuc 0 ≤ℤ roi c price +ℤ roi m price)
unfolding roi
roi-mirror c m price a l e d h =
    let x = delta c.details.is_long price c.details.entry_price in
    let entry = c.details.entry_price in
    rw
      (
        a,
        l,
        e,
        d,
        neg-delta c.details.is_long price entry,
        neg-mul x c.amount,
        neg-mul (x *ℤ c.amount) (pos c.details.leverage),
      )
      (div-neg (x *ℤ c.amount *ℤ pos c.details.leverage) entry h)

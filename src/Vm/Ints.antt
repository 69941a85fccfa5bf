-- ===== src/Vm/Ints.antt =====
-- Numbers in code: what PushIntOP writes, ReadIntOP reads.
use ton_payment_network.Base.{
  ℕ, zero, suc, ◌+◌, ◌-◌, ◌*◌, ◌/◌, ◌^◌, ◌≤◌, ◌<◌, ◌≡◌, ok, arith, ltb, if◌then◌else◌,
}
use ton_payment_network.Base.Int.{ℤ, pos, negsuc, abs, ltb_ℤ}
use ton_payment_network.Vm.{
  bits, bit_len, Bits, length_field, push_long, push_int_op, read_long, read_int_op,
}

-- A number below 2 ^ k has at most k digits.
pub bits-le : (k fuel n : ℕ) → n < 2 ^ k → bits fuel n ≤ k
unfolding bits
bits-le k zero n w = omega arith
bits-le k (suc fuel) zero w = omega arith
bits-le zero (suc fuel) (suc m) w = absurd (ground arith)
bits-le (suc k) (suc fuel) (suc m) w =
    let h = bits-le k fuel (suc m / 2) (omega arith) in omega arith

length_field-covers : (n : ℕ) → n ≤ 257 → (n ≤ 19 + length_field n * 8) × (length_field n ≤ 30)
unfolding length_field
length_field-covers n w = (ground arith, ground arith)

module _ {Slice Cell : Type 0} (lib : Bits Slice Cell) where
  read_long-put :
      (v : ℤ) (l : ℕ) (rest : Slice)
      → bit_len v < 257
      → bit_len v < 19 + l * 8
      → l ≤ 30
      → read_int_op lib (push_long lib v l rest) ≡ ok (v, rest)
  unfolding read_int_op push_long read_long
  read_long-put v l rest w x b =
      let n = 19 + l * 8 in
      let pad = if ltb_ℤ v (pos 0) then negsuc 0 else pos 0 in
      let whole = lib.put_int v 257 rest in
      let body = if ltb 257 n then lib.put_int pad (n - 257) whole else lib.put_int v n rest in
      ground (
        arith,
        lib.load_uint-put_uint 130 8 (lib.put_uint l 5 body),
        lib.load_uint-put_uint l 5 body,
        lib.load_uint-put_int pad (n - 257) whole,
        lib.load_big_int-put_int v 257 rest,
        lib.load_big_int-put_int v n rest,
      )

  read_short-put :
      (v : ℤ) (rest : Slice)
      → (bit_len v < 8 → read_int_op lib (lib.put_uint 128 8 (lib.put_int v 8 rest)) ≡ ok (v, rest))
        × (bit_len v < 16
            → read_int_op lib (lib.put_uint 129 8 (lib.put_int v 16 rest)) ≡ ok (v, rest))
  unfolding read_int_op
  read_short-put v rest = (
    λ w. ground (
      arith,
      lib.load_uint-put_uint 128 8 (lib.put_int v 8 rest),
      lib.load_big_int-put_int v 8 rest,
    ),
    λ w. ground (
      arith,
      lib.load_uint-put_uint 129 8 (lib.put_int v 16 rest),
      lib.load_big_int-put_int v 16 rest,
    ),
  )

  -- A number of at most 256 bits and a sign is read back from its instruction, whatever the
  -- length of its encoding, and what follows the instruction is left as it was.
  pub read_int_op-push_int_op :
      (v : ℤ) (rest : Slice)
      → abs v < 2 ^ 256
      → read_int_op lib (push_int_op lib v rest) ≡ ok (v, rest)
  unfolding push_int_op
  read_int_op-push_int_op v rest w =
      let len = bits-le 256 (abs v) (abs v) w in
      let field = length_field-covers (bit_len v + 1) (omega arith) in
      let short = read_short-put v rest in
      let long = read_long-put v (length_field (bit_len v + 1)) rest in
      ground (arith, field.0, field.1, short.0, short.1, long)

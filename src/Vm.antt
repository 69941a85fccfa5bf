-- ===== src/Vm.antt =====
-- pkg/payments/vm/ops.go: the bits of the TVM instructions that push numbers, cells and slices. The
-- serialiser of bits and references is tonutils'.
pub mod Ints
pub mod Refs
use ton_payment_network.Base.{
  ℕ, zero, suc, ◌+◌, ◌-◌, ◌*◌, ◌/◌, ◌%◌, ◌^◌, ◌≤◌, ◌<◌, ◌≡◌, Option, none, some, Result, ok, err,
  ◌>>=◌, ◌>>◌, raise_if, or_raise, not, ◌&&◌, ltb, leb, ◌==◌, if◌then◌else◌,
}
use ton_payment_network.Base.Int.{ℤ, pos, negsuc, abs, ltb_ℤ}

-- The number of binary digits of `n`, in at most `fuel` steps; `n` steps are enough.
unfoldable pub bits : ℕ → ℕ → ℕ
bits zero n = 0
bits (suc fuel) zero = 0
bits (suc fuel) (suc m) = suc (bits fuel (suc m / 2))

-- `big.Int.BitLen`, of the magnitude
abbrev pub bit_len : ℤ → ℕ
bit_len v = bits (abs v) (abs v)

-- tonutils' builders and slices: `put_uint v n s` is a slice that begins with the `n` bits of `v`
-- and goes on as `s`; a signed number is written in two's complement. A load gives `none` when
-- there is not enough left; the laws are stated for the lengths that the loaders take.
pub record Bits (Slice Cell : Type 0) : Type 0 where
  pub put_uint : ℕ → ℕ → Slice → Slice
  pub put_int : ℤ → ℕ → Slice → Slice
  pub put_ref : Cell → Slice → Slice
  pub load_uint : ℕ → Slice → Option (ℕ × Slice)
  pub load_big_int : ℕ → Slice → Option (ℤ × Slice)
  pub load_ref_cell : Slice → Option (Cell × Slice)
  pub load_uint-put_uint :
      (v n : ℕ) (s : Slice) → n ≤ 64 → v < 2 ^ n → load_uint n (put_uint v n s) ≡ some (v, s)
  pub load_uint-put_int :
      (v : ℤ) (n : ℕ) (s : Slice) → n ≤ 64 → (w : ℕ) × (load_uint n (put_int v n s) ≡ some (w, s))
  pub load_big_int-put_int :
      (v : ℤ) (n : ℕ) (s : Slice)
      → n ≤ 257
      → bit_len v < n
      → load_big_int n (put_int v n s) ≡ some (v, s)
  pub load_ref_cell-put_ref : (c : Cell) (s : Slice) → load_ref_cell (put_ref c s) ≡ some (c, s)

pub data OpError : Type 0 where
  not_enough_data incorrect_opcode : OpError

-- The five bits of a long number's length: `l` stands for 19 + 8 l bits.
unfoldable pub length_field : ℕ → ℕ
length_field bits_sz =
    let sz = (if ltb bits_sz 19 then 19 else bits_sz) - 19 in
    if sz % 8 == 0 then sz / 8 else sz / 8 + 1

module _ {Slice Cell : Type 0} (lib : Bits Slice Cell) where
  -- The default case of `PushIntOP`.
  unfoldable pub push_long : ℤ → ℕ → Slice → Slice
  push_long v l rest =
      let x = 19 + l * 8 in
      let padding = if ltb_ℤ v (pos 0) then negsuc 0 else pos 0 in
      lib.put_uint 130 8 (
        lib.put_uint l 5 (
          if ltb 257 x
          then lib.put_int padding (x - 257) (lib.put_int v 257 rest)
          else lib.put_int v x rest))

  -- `PushIntOP`, followed by `rest`.
  unfoldable pub push_int_op : ℤ → Slice → Slice
  push_int_op v rest =
      let bits_sz = bit_len v + 1 in
      if leb bits_sz 8
      then lib.put_uint 128 8 (lib.put_int v 8 rest)
      else if leb bits_sz 16
      then lib.put_uint 129 8 (lib.put_int v 16 rest)
      else push_long v (length_field bits_sz) rest

  abbrev pub load_int : ℕ → Slice → Result OpError (ℤ × Slice)
  load_int n s = or_raise (lib.load_big_int n s) not_enough_data

  abbrev pub load : ℕ → Slice → Result OpError (ℕ × Slice)
  load n s = or_raise (lib.load_uint n s) not_enough_data

  -- The case 0x82 of `ReadIntOP`, after the length `l`.
  unfoldable pub read_long : ℕ → Slice → Result OpError (ℤ × Slice)
  read_long l s =
      let sz = l * 8 + 19 in
      if ltb 257 sz then (load (sz - 257) s >>= λ r. load_int 257 r.1) else load_int sz s

  unfoldable pub read_int_op : Slice → Result OpError (ℤ × Slice)
  read_int_op code = load 8 code >>= λ p.
      if p.0 == 128
      then load_int 8 p.1
      else if p.0 == 129
      then load_int 16 p.1
      else if p.0 == 130
      then (load 5 p.1 >>= λ l. read_long l.0 l.1)
      else err incorrect_opcode

  abbrev pub load_ref_cell : Slice → Result OpError (Cell × Slice)
  load_ref_cell s = or_raise (lib.load_ref_cell s) not_enough_data

  unfoldable pub push_ref_op : Cell → Slice → Slice
  push_ref_op c rest = lib.put_uint 136 8 (lib.put_ref c rest)

  unfoldable pub push_null_op : Slice → Slice
  push_null_op rest = lib.put_uint 109 8 rest

  -- `PushSliceRef`: the cell is the slice's `MustToCell`.
  unfoldable pub push_slice_ref_op : Cell → Slice → Slice
  push_slice_ref_op c rest = lib.put_uint 137 8 (lib.put_ref c rest)

  unfoldable pub read_cell_op : Slice → Result OpError (Cell × Slice)
  read_cell_op code =
      load 8 code >>= λ p. raise_if (not (p.0 == 136)) incorrect_opcode >> load_ref_cell p.1

  -- `none` is the nil cell.
  unfoldable pub read_cell_or_null_op : Slice → Result OpError (Option Cell × Slice)
  read_cell_or_null_op code = load 8 code >>= λ p.
      raise_if (not (p.0 == 136) && not (p.0 == 109)) incorrect_opcode
      >> (if p.0 == 109 then ok (none, p.1) else (load_ref_cell p.1 >>= λ c. ok (some c.0, c.1)))

  unfoldable pub read_slice_op : Slice → Result OpError (Cell × Slice)
  read_slice_op code =
      load 8 code >>= λ p. raise_if (not (p.0 == 137)) incorrect_opcode >> load_ref_cell p.1

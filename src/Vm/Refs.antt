-- ===== src/Vm/Refs.antt =====
-- Cells and slices in code.
use ton_payment_network.Base.{◌≡◌, some, none, ok, err, arith}
use ton_payment_network.Vm.{
  Bits, incorrect_opcode, push_ref_op, push_null_op, push_slice_ref_op, read_cell_op,
  read_cell_or_null_op, read_slice_op,
}

module _ {Slice Cell : Type 0} (lib : Bits Slice Cell) where
  -- Each reader takes what was pushed for it, leaves what follows, and refuses the others' kinds:
  -- a cell where one must be, a cell or null where it may be missing, a slice.
  pub read-push_refs :
      (c : Cell) (rest : Slice)
      → (read_cell_op lib (push_ref_op lib c rest) ≡ ok (c, rest))
        × (read_cell_or_null_op lib (push_ref_op lib c rest) ≡ ok (some c, rest))
        × (read_cell_or_null_op lib (push_null_op lib rest) ≡ ok (none, rest))
        × (read_slice_op lib (push_slice_ref_op lib c rest) ≡ ok (c, rest))
        × (read_cell_op lib (push_null_op lib rest) ≡ err incorrect_opcode)
        × (read_cell_op lib (push_slice_ref_op lib c rest) ≡ err incorrect_opcode)
        × (read_slice_op lib (push_ref_op lib c rest) ≡ err incorrect_opcode)
  unfolding read_cell_op read_cell_or_null_op read_slice_op push_ref_op push_null_op
      push_slice_ref_op
  read-push_refs c rest =
      let ref = lib.load_uint-put_uint 136 8 (lib.put_ref c rest) (omega arith) (omega arith) in
      let nil = lib.load_uint-put_uint 109 8 rest (omega arith) (omega arith) in
      let slice = lib.load_uint-put_uint 137 8 (lib.put_ref c rest) (omega arith) (omega arith) in
      let cell = lib.load_ref_cell-put_ref c rest in
      (rw (ref, cell), rw (ref, cell), rw nil, rw (slice, cell), rw nil, rw slice, rw ref)

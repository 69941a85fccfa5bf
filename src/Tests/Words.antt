-- ===== src/Tests/Words.antt =====
-- The bits of an instruction, as a list of the fields that were stored, and numbers written so.
use ton_payment_network.Base.{
  ℕ, ◌%◌, ◌^◌, ◌≡◌, refl, Option, some, none, List, [], ◌∷◌, ok, arith, ◌==◌, if◌then◌else◌,
}
use ton_payment_network.Base.Int.{ℤ, negsuc, abs}
use ton_payment_network.Vm.{Bits, bits, push_int_op, read_int_op, push_long, length_field}
use ton_payment_network.Vm.Ints.{read_int_op-push_int_op}

data Field : Type 0 where
  word : ℕ → ℕ → Field
  signed : ℤ → ℕ → Field
  cell : ℕ → Field

abbrev load_word : ℕ → List Field → Option (ℕ × List Field)
load_word n (word v m ∷ rest) = if n == m then some (v, rest) else none
load_word n (signed v m ∷ rest) = if n == m then some (abs v % 2 ^ n, rest) else none
load_word n _ = none

abbrev load_signed : ℕ → List Field → Option (ℤ × List Field)
load_signed n (signed v m ∷ rest) = if n == m then some (v, rest) else none
load_signed n _ = none

abbrev load_cell : List Field → Option (ℕ × List Field)
load_cell (cell c ∷ rest) = some (c, rest)
load_cell _ = none

abbrev fields : Bits (List Field) ℕ
fields = record {
  put_uint = λ v n s. word v n ∷ s;
  put_int = λ v n s. signed v n ∷ s;
  put_ref = λ c s. cell c ∷ s;
  load_uint = load_word;
  load_big_int = load_signed;
  load_ref_cell = load_cell;
  load_uint-put_uint = λ v n s b w. ground arith;
  load_uint-put_int = λ v n s w. (abs v % 2 ^ n, ground arith);
  load_big_int-put_int = λ v n s b w. ground arith;
  load_ref_cell-put_ref = λ c s. refl;
}

-- Seventeen bits and a sign do not fit the short forms.
written :
    push_int_op fields (negsuc 131070) [] ≡ word 130 8 ∷ word 0 5 ∷ signed (negsuc 131070) 19 ∷ []
unfolding push_int_op push_long length_field bits
written = refl

read_int_op-push_int_op_example :
    read_int_op fields (push_int_op fields (negsuc 131070) (cell 7 ∷ []))
    ≡ ok (negsuc 131070, cell 7 ∷ [])
read_int_op-push_int_op_example =
    read_int_op-push_int_op fields (negsuc 131070) (cell 7 ∷ []) (omega arith)

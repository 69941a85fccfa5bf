-- ===== src/Conditionals/Resolvable.antt =====
-- pkg/payments/conditionals/resolvable.go, tonpayments/derivatives_resolve.go and
-- derivatives_linked.go: a derivative position as a pair of conditionals, one for each party, that
-- an oracle's price resolves.
pub mod Defs
pub mod Codes
pub mod Settle
pub mod Rounding
pub mod Pairs
pub mod Pending
pub mod Payments
pub mod Instr

-- ===== src/Conditionals/Virtual.antt =====
-- pkg/payments/conditionals/channel.go: the conditional of a virtual channel. It lets the holder
-- of a key take a signed amount, up to a capacity, and a fee, before a deadline; what is committed
-- early is its prepay.
pub mod Defs
pub mod Ops
pub mod Relay
pub mod Codes
pub mod Cells
pub mod Payments

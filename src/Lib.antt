-- ===== src/Lib.antt =====
-- A payment network node for TON (Go). Two parties keep a channel: each has actions, which say
-- how much it has sent, and conditionals, promises that a signed state or an oracle price turns
-- into money. The development models the parts that decide about money and order: the send
-- actions, both kinds of conditionals, the pair of conditionals behind a derivative with its
-- oracle and its monitor, and the storage with its task queue.
--
-- Base: numbers, results, integers (Base/Int), maps as association lists (Base/Dict). Cells:
-- tonutils serialises cells; a codec with the law that what is stored is read back stands for it,
-- and load_state is LoadState of pkg/payments/actions.go. Balance: coins, balances and rented
-- deposits of pkg/payments/types.go and actions.go. Actions: pkg/payments/actions, where the six
-- kinds of send actions share send.go.
--
-- Conditionals/Virtual: pkg/payments/conditionals/channel.go. Defs has the data and its code, Ops
-- the operations on a conditional, Relay what a node does that accepts it for another one; Codes
-- and Payments prove about them, and Cells counts the bits of the code, since the builder panics
-- where they do not fit in one cell (the same is not counted for other cells, which are taken to
-- fit). Signatures, hashes and the float product of the fee are fields of VirtualEnv. An
-- execution adds to the state of an action, which Actions commits.
--
-- Conditionals/Resolvable: pkg/payments/conditionals/resolvable.go and fee.go (Defs, the code in
-- Codes, the instruction in Instr), tonpayments/derivatives_linked.go and derivatives_resolve.go
-- (Settle). Both sides of a pair compute the result of a position by a floor division; Rounding
-- relates the two results, Pairs the states that the sides make and accept, Pending the balances.
-- Oracle: pkg/payments/conditionals/oracle/price.go, whose Resolver answers PriceResolver
-- (as_price_resolver). Monitor: the samples of tonpayments/derivatives_worker.go, and in Removal
-- what ensureDerivativeRemovable decides from them, where the answers of
-- refreshIncomingDerivativeMeta and of the storage, and whether the order is hedged, are
-- arguments.
--
-- Db/Tasks, Db/Metas and Db/Channels: tonpayments/db/task.go, virtual-channel.go and channel.go.
-- An operation is a function from the stored state to an error or to the new state, since a
-- transaction (tonpayments/db/leveldb/db.go) runs alone, reads a snapshot and writes one batch or
-- nothing. Values are stored as such: their JSON is not modelled. Tasks/Scan has the loop of
-- AcquireTask, Upkeep the runs of the queue, Held and Excludes what is true while a task is held,
-- Absent and Lost a task without an index entry. One pool of tasks and one channel's pending
-- states and history are modelled at a time, and a clock reading is an argument, the same for one
-- call.
--
-- Amounts of type big.Int are integers without bounds, as in the source; times and seqnos are
-- naturals. Byte strings that are only compared are the numbers that they spell. Loops run over
-- the lists that they read; the walk of GetLastPrice has 120 rounds, the whole window, and needs
-- no other fuel. Goroutines, locks of memory, the network and the chain are not modelled, nor are
-- the rest of the service that drives these parts and the contracts.
--
-- Locks: the lock of a channel in tonpayments/service.go, as functions of the state of one node,
-- the answer of the other party being an argument; Locks/Parties has the steps that the two
-- parties make.
--
-- Vault: pkg/payments/vault/manager.go, which orders top-ups and withdrawals for coins whose
-- balances are outside their limits; whether an order is carried out is an argument, and the
-- vault's messages are not modelled.
--
-- Vm: pkg/payments/vm/ops.go, the bits of the instructions that the code of a conditional is made
-- of, over an interface of bits and references that stands for the builders and slices of
-- tonutils. The conditionals are modelled one level above, as lists of instructions.
--
-- Exchange: tonpayments/state.go and process.go, with proposeAction of service.go and the signed
-- state of pkg/payments/types.go. A party that proposes an action applies it to its own copy
-- (Exchange/Propose) and signs the result; the other applies it to its copy (Exchange/Process),
-- compares the hashes and signs too (Exchange/Signed). Exchange/Conds puts both kinds of
-- conditionals behind one interface. Keys, signatures and hashes are fields of Crypto, the cells
-- of codes fields of CondEnv, and what a node knows or allows, its clock, records, prices and the
-- checks on the instruction of a new conditional, fields of Node. A seqno wraps at 2 ^ 64. An
-- operation returns the channel as it is stored: the records, tasks and events that the node
-- writes with it are not modelled, and neither are closures. Balances has CalcBalance, Swaps the
-- swap of coins, Commits the cooperative commit with getCommitRequest of api.go, and Rents
-- CalcDepositFee with the renting of capacity, where the division of a percentage by 100.0 is an
-- argument and durations end at 2 ^ 63 - 1 nanoseconds as in Go; these stand outside the switch
-- of Propose and Process, since they read more of a channel. Agree has the exchange that
-- succeeds, Mirror and Adding the two applications of each action, Steps what any sequence of
-- exchanges keeps, Answers what one answer does.
--
-- Tests has the runs of the theorems at concrete inputs.
pub mod Base
pub mod Cells
pub mod Balance
pub mod Actions
pub mod Conditionals
pub mod Oracle
pub mod Db
pub mod Monitor
mod Tests
pub mod Locks
pub mod Vault
pub mod Vm
pub mod Exchange

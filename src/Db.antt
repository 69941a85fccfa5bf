-- ===== src/Db.antt =====
-- tonpayments/db: the node's storage. A transaction (leveldb/db.go, `Transaction`) runs alone, reads
-- what was stored when it began and writes all that it changed, or nothing when it fails: an
-- operation here is a function of the stored state to an error or to the state that it leaves.
pub mod Tasks
pub mod Metas
pub mod Channels

pub data DbError : Type 0 where
  not_found already_exists : DbError

-- ===== src/Kv.antt =====
-- src/rpc/kv.rs: the options and responses of the key-value service, transactions, and the client.
pub mod Put
pub mod Get
pub mod Delete
pub mod Compaction
pub mod Compare
pub mod Txn
pub mod Client

-- ===== src/BoltDb.antt =====
-- boltdb/*.go: the repositories over buckets, and the unit of work that makes a transaction of them.
pub mod Repositories
pub mod Steps
pub mod KeyGenerate
pub mod Uow
pub mod Registry

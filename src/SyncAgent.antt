-- ===== src/SyncAgent.antt =====
-- pkg/sync/rpc: the sync agent. Backups has its list of backups and Hashes that of
-- snapshot hash jobs (list.go).
pub mod Backups
pub mod Retention
pub mod Hashes

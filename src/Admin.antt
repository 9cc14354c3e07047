-- ===== src/Admin.antt =====
-- internal/admin: the channel and the chaincode of a running network.
pub mod Exec
pub mod Service
pub mod Network
pub mod Channel
pub mod Install
pub mod Commit
pub mod SystemChannel
pub mod Invoke

-- ===== src/Stock.antt =====
-- services/app/src/modules/stock: the stock ledger and its operations.
pub mod Fefo
pub mod Rows
pub mod Db
pub mod Balance
pub mod Resolve
pub mod Entries
pub mod Exits
pub mod Transfers
pub mod Nfe
pub mod Alerts
pub mod Tests

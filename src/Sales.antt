-- ===== src/Sales.antt =====
-- services/app/src/modules/sales: sales and the figures drawn from them.
pub mod Create
pub mod Dashboard
pub mod Tests

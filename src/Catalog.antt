-- ===== src/Catalog.antt =====
-- services/app/src/modules/catalog: the products of a tenant and where they come from.
pub mod Csv
pub mod Products
pub mod Labels
pub mod Tests

-- ===== src/Shared.antt =====
-- libs/shared/src: domain errors, transactions, plan limits and permissions.
pub mod Errors
pub mod Transaction
pub mod Fixes
pub mod Returns
pub mod PlanLimits
pub mod Rbac
pub mod Dates
pub mod Tests

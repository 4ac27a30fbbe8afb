-- ===== src/Billing.antt =====
-- services/app/src/modules/billing: subscriptions, invoices, the gateway's webhooks and the monthly
-- charges of a tenant.
pub mod Rows
pub mod Webhook
pub mod Gateway
pub mod Subscriptions
pub mod Charges
pub mod Current
pub mod Tests

-- ===== src/Lib.antt =====
-- estoque-saas: stock, sales and billing for shops that share one system, each shop (tenant) with its
-- own rows under row-level security.
--
-- Parts and how they interact
--   A route handler checks the session and the permission (services/app/src/modules/auth/rbac.ts) and
--   calls one operation of a module; the operation opens a transaction on the tenant's rows
--   (libs/shared/src/db/client.ts, withTenant), which commits all of what it wrote or nothing. Every
--   change of stock is a movement with the balance after it, appended under a lock on its product and
--   store; entries, exits, transfers, sales and confirmed invoices all append through the same rule.
--   Billing keeps a subscription and its invoices in step with a payment gateway, by checkouts, by the
--   gateway's webhooks and by a monthly run; the subscription decides whether the tenant is let in.
--
-- Files
--   Base (and its children): operators, lists, integers and texts that all modules share.
--   Shared.Errors, Shared.PlanLimits, Shared.Rbac: libs/shared/src/errors, plan-limits, rbac, and
--     services/app/src/lib/rbac.ts.
--   Shared.Transaction: withTenant, and the steps of a transaction as functions from a state to a result
--     and a state; an AppError is `err` with its code and any other error is `crash`. Shared.Fixes and
--     Shared.Returns are the rules for what a step leaves alone and what it returns.
--   Shared.Dates: JavaScript's calendar arithmetic, as far as billing uses it.
--   Stock.Rows, Stock.Db: the rows of libs/shared/prisma/schema.prisma that stock and sales use, and the
--     single reads and writes on them. Identifiers are numbers, and the newest row stands first.
--   Stock.Fefo, Balance, Resolve, Entries, Exits, Transfers, Nfe: the files of
--     services/app/src/modules/stock of these names (fefo.ts, balance.ts, resolve-batches.ts, entries.ts,
--     exits.ts, transfers.ts, nfe-import.ts); of the last, Nfe.Reading is the upload and the parsing job and
--     Nfe.Bulk the creation of many products. Stock.Balance.Ledger holds the invariant of the movements
--     and Stock.Balance.Posts the rule by which each operation keeps it.
--   Stock.Alerts: alerts.ts and expiry-scan.ts there; Stock.Alerts.Low holds what a low product is, and
--     Stock.Alerts.Due what the daily scan looks for.
--   Sales.Create: createSale of services/app/src/modules/sales/sales.ts.
--   Sales.Dashboard: dashboard.ts there; Sales.Dashboard.Stalled is getStalledProducts. A percentage is a
--     fraction, so the rounding of a division is not modelled.
--   Billing.Rows, Webhook, Gateway, Subscriptions, Charges: services/app/src/modules/billing (webhook.ts
--     with invoice-amount.ts, subscriptions.ts, monthly-charge.ts); Webhook.Created is the event of a new
--     charge, Webhook.Handling the choice of the event's handler; Billing.Gateway is what a payment
--     gateway answers (libs/shared/src/payments/provider.ts).
--   History: the operations on the stock, with sales and invoices, called one after another; the
--     specification that a history is measured by is the book of what its successful calls promise.
--   Access: services/app/src/modules/auth/rbac.ts and the grants of services/app/src/modules/admin/tenants.ts.
--   Access.Tokens, ManagerPin, Invites: manager-pin.ts and invite.ts of services/app/src/modules/auth;
--     Tokens is what the two share, a signed payload.
--   Catalog.Csv: services/app/src/modules/catalog/csv-parser.ts.
--   Catalog.Products, Labels: products.ts and csv-import.ts of services/app/src/modules/catalog; Labels
--     is the bar codes.
--   App.RateLimit: services/app/src/lib/rate-limit.ts.
--   Modules named Tests hold runs on small data and an instance of each result.
--
-- Modelling choices
--   A state holds the rows of one tenant. Time is a field of the state: one instant per operation, and in
--   the stock state a clock that each movement moves on, as the database's `now()` orders the movements of
--   one pair under their lock. Quantities and amounts are integers without a bound, so no number
--   overflows its column. The constraints of the tables that the modules meet are modelled (the SKU of a
--   product, its category and supplier, the product of a batch, the event of an invoice), but not the one
--   from a sale to its customer. The database may fail the write of a checkout at each of its steps, and
--   the gateway may fail to cancel: both are arguments.
--   An invoice item's quantity is the one that its confirmation rounds to. `new Date()` in UTC; the search
--   for the month of a day runs on the number of the day as fuel, and Shared.Dates shows that this is
--   enough. The loop for a free bar code has the source's own bound of twenty. Gateways, the file storage,
--   the XML parser and the lookup function of the database are arguments, and so are the random digits
--   of a bar code, the random identifier of a user, and the hash of a password. Redis, bcrypt, and Node's
--   HMAC and base64url are records of functions with the laws that their documentation gives; the Tests
--   show that the laws can hold. Transactions run one at a time: the locks are recorded, not interleaved.
--
-- Not modelled
--   Screens, route handlers, the gateways' HTTP clients, the text of emails, queues, storage, hashing,
--   the reads behind lists, part of the dashboard, login, signup, and the management of stores.
pub mod Base
pub mod Shared
pub mod Stock
pub mod Sales
pub mod Billing
pub mod Access
pub mod Catalog
pub mod History
pub mod App

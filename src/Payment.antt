-- ===== src/Payment.antt =====
-- src/modules/payment: online payments of dues. `Checks` is the helper service, `Lock` the cache
-- service, `Start` begins a payment and `Webhook` ends it; the modules below prove.
pub mod Checks
pub mod Lock
pub mod Start
pub mod Webhook
mod Tests

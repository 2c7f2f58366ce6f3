-- ===== src/Electricity.antt =====
-- src/modules/electricity: the month's electricity is charged to the tenants. `Shares` is
-- utils/electricity-billing.utils.ts, `Allocation` and `Run` are electricity-billing.service.ts, and
-- `Readings` is electricity.service.ts.
pub mod Shares
pub mod Allocation
pub mod Groups
pub mod Recovery
pub mod Run
pub mod Readings
mod Tests

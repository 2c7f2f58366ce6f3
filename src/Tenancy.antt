-- ===== src/Tenancy.antt =====
-- src/modules/tenancy and the moves of src/modules/tenent: tenants move in, change rooms and move out.
pub mod Notice
pub mod Onboarding
pub mod Shift
pub mod MoveIn
pub mod Exit
pub mod Details
pub mod Requests
pub mod Occupancy
mod Tests

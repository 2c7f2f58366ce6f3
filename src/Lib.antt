-- ===== src/Lib.antt =====
-- pg-master-backend: the service behind hostels for paying guests. Tenants owe dues (rent, deposit,
-- electricity and others) on their tenancy; owners collect them by hand, or tenants pay them through
-- the Easebuzz gateway, whose webhooks close the payments and feed the settlements of the property.
--
-- Files and the code that they model, by paths from the repository's root:
--   Prelude      names of the libraries, Boolean tests, lists with native numbers
--   Store        prisma/schema.prisma: Store/Schema has the rows, Store/Rows the calls on one table
--                (findFirst, findMany, updateMany, deleteMany, create), Store/Ids tables with unique
--                ids, Store/Requests and Store/Metrics further rows, Store/World the whole state
--                and the actions on it, Store/References the foreign keys that name a due and
--                the deletion of dues, Store/Samples a small database for the tests
--   Calendar     the UTC fields of JavaScript's Date, from day numbers
--   Proration    src/utils/Proration.utils.ts
--   Due          src/modules/due/due.service.ts
--   Easebuzz     src/infra/payment/easebuzz: the signature of webhooks
--   PaymentConfig  src/modules/payment-config/payment-config.service.ts, the lookup
--   Payment      src/modules/payment: Payment/Checks is helper/payment.helper.service.ts, Payment/Lock
--                is cache/payment.cache.service.ts, Payment/Start is makePayment and initiatePayment
--                and Payment/Webhook is handleWebhook of payment.service.ts
--   Electricity  src/modules/electricity: Electricity/Shares is utils/electricity-billing.utils.ts,
--                Electricity/Allocation and Electricity/Run are electricity-billing.service.ts,
--                Electricity/Readings is the submissions of electricity.service.ts
--   Phone        src/utils/phone.utils.ts
--   Tenancy      src/modules/tenancy/tenancy.service.ts and the moves of src/modules/tenent:
--                Tenancy/Onboarding is createTenant, Tenancy/Shift shiftTenantRoom and the requests for
--                it, Tenancy/MoveIn confirmMoveIn, Tenancy/Notice the notice period and the requests to
--                move out, Tenancy/Exit deleteTenant, revokeTenancyExit and reActiveTenancy,
--                Tenancy/Details updateTenancyDetails, Tenancy/Requests requestMoveOut;
--                Tenancy/Occupancy proves about the beds of rooms
--   Room         src/modules/room/room.service.ts
--   Billing      src/modules/billing/billing.service.ts
--   Complaint    src/modules/complaint/complaint.service.ts
-- The other files below a component prove about it, and a file Tests runs it.
--
-- How state and calls correspond. A service method is an action: a function from the World to a result
-- and the next World. Throwing keeps the writes made before, as the code does outside of a database
-- transaction; the writes of one `$transaction` stand in one step. Methods run one at a time: two
-- requests do not interleave between a read and a write. The clock's reading, new ids of transactions
-- (uuids) and the gateway's answer are arguments. SHA-512 is a parameter, a function on texts. Ids that
-- the database gives are the table's counter. Events go to a list in the order of emission.
--
-- Numbers. Money is in paise, which the columns Decimal(10, 2) hold; allocations of electricity are in
-- rupees, units in hundredths and unit prices in ten-thousandths, as their columns. Sums are exact where
-- the source adds floating point numbers. Times are milliseconds since the start of year 0, all
-- nonnegative, and years are not moved as `Date.UTC` moves 0 to 99; `Math.max(0, a - b)` is subtraction on natural numbers.
--
-- Bounds and fuel. The one loop with fuel is that of `calculateProratedRent`: each round passes a day at
-- least, so that the days of the period, and one more, are enough, and the result is never lost.
--
-- A column that is counted up and down (Store/Metrics) is a pair of what was added and what was taken;
-- the occupied beds of a room are a natural number, which the count of tenancies keeps above 0 where one
-- is taken away.
--
-- Not modelled: texts for people, redirect urls, stored raw responses, controllers and guards, lists and
-- reports that only read, the other services (payouts of settlements, the listeners that fill the
-- metrics, expenses, staff, KYC), and the clients of redis, S3, SMS and the queue. The upload of an
-- image is a parameter.
pub mod Prelude
pub mod Store
pub mod Calendar
pub mod Proration
pub mod Due
pub mod Easebuzz
pub mod PaymentConfig
pub mod Payment
pub mod Phone
pub mod Electricity
pub mod Tenancy
pub mod Room
pub mod Billing
pub mod Complaint

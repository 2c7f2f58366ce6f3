-- ===== src/Store/Schema.antt =====
-- The models and enums of prisma/schema.prisma that the services read and write. A phone number is
-- the list of its characters' codes. Money is in
-- paise, which `Decimal(10, 2)` stores exactly; a date or a time is a number of milliseconds.
use pg_master_backend.Prelude.{ℕ, String, Bool, true, false, Option, List}

pub data DueType : Type 0 where
  rent security_deposit electricity water maintenance fine other : DueType

pub data DueStatus : Type 0 where
  unpaid partial paid waived overdue : DueStatus

pub data PaymentMode : Type 0 where
  cash upi bank_transfer cheque online_gateway : PaymentMode

pub data GatewayTransactionStatus : Type 0 where
  initiated success failed cancelled : GatewayTransactionStatus

pub data SettlementStatus : Type 0 where
  pending settled : SettlementStatus

pub data TenancyStatus : Type 0 where
  active notice_period exited evicted pending : TenancyStatus

pub data UserRole : Type 0 where
  tenant property_owner staff admin : UserRole

pub record Due : Type 0 where
  pub id : ℕ
  pub tenancy_id : ℕ
  pub property_id : ℕ
  pub due_type : DueType
  pub custom_due_type : Option String
  pub month : ℕ
  pub year : ℕ
  pub total_amount : ℕ
  pub paid_amount : ℕ
  pub balance_amount : ℕ
  pub status : DueStatus
  pub period_start : Option ℕ
  pub period_end : Option ℕ
  pub due_date : ℕ

pub record DuePayment : Type 0 where
  pub id : ℕ
  pub due_id : ℕ
  pub tenancy_id : ℕ
  pub property_id : ℕ
  pub month : ℕ
  pub year : ℕ
  pub amount : ℕ
  pub payment_mode : PaymentMode
  pub transaction_id : Option String
  pub paid_at : ℕ
  pub recorded_by_id : ℕ

pub record Tenancy : Type 0 where
  pub id : ℕ
  pub room_id : ℕ
  pub tenent_id : ℕ
  pub property_id : ℕ
  pub tenancy_status : TenancyStatus
  pub rent_amount : ℕ
  pub security_deposit : ℕ
  pub billing_cycle_day : ℕ
  pub joined_at : ℕ
  pub left_at : Option ℕ
  pub deleted_at : Option ℕ
  pub next_billing_date : Option ℕ

pub record Room : Type 0 where
  pub id : ℕ
  pub property_id : ℕ
  pub total_beds : ℕ
  pub occupied_beds : ℕ
  pub has_meter : Bool
  pub initial_meter_reading : Option ℕ

pub record Property : Type 0 where
  pub id : ℕ
  pub owner_id : ℕ

pub record User : Type 0 where
  pub id : ℕ
  pub role : UserRole
  pub is_active : Bool
  pub is_blocked_by_admin : Bool
  pub phone_number : List ℕ
  pub email : Option String
  pub deleted_at : Option ℕ

pub record GatewayConfig : Type 0 where
  pub property_id : ℕ
  pub merchant_key : String
  pub merchant_salt : String
  pub is_active : Bool

pub record Transaction : Type 0 where
  pub id : ℕ
  pub due_id : Option ℕ
  pub tenancy_id : ℕ
  pub property_id : ℕ
  pub txn_id : String
  pub amount : ℕ
  pub status : GatewayTransactionStatus
  pub access_key : Option String
  pub easepay_id : Option String
  pub payment_source : Option String

pub record TransactionDue : Type 0 where
  pub id : ℕ
  pub transaction_id : ℕ
  pub due_id : ℕ
  pub amount : ℕ

pub record Settlement : Type 0 where
  pub id : ℕ
  pub property_id : ℕ
  pub payment_transaction_id : ℕ
  pub transaction_id : String
  pub gross_amount : ℕ
  pub settled_amount : ℕ
  pub expected_settlement_date : ℕ
  pub status : SettlementStatus

pub record Ledger : Type 0 where
  pub property_id : ℕ
  pub pending_settlement_amount : ℕ
  pub total_settled_amount : ℕ

pub data RequestStatus : Type 0 where
  pending approved rejected : RequestStatus

pub record MoveOutRequest : Type 0 where
  pub id : ℕ
  pub tenant_id : ℕ
  pub tenancy_id : ℕ
  pub property_id : ℕ
  pub status : RequestStatus
  pub requested_move_out_date : ℕ

-- the profile of the user `user_id`
pub record TenentProfile : Type 0 where
  pub user_id : ℕ
  pub move_out_date : Option ℕ

-- Readings are in hundredths of a unit, `Decimal(10, 2)`, and unit prices in ten-thousandths of a
-- rupee, `Decimal(10, 4)`.
pub record PropertyReading : Type 0 where
  pub property_id : ℕ
  pub month : ℕ
  pub year : ℕ
  pub previous_reading : ℕ
  pub current_reading : ℕ
  pub unit_consumed : ℕ
  pub unit_price : ℕ
  pub submitted : Bool

pub record RoomReading : Type 0 where
  pub room_id : ℕ
  pub property_id : ℕ
  pub month : ℕ
  pub year : ℕ
  pub previous_reading : ℕ
  pub current_reading : ℕ
  pub unit_consumed : ℕ

pub record BillingRun : Type 0 where
  pub property_id : ℕ
  pub month : ℕ
  pub year : ℕ
  pub completed : Bool
  pub main_meter_units : ℕ
  pub private_rooms_units : ℕ
  pub shared_pool_units : ℕ
  pub unit_price : ℕ
  pub total_days_pool : Option ℕ

-- `{ in: ['UNPAID', 'PARTIAL', 'OVERDUE'] }`, also `UNPAID_STATUSES`
abbrev pub is_open : DueStatus → Bool
is_open unpaid = true
is_open partial = true
is_open overdue = true
is_open _ = false

abbrev pub is_paid : DueStatus → Bool
is_paid paid = true
is_paid _ = false

-- `status === PAID || status === WAIVED`
abbrev pub is_cleared : DueStatus → Bool
is_cleared paid = true
is_cleared waived = true
is_cleared _ = false

abbrev pub is_initiated : GatewayTransactionStatus → Bool
is_initiated initiated = true
is_initiated _ = false

-- `deletedAt: null`
abbrev pub is_none {ℓ} : {A : Type ℓ} → Option A → Bool
is_none Option.none = true
is_none (Option.some _) = false
